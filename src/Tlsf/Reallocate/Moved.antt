-- ===== src/Tlsf/Reallocate/Moved.antt =====
-- An allocation that is copied to the start of a region with its own block in it.
use native.Mathlib.Decide.{dec_lt, ℕ_discrete}
use rlsf.Base.{
  ℕ, ◌+◌, ◌-◌, ◌%◌, ◌≤◌, ◌<◌, ◌≡◌, ◌≢◌, ◌⊎◌, inl, inr, refl, sym, ap, ◌∙◌, subst, some, arith,
  some_inj,
}
use rlsf.Tlsf.Config.{Config}
use rlsf.Tlsf.State.{State, Memory, copy}
use rlsf.Tlsf.Request.{Layout}
use rlsf.Tlsf.Links.Heap.{SameLinks}
use rlsf.Tlsf.Links.Rep.{Lists}
use rlsf.Tlsf.Heap.{vacant, occupied, Block, View, IsBlockAt, IsVacant, IsHeap}
use rlsf.Tlsf.Heap.Replace.{
  Region, InVacant, IsByteOf, first_tile, rest_tile, replace-first, replace-second,
}
use rlsf.Tlsf.Heap.Bytes.{replace-HasByte}
use rlsf.Tlsf.Heap.Members.{spared-IsFree}
use rlsf.Tlsf.Heap.Vacant.{outside_kept}
use rlsf.Tlsf.Heap.Placed.{occupied-ne-vacant}
use rlsf.Tlsf.Heap.Contents.{IsInside, OffLinks, inside-OffLinks}
use rlsf.Tlsf.Allocate.{place_used}
use rlsf.Tlsf.Allocate.Payload.{IsPayload}
use rlsf.Tlsf.Allocate.Place.{place_used-outside}
use rlsf.Tlsf.Allocate.Lookup.{hdr_for_allocation}
use rlsf.Tlsf.Deallocate.{Hole}
use rlsf.Tlsf.Deallocate.Region.{Outside, IsHole}
use rlsf.Tlsf.Client.{Live}
use rlsf.Tlsf.Client.Owned.{owner, IsOwnedBy}
use rlsf.Tlsf.Reallocate.Part.{resized}
use rlsf.Tlsf.Reallocate.Words.{copy-other, copy-word}
use rlsf.Tlsf.Reallocate.Copy.{IsCopied}

module _ {c : Config} {s0 : State} {lists0 : Lists} {h : View} (heap : IsHeap c s0 lists0 h) {b : ℕ}
    {k : Block} (here : h b ≡ some k) (used : k.kind ≡ occupied) {hole : Hole} {s : State}
    {lists : Lists} {r : Region} (w : IsHole c s0.mem h b k hole s lists r) (first : r.b < b)
    (behind : ¬ IsVacant h r.e) (own : (a : ℕ) → IsInside h b a → s.mem a ≡ s0.mem a)
    (ptr count n : ℕ) (after : b + 16 ≤ ptr) (within : ptr + count ≤ b + k.size)
    (whole : n % 32 ≡ 0) (fits : r.b + n ≤ r.e) (l : Layout) (p : ℕ)
    (payload : IsPayload l.align r.b p) (small : count ≤ l.size) (room : p + l.size ≤ r.b + n) where
  pub pos : 0 < n
  pos = omega (arith, payload.behind)

  pub in_block : p ≤ r.b + n
  in_block = omega arith

  abbrev pub new_view : View
  new_view = resized heap w behind n pos fits whole payload in_block

  abbrev pub copied_mem : Memory
  copied_mem = copy s.mem ptr p count

  start_at : IsBlockAt c r.b (w.is).start
  start_at = (heap.tiled).block r.b (w.is).start (w.is).at_start

  off_region : (a : ℕ) → (a < r.b + 16) ⊎ (r.e ≤ a) → copied_mem a ≡ s.mem a
  off_region a (inl low) = copy-other s.mem ptr p count a (inl (omega (arith, payload.behind)))
  off_region a (inr high) = copy-other s.mem ptr p count a (inr (omega arith))

  spared :
      (z : ℕ) → IsVacant h z × Outside r z → (copied_mem z ≡ s.mem z) × SameLinks s.mem copied_mem z
  spared z ((kz, e, v), inl low) =
      let apart = (heap.tiled).apart z kz r.b (w.is).start e (w.is).at_start low in
      let t : IsBlockAt c z kz = (heap.tiled).block z kz e in
      (
        off_region z (inl (omega arith)),
        (
          off_region (z + 16) (inl (omega (arith, apart, t.at_least))),
          off_region (z + 24) (inl (omega (arith, apart, t.at_least))),
        ),
      )
  spared z ((kz, e, v), inr high) = (
    off_region z (inr high),
    (off_region (z + 16) (inr (omega arith)), off_region (z + 24) (inr (omega arith))),
  )

  -- A word of another used block is before the region or behind it.
  away : {z a : ℕ} → z ≢ b → IsInside h z a → (a < r.b) ⊎ (r.e + 16 ≤ a)
  away {z} {a} ne i =
      let live : i.block.kind ≢ vacant = λ v. occupied-ne-vacant (sym i.used ∙ v) in
      elim (w.live z i.block i.at live ne) [
        | inl low ↦ inl (
            omega
              (arith, (heap.tiled).apart z i.block r.b (w.is).start i.at (w.is).at_start low, i.to))
        | inr high ↦ inr (omega (arith, i.from))
      ]

  near : {a : ℕ} → (a < r.b) ⊎ (r.e + 16 ≤ a) → (a < r.b + 16) ⊎ (r.e ≤ a)
  near (inl low) = inl (omega arith)
  near (inr high) = inr (omega arith)

  -- The region after the copy.
  pub copied-IsHole : IsHole c s0.mem h b k hole (record s { mem = copied_mem }) lists r
  copied-IsHole = record {
    is = w.is;
    block_eq = w.block_eq;
    size_eq = w.size_eq;
    next_eq = w.next_eq;
    free = spared-IsFree w.free w.holds copied_mem spared;
    holds = w.holds;
    same = λ a low out. off_region a out ∙ w.same a low out;
    from = w.from;
    to = w.to;
    contents = λ z a ne i. off_region a (near (away ne i)) ∙ w.contents z a ne i;
    live = w.live;
  }

  abbrev y : Live
  y = record { ptr = p; layout = l }

  module _ (m : Memory)
      (kept : (a : ℕ)
        → OffLinks (λ z. IsVacant h z × Outside r z) a
        → (a < r.b + n) ⊎ (r.e ≤ a)
        → a ≢ r.e + 8
        → m a ≡ copied_mem a) where
    abbrev placed : Memory
    placed = place_used m l.align p r.b n

    owner_eq : owner placed y ≡ r.b
    owner_eq = hdr_for_allocation m l.align r.b p n payload whole start_at.ne_null

    now_owned : IsOwnedBy new_view r.b y
    now_owned = record {
      block = first_tile r n occupied;
      at = replace-first w.is n pos fits occupied vacant;
      used = refl;
      payload = payload;
      room = room;
    }

    inside_off : (a : ℕ) → r.b + 16 ≤ a → a < r.e → OffLinks (λ z. IsVacant h z × Outside r z) a
    inside_off a from to z ((kz, e, v), inl low) =
        let apart = (heap.tiled).apart z kz r.b (w.is).start e (w.is).at_start low in
        let t : IsBlockAt c z kz = (heap.tiled).block z kz e in
        (omega (arith, apart, t.at_least), omega (arith, apart, t.at_least))
    inside_off a from to z ((kz, e, v), inr high) = (omega arith, omega arith)

    moved_words : (i : ℕ) → i + 8 ≤ count → placed (p + i) ≡ s0.mem (ptr + i)
    moved_words i le =
        let i_old : IsInside h b (ptr + i) = record {
          block = k;
          at = here;
          used = used;
          from = omega arith;
          to = omega arith;
        } in
        let at : ptr + (p + i - p) ≡ ptr + i = omega arith in
        place_used-outside m l.align r.b p n payload whole (p + i) (omega (arith, payload.behind))
          (inr (omega arith))
        ∙ (kept (p + i) (inside_off (p + i) (omega (arith, payload.behind)) (omega arith))
              (inl (omega arith)) (omega arith)
            ∙ (copy-word s.mem ptr p count (p + i) (omega arith) (omega arith)
                ∙ (ap s.mem at ∙ own (ptr + i) i_old)))

    moved_contents : (z a : ℕ) → z ≢ b → IsInside h z a → placed a ≡ s0.mem a
    moved_contents z a ne i =
        let apart = away ne i in
        place_used-outside m l.align r.b p n payload whole a (not_first apart) (spared_head apart)
        ∙ (kept a (λ z' q. inside-OffLinks heap.tiled i z' q.0) (around apart) (not_end apart)
            ∙ (off_region a (near apart) ∙ w.contents z a ne i))
      where
        not_first : (a < r.b) ⊎ (r.e + 16 ≤ a) → a ≢ r.b
        not_first (inl o) = omega arith
        not_first (inr o) = omega (arith, (w.is).forward)

        spared_head : (a < r.b) ⊎ (r.e + 16 ≤ a) → (a < r.b + 16) ⊎ (p ≤ a)
        spared_head (inl o) = inl (omega arith)
        spared_head (inr o) = inr (omega arith)

        around : (a < r.b) ⊎ (r.e + 16 ≤ a) → (a < r.b + n) ⊎ (r.e ≤ a)
        around (inl o) = inl (omega arith)
        around (inr o) = inr (omega arith)

        not_end : (a < r.b) ⊎ (r.e + 16 ≤ a) → a ≢ r.e + 8
        not_end (inl o) = omega (arith, (w.is).forward)
        not_end (inr o) = omega arith

    -- No block in use begins where the region does.
    start_fresh : (z : ℕ) (kz : Block) → h z ≡ some kz → kz.kind ≢ vacant → z ≢ b → z ≢ r.b
    start_fresh z kz e ne other q = elim (w.live z kz e ne other) [
      | inl low ↦ omega arith
      | inr high ↦ omega (arith, (w.is).forward)
    ]

    -- A byte of the region is in the new block or in the vacant rest.
    freed_byte :
        (x : ℕ) → r.b ≤ x → x < r.e → InVacant new_view x ⊎ IsByteOf new_view (owner placed y) x
    freed_byte x from to = elim (dec_lt x (r.b + n)) [
      | yes low ↦ inr (record {
        block = first_tile r n occupied;
        at = ap new_view owner_eq ∙ replace-first w.is n pos fits occupied vacant;
        from = omega (arith, owner_eq);
        to = omega (arith, owner_eq);
      })
      | no high ↦ inl (record {
        base = r.b + n;
        block = rest_tile r n vacant;
        at = replace-second w.is n pos fits occupied vacant (omega arith);
        is_vacant = refl;
        from = omega arith;
        to = omega arith;
      })
    ]

    pub moved-IsCopied : IsCopied h new_view s0.mem placed b ptr count y
    moved-IsCopied = record {
      owned = subst (λ t. IsOwnedBy new_view t y) (sym owner_eq) now_owned;
      words = moved_words;
      fresh = λ z kz e ne q. elim (ℕ_discrete z b) [
        | yes same ↦ omega (arith, owner_eq)
        | no other ↦ start_fresh z kz e ne other (q ∙ owner_eq)
      ];
      others = λ z kz e live ne k' e'.
          outside_kept w.is n pos fits occupied vacant z k' e' (w.live z kz e live ne);
      contents = moved_contents;
      freed = λ k' e x from to. freed_byte x (omega (arith, w.from)) (
          omega (arith, w.to, w.size_eq, to, ap (λ (t : Block). t.size) (some_inj (sym here ∙ e))));
      bytes = replace-HasByte heap.tiled w.is n pos fits occupied vacant;
    }
