-- ===== src/Tlsf/Reallocate/Resized.antt =====
-- A used block that gets another size where it is.
use rlsf.Base.{
  bit_or, ℕ, ◌+◌, ◌-◌, ◌%◌, ◌≤◌, ◌<◌, ◌≡◌, ◌≢◌, ◌⊎◌, inl, inr, refl, sym, ap, ◌∙◌, some, arith,
}
use rlsf.Tlsf.Config.{Config}
use rlsf.Tlsf.State.{State, Memory, write}
use rlsf.Tlsf.Links.Rep.{Lists, IsFree, SameHeaders}
use rlsf.Tlsf.Heap.{vacant, occupied, Block, View, IsVacant, Holds, IsHeap}
use rlsf.Tlsf.Heap.Replace.{Region}
use rlsf.Tlsf.Heap.Placed.{occupied-ne-vacant}
use rlsf.Tlsf.Allocate.{place_used}
use rlsf.Tlsf.Allocate.Payload.{IsPayload}
use rlsf.Tlsf.Allocate.Place.{with_rest}
use rlsf.Tlsf.Deallocate.{Hole}
use rlsf.Tlsf.Deallocate.Region.{Outside, IsHole}
use rlsf.Tlsf.Heap.Contents.{IsInside, SameOthers, OffLinks, inside-OffLinks}
use rlsf.Tlsf.Heap.Replace.{HasByte, InVacant, first_tile, rest_tile, replace-first, replace-second}
use rlsf.Tlsf.Heap.Bytes.{replace-HasByte}
use rlsf.Tlsf.Heap.Vacant.{outside_kept}
use rlsf.Tlsf.Allocate.{place_pad}
use rlsf.Tlsf.Allocate.Take.{Stays}
use rlsf.Tlsf.Reallocate.Part.{resized, whole-IsHeap, part-IsHeap}

-- The block at `b` has `n` bytes after, and keeps its words as far as both sizes go. All other
-- blocks in use stay, with the words of the used ones. What is left up to `e` is vacant.
pub record IsResized (h h' : View) (m m' : Memory) (b : ℕ) (k : Block) (n e : ℕ) : Type 0 where
  pub after : Block
  pub at_after : h' b ≡ some after
  pub now_used : after.kind ≡ occupied
  pub after_size : after.size ≡ n
  pub others : (z : ℕ) (kz : Block) → h z ≡ some kz → kz.kind ≢ vacant → z ≢ b → Stays h h' z
  pub contents : SameOthers h b m m'
  pub own : (a : ℕ) → b + 16 ≤ a → a < b + n → a < b + k.size → m' a ≡ m a
  pub left : (x : ℕ) → b + n ≤ x → x < e → InVacant h' x
  pub bytes : (x : ℕ) → HasByte h' x → HasByte h x

pub small_payload : (b : ℕ) → IsPayload 1 b (b + 16)
small_payload b = record {
  aligned = omega arith;
  behind = omega arith;
  near = omega arith;
  padded = λ h. absurd (omega arith);
  plain = λ h. refl;
  granular = λ h. absurd (omega arith);
}

module _ {c : Config} {s0 : State} {lists0 : Lists} {h : View} (heap : IsHeap c s0 lists0 h) {b : ℕ}
    {k : Block} (here : h b ≡ some k) (used : k.kind ≡ occupied) {hole : Hole} {s : State}
    {lists : Lists} {r : Region} (w : IsHole c s0.mem h b k hole s lists r) (first : r.b ≡ b)
    (behind : ¬ IsVacant h r.e) (own : (a : ℕ) → IsInside h b a → s.mem a ≡ s0.mem a) (n : ℕ)
    (large : 16 ≤ n) (fits : r.b + n ≤ r.e) (whole : n % 32 ≡ 0) (e : ℕ) (e_le : e ≤ r.e) where
  pub pos : 0 < n
  pos = omega arith

  pub in_block : r.b + 16 ≤ r.b + n
  in_block = omega arith

  abbrev pub new_view : View
  new_view = resized heap w behind n pos fits whole (small_payload r.b) in_block

  -- The size of the block in its header.
  abbrev pub with_size : Memory → Memory
  with_size m = write m r.b (bit_or n 1)

  -- A word of another used block is before the region or behind it.
  away : {z a : ℕ} → z ≢ b → IsInside h z a → (a < r.b) ⊎ (r.e + 16 ≤ a)
  away {z} {a} ne i =
      let live : i.block.kind ≢ vacant = λ v. occupied-ne-vacant (sym i.used ∙ v) in
      elim (w.live z i.block i.at live ne) [
        | inl low ↦ inl (
            omega
              (arith, (heap.tiled).apart z i.block r.b (w.is).start i.at (w.is).at_start low, i.to))
        | inr high ↦ inr (omega (arith, i.from))
      ]

  sized-other : (m : Memory) (a : ℕ) → a ≢ r.b → with_size m a ≡ m a
  unfolding write
  sized-other m a ne = ground arith

  -- What is left to show of a memory `m` in which the region is tiled, but for the size.
  is_resized :
      (m : Memory)
      → ((a : ℕ)
          → OffLinks (IsVacant h) a
          → (a < r.b + n) ⊎ (r.e ≤ a)
          → a ≢ r.e + 8
          → a ≢ r.b
          → m a ≡ s.mem a)
      → IsResized h new_view s0.mem (with_size m) b k n e
  is_resized m kept = record {
    after = first_tile r n occupied;
    at_after = ap new_view (sym first) ∙ replace-first w.is n pos fits occupied vacant;
    now_used = refl;
    after_size = refl;
    others = λ z kz e live ne k' e'.
        outside_kept w.is n pos fits occupied vacant z k' e' (w.live z kz e live ne);
    contents = λ z a ne i.
        let apart = away ne i in
        let off = inside-OffLinks heap.tiled i in
        sized-other m a (not_first apart)
        ∙ (kept a off (near apart) (not_end apart) (not_first apart) ∙ w.contents z a ne i);
    own = λ a from to to'.
        let i : IsInside h b a = record {
          block = k;
          at = here;
          used = used;
          from = from;
          to = to';
        } in
        sized-other m a (omega arith)
        ∙ (kept a (inside-OffLinks heap.tiled i) (inl (omega arith)) (omega arith) (omega arith)
            ∙ own a i);
    left = λ x from to. record {
      base = r.b + n;
      block = rest_tile r n vacant;
      at = replace-second w.is n pos fits occupied vacant (omega arith);
      is_vacant = refl;
      from = omega arith;
      to = omega arith;
    };
    bytes = replace-HasByte heap.tiled w.is n pos fits occupied vacant;
  }
    where
      not_first : {a : ℕ} → (a < r.b) ⊎ (r.e + 16 ≤ a) → a ≢ r.b
      not_first (inl o) = omega arith
      not_first (inr o) = omega (arith, (w.is).forward)

      near : {a : ℕ} → (a < r.b) ⊎ (r.e + 16 ≤ a) → (a < r.b + n) ⊎ (r.e ≤ a)
      near (inl o) = inl (omega arith)
      near (inr o) = inr (omega arith)

      not_end : {a : ℕ} → (a < r.b) ⊎ (r.e + 16 ≤ a) → a ≢ r.e + 8
      not_end (inl o) = omega (arith, (w.is).forward)
      not_end (inr o) = omega arith

  module _ {s2 : State} {lists2 : Lists} (free : IsFree c s2 lists2) where
    pub whole-IsResized :
        r.b + n ≡ r.e
        → Holds lists2 (λ z. IsVacant h z × Outside r z)
        → ((a : ℕ) → a ≢ r.e + 8 → s2.mem a ≡ s.mem a)
        → s2.mem (r.e + 8) ≡ r.b
        → IsHeap c (record s2 { mem = with_size s2.mem }) lists2 new_view
          × IsResized h new_view s0.mem (with_size s2.mem) b k n e
    unfolding place_used place_pad
    whole-IsResized exact holds same back = (
      whole-IsHeap heap w behind n pos fits whole (small_payload r.b) in_block free exact holds
          (λ a low. same a) back,
      is_resized s2.mem (λ a off near ne ne'. same a ne),
    )

    pub part-IsResized :
        r.b + n < r.e
        → Holds lists2 (λ z. (IsVacant h z × Outside r z) ⊎ (z ≡ r.b + n))
        → SameHeaders (with_rest s.mem r.b (r.b + n) (r.e - (r.b + n)) r.e) s2.mem
        → ((a : ℕ)
            → OffLinks (IsVacant h) a
            → (a < r.b + n) ⊎ (r.e ≤ a)
            → a ≢ r.e + 8
            → s2.mem a ≡ s.mem a)
        → IsHeap c (record s2 { mem = with_size s2.mem }) lists2 new_view
          × IsResized h new_view s0.mem (with_size s2.mem) b k n e
    unfolding place_used place_pad
    part-IsResized less holds same kept = (
      part-IsHeap heap w behind n pos fits whole (small_payload r.b) in_block free less holds same,
      is_resized s2.mem (λ a off near ne ne'. kept a off near ne),
    )
