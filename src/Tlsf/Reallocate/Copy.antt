-- ===== src/Tlsf/Reallocate/Copy.antt =====
-- `reallocate_by_copy`: a new allocation gets the contents of the old one, which is released.
use rlsf.Base.{
  ℕ, ◌+◌, ◌-◌, ◌^◌, ◌≤◌, ◌<◌, ◌≡◌, ◌≢◌, ◌⊎◌, inl, inr, refl, sym, ap, ◌∙◌, subst, Option, none,
  some, arith, some_inj,
}
use rlsf.Tlsf.Config.{Config, IsValid}
use rlsf.Tlsf.State.{State, Memory, copy}
use rlsf.Tlsf.Request.{Layout}
use rlsf.Tlsf.Links.Rep.{Lists}
use rlsf.Tlsf.Heap.{vacant, occupied, Block, View, IsHeap}
use rlsf.Tlsf.Heap.Replace.{HasByte, InVacant, IsByteOf}
use rlsf.Tlsf.Heap.Contents.{IsInside, SameContents, SameOthers, inside-apart}
use rlsf.Tlsf.Heap.Placed.{occupied-ne-vacant}
use rlsf.Tlsf.Heap.Store.{stored-IsHeap}
use rlsf.Tlsf.Allocate.{allocate}
use rlsf.Tlsf.Allocate.Take.{Stays, IsTaken}
use rlsf.Tlsf.Allocate.Outcome.{Outcome, refused, granted, allocate-Outcome}
use rlsf.Tlsf.Deallocate.{deallocate}
use rlsf.Tlsf.Deallocate.Outcome.{IsReleased, deallocate-IsHeap}
use rlsf.Tlsf.Client.{Live}
use rlsf.Tlsf.Client.Owned.{
  owner, IsOwnedBy, IsOwned, owned-IsInside, IsOwnedBy-Stays, header_pad, header_kept,
}
use rlsf.Tlsf.Used.{used_block_hdr_for_allocation}
use rlsf.Tlsf.Reallocate.{reallocate_by_copy}
use rlsf.Tlsf.Reallocate.Words.{copy-other, copy-word}

-- Each byte of the block `k` at `b` is in a vacant block, or in the one at `new`.
abbrev pub IsFreed : View → ℕ → Block → ℕ → Type 0
IsFreed h' b k new = (x : ℕ) → b ≤ x → x < b + k.size → InVacant h' x ⊎ IsByteOf h' new x

-- The block at `b` becomes the allocation `y`, with `count` bytes of it at `ptr`. The other blocks
-- in use stay, with the contents of the used ones. What the old block had is vacant, where it is
-- not in the new block.
pub record IsCopied (h h' : View) (m m' : Memory) (b ptr count : ℕ) (y : Live) : Type 0 where
  pub owned : IsOwned h' m' y
  pub words : (i : ℕ) → i + 8 ≤ count → m' (y.ptr + i) ≡ m (ptr + i)
  pub fresh : (z : ℕ) (kz : Block) → h z ≡ some kz → kz.kind ≢ vacant → z ≢ owner m' y
  pub others : (z : ℕ) (kz : Block) → h z ≡ some kz → kz.kind ≢ vacant → z ≢ b → Stays h h' z
  pub contents : SameOthers h b m m'
  pub freed : (k : Block) → h b ≡ some k → IsFreed h' b k (owner m' y)
  pub bytes : (x : ℕ) → HasByte h' x → HasByte h x

-- What `reallocate_by_copy` returns: null and the state as it was, or a pointer to the copy.
pub data CopyOutcome (c : Config) (s : State) (h : View) (b ptr count : ℕ) (l : Layout)
    : Option ℕ × State → Type 0 where
  no_copy : CopyOutcome c s h b ptr count l (none, s)
  copied :
      (p : ℕ) (s' : State) (lists' : Lists) (h' : View)
      → IsHeap c s' lists' h'
      → IsCopied h h' s.mem s'.mem b ptr count (record { ptr = p; layout = l })
      → CopyOutcome c s h b ptr count l (some p, s')

module _ {c : Config} (v : IsValid c) {s : State} {lists : Lists} {h : View}
    (heap : IsHeap c s lists h) (x : Live) (o : IsOwned h s.mem x) (l : Layout)
    (align_eq : (x.layout).align ≡ l.align) (count : ℕ) (small : count ≤ l.size)
    (within : x.ptr + count ≤ owner s.mem x + (o.block).size) where
  abbrev b : ℕ
  b = owner s.mem x

  -- The state in between, with the copy.
  module _ (p : ℕ) (s1 : State) (lists1 : Lists) (h1 : View) (heap1 : IsHeap c s1 lists1 h1)
      (is : IsTaken l h h1 s1.mem p) (same : SameContents h s.mem s1.mem) where
    abbrev m1 : Memory
    m1 = copy s1.mem x.ptr p count

    fresh1 : (z : ℕ) (kz : Block) → h z ≡ some kz → kz.kind ≢ vacant → z ≢ is.b
    fresh1 z kz e ne q =
        let eq : kz ≡ is.before = some_inj (sym e ∙ (ap h q ∙ is.at_before)) in
        ne (ap (λ (t : Block). t.kind) eq ∙ is.was_vacant)

    -- A used block of before in the view in between.
    inside1 : {z a : ℕ} → IsInside h z a → IsInside h1 z a × (z ≢ is.b)
    inside1 {z} {a} i =
        let ne = fresh1 z i.block i.at (λ w. occupied-ne-vacant (sym i.used ∙ w)) in
        let (k', e', size, kind) = is.others z ne i.block i.at in
        (
          record {
            block = k';
            at = e';
            used = kind ∙ i.used;
            from = i.from;
            to = omega (arith, i.to, size);
          },
          ne,
        )

    -- The copy leaves the words of the other blocks.
    kept1 : {z a : ℕ} → IsInside h z a → m1 a ≡ s.mem a
    kept1 {z} {a} i =
        let (i', ne) = inside1 i in
        let out : (a < p) ⊎ (p + count ≤ a) =
          elim (inside-apart heap1.tiled i' is.b is.after is.at_after (λ q. ne (sym q))) [
            | inl low ↦ inl (omega (arith, (is.payload).behind))
            | inr high ↦ inr (omega (arith, is.room, is.after_size))
          ] in
        copy-other s1.mem x.ptr p count a out ∙ same z a i

    heap_copied : IsHeap c (record s1 { mem = m1 }) lists1 h1
    heap_copied =
        stored-IsHeap heap1 is.at_after is.now_used m1
          (λ a out. copy-other s1.mem x.ptr p count a (outside a out))
      where
        outside :
            (a : ℕ) → (a < is.b + 16) ⊎ (is.b + (is.after).size ≤ a) → (a < p) ⊎ (p + count ≤ a)
        outside a (inl low) = inl (omega (arith, (is.payload).behind))
        outside a (inr high) = inr (omega (arith, is.room, is.after_size))

    found : owner m1 x ≡ b
    found = header_kept o s.mem m1 refl (λ a i. kept1 i)

    old_used : (k' : Block) × (h1 b ≡ some k') × (k'.kind ≡ occupied) × (k'.size ≡ (o.block).size)
    old_used =
        let ne = fresh1 b o.block o.at (λ w. occupied-ne-vacant (sym o.used ∙ w)) in
        let (k', e', size, kind) = is.others b ne o.block o.at in (k', e', kind ∙ o.used, size)

    abbrev y : Live
    y = record { ptr = p; layout = l }

    new_owned : IsOwnedBy h1 is.b y
    new_owned = record {
      block = is.after;
      at = is.at_after;
      used = is.now_used;
      payload = is.payload;
      room = omega (arith, is.room, is.after_size);
    }

    -- The block of the copy is used, and no other one.
    Stays-released :
        {h2 : View} {k1 : Block}
        → IsReleased h1 h2 b k1
        → (z : ℕ) (kz : Block) → h z ≡ some kz
        → kz.kind ≢ vacant
        → z ≢ b
        → Stays h h2 z
    Stays-released back z kz e ne other k e' =
        let same_block : kz ≡ k = some_inj (sym e ∙ e') in
        let live : k.kind ≢ vacant = λ w. ne (ap (λ (t : Block). t.kind) same_block ∙ w) in
        let (k1, e1, size1, kind1) = is.others z (fresh1 z kz e ne) k e' in
        let (k2, e2, size2, kind2) = back.others z k1 e1 (λ w. live (sym kind1 ∙ w)) other k1 e1 in
        (k2, e2, size2 ∙ size1, kind2 ∙ kind1)

    b_apart : is.b ≢ b
    b_apart q = fresh1 b o.block o.at (λ w. occupied-ne-vacant (sym o.used ∙ w)) (sym q)

    copied_words :
        (m2 : Memory)
        → SameOthers h1 b m1 m2
        → (i : ℕ) → i + 8 ≤ count
        → m2 (p + i) ≡ s.mem (x.ptr + i)
    copied_words m2 others i le =
        let in_new : IsInside h1 is.b (p + i) =
          owned-IsInside new_owned (p + i) (omega arith) (omega arith) in
        let in_old : IsInside h b (x.ptr + i) = record {
          block = o.block;
          at = o.at;
          used = o.used;
          from = omega (arith, (o.payload).behind);
          to = omega (arith, within);
        } in
        let at : x.ptr + (p + i - p) ≡ x.ptr + i = omega arith in
        others is.b (p + i) b_apart in_new
        ∙ (copy-word s1.mem x.ptr p count (p + i) (omega arith) (omega arith)
            ∙ (ap s1.mem at ∙ same b (x.ptr + i) in_old))

    new_header : (m2 : Memory) → SameOthers h1 b m1 m2 → owner m2 y ≡ is.b
    new_header m2 others =
        header_kept new_owned m1 m2
          (header_pad new_owned s1.mem m1 is.header (λ large.
            copy-other s1.mem x.ptr p count (p - 8) (inl (omega (arith, (is.payload).behind)))))
          (λ a i. others is.b a b_apart i)

    -- The release of the old block.
    released :
        (s2 : State) × (lists2 : Lists) × (h2 : View) × (deallocate c x.ptr l.align
            (record s1 { mem = m1 })
          ≡ some s2)
        × IsHeap c s2 lists2 h2
        × IsCopied h h2 s.mem s2.mem b x.ptr count y
    released =
        let (k', e', used', size') = old_used in
        let (s2, lists2, h2, run, heap2, back, others) =
          deallocate-IsHeap v heap_copied e' used' x.ptr l.align
            (ap (λ (t : ℕ). used_block_hdr_for_allocation m1 x.ptr t) (sym align_eq) ∙ found) in
        let head = new_header s2.mem others in
        let stay : Stays h1 h2 is.b =
          back.others is.b is.after is.at_after (λ w. occupied-ne-vacant (sym is.now_used ∙ w))
            b_apart in
        (
          s2,
          lists2,
          h2,
          run,
          heap2,
          record {
            owned = subst (λ t. IsOwnedBy h2 t y) (sym head) (IsOwnedBy-Stays new_owned stay);
            words = copied_words s2.mem others;
            fresh = λ z kz e ne q. fresh1 z kz e ne (q ∙ head);
            others = Stays-released back;
            contents = λ z a ne i. others z a ne (inside1 i).0 ∙ kept1 i;
            freed = λ k e a from to.
                let same_block : k ≡ o.block = some_inj (sym e ∙ o.at) in
                inl (record {
                  base = back.at;
                  block = back.block;
                  at = back.now_at;
                  is_vacant = back.now_vacant;
                  from = omega (arith, back.from);
                  to = omega (arith, back.to, size', ap (λ (t : Block). t.size) same_block);
                });
            bytes = λ a i. is.bytes a (back.bytes a i);
          },
        )

  copy_runs :
      (t : Option ℕ × State)
      → allocate c l s ≡ some t
      → Outcome c l s lists h t
      → (t' : Option ℕ × State) × (reallocate_by_copy c x.ptr count l s ≡ some t')
        × CopyOutcome c s h b x.ptr count l t'
  unfolding reallocate_by_copy
  copy_runs _ run (refused none_fits) = ((none, s), rw run refl, no_copy)
  copy_runs _ run (granted p s1 lists1 h1 heap1 is same) =
      let (s2, lists2, h2, run2, heap2, is2) = released p s1 lists1 h1 heap1 is same in
      ((some p, s2), rw (run, run2) refl, copied p s2 lists2 h2 heap2 is2)

  -- For valid constants, a heap, an allocation in a used block, a new layout of the same alignment,
  -- a power of two of the word, and a count of bytes that are in the old block and fit the new
  -- layout, `reallocate_by_copy` returns. Either it returns null and the state stays, or a pointer
  -- to an allocation for the new layout, in a block that was not in use. There, the words of the
  -- old allocation are, and each byte of the old block is in a vacant block or in the new one. The
  -- other blocks in use stay, with their contents, and the result is a heap.
  pub reallocate_by_copy-CopyOutcome :
      (a : ℕ)
      → a < 64
      → l.align ≡ 2 ^ a
      → (t : Option ℕ × State) × (reallocate_by_copy c x.ptr count l s ≡ some t)
        × CopyOutcome c s h b x.ptr count l t
  reallocate_by_copy-CopyOutcome a lt power =
      let (t, run, out) = allocate-Outcome heap v l a lt power in copy_runs t run out
