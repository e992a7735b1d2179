-- ===== src/Tlsf/Reallocate/Whole.antt =====
-- `reallocate` as a whole: in place, by moving to the block before, or by a new block.
use rlsf.Base.{
  ℕ, ◌+◌, ◌-◌, ◌%◌, ◌^◌, ◌≤◌, ◌<◌, ◌≡◌, inl, inr, refl, sym, ap, ◌∙◌, Option, none, some, ◌>>=◌,
  some_inj, min, arith, true, ltb, leb, Bool-cases, Option-cases,
}
use rlsf.Word.{checked_add}
use rlsf.Tlsf.Config.{Config, IsValid}
use rlsf.Tlsf.State.{State, next_phys_block}
use rlsf.Tlsf.Request.{Layout, checked_round_up}
use rlsf.Tlsf.Links.Rep.{Lists}
use rlsf.Tlsf.Used.{is_free, used_block_hdr_for_allocation, size_of_allocation, payload_size}
use rlsf.Tlsf.Heap.{flags, Block, View, IsBlockAt, IsHeap}
use rlsf.Tlsf.Heap.Words.{is_free-vacant, is_free-used, next_phys_block-eq}
use rlsf.Tlsf.Heap.Placed.{occupied-ne-sentinel}
use rlsf.Tlsf.Deallocate.Region.{decide_vacant}
use rlsf.Tlsf.Client.{Live}
use rlsf.Tlsf.Client.Owned.{owner, IsOwned}
use rlsf.Tlsf.Reallocate.{reallocate}
use rlsf.Tlsf.Reallocate.InPlace.{
  Clearance, shrink, move, grow_or_move, reallocate_sized, reallocate_inplace,
}
use rlsf.Tlsf.Reallocate.Rounded.{rounded, not_rounded}
use rlsf.Tlsf.Reallocate.Shrink.{shrink-IsResized}
use rlsf.Tlsf.Reallocate.Grow.{grow-IsResized}
use rlsf.Tlsf.Reallocate.MoveInto.{IsClearance, alone, with_vacant}
use rlsf.Tlsf.Reallocate.MoveOutcome.{move-CopyOutcome}
use rlsf.Tlsf.Reallocate.Copy.{reallocate_by_copy-CopyOutcome}
use rlsf.Tlsf.Reallocate.Outcome.{
  ReallocateOutcome, not_moved, reallocated, of_copied, IsReallocated-of_resized,
}
use rlsf.Tlsf.Reallocate.Ways.{
  next_used, next_small, next_large, reallocate-stays, reallocate-copies,
}

module _ {c : Config} (v : IsValid c) {s : State} {lists : Lists} {h : View}
    (heap : IsHeap c s lists h) (x : Live) (o : IsOwned h s.mem x) (l : Layout)
    (align_eq : (x.layout).align ≡ l.align) (a : ℕ) (a_lt : a < 64) (power : l.align ≡ 2 ^ a) where
  abbrev b : ℕ
  b = owner s.mem x

  abbrev old : ℕ
  old = (o.block).size

  abbrev count : ℕ
  count = min l.size (old - (x.ptr - b))

  abbrev Q : Type 0
  Q = old - (x.ptr - b) ≤ l.size

  block_at : IsBlockAt c b o.block
  block_at = (heap.tiled).block b o.block o.at

  next_eq : next_phys_block s.mem b ≡ b + old
  next_eq = next_phys_block-eq block_at s.mem (heap.agrees b o.block o.at).0

  size_eq : s.mem b - 1 ≡ old
  size_eq =
      let f : flags (o.block).kind ≡ 1 = ap flags o.used in
      omega (arith, (heap.agrees b o.block o.at).0)

  abbrev Runs : Option (Option ℕ × State) → Type 0
  Runs r = (t : Option ℕ × State) × (r ≡ some t) × ReallocateOutcome c s h b x.ptr count l Q t

  -- The new size, and what follows from it.
  module _ (n : ℕ) (whole : n % 32 ≡ 0) (enough : x.ptr - b + l.size ≤ n)
      (close : n ≤ x.ptr - b + l.size + 31) where
    large : 16 ≤ n
    large = omega (arith, (o.payload).behind)

    room : x.ptr + l.size ≤ b + n
    room = omega (arith, (o.payload).behind)

    shrinks : n ≤ old → Runs (shrink c x.ptr b n old s)
    shrinks le =
        let (s', lists', h', run, heap', is) =
          shrink-IsResized v heap o.at o.used n large whole x.ptr le in
        (
          (some x.ptr, s'),
          run,
          reallocated x.ptr s' lists' h' heap'
              (IsReallocated-of_resized x o l align_eq is room (omega arith)),
        )

    more_than : old < n → Q
    more_than more = omega (arith, close, whole, block_at.whole)

    moves :
        (r : Clearance)
        → IsClearance h b o.block r
        → old < n
        → Runs (move c x.ptr b (b + old) old r l s)
    moves r clear more =
        let (t, run, out) = move-CopyOutcome v heap x o l align_eq a a_lt power r clear in
        (t, run, of_copied count count t (omega arith) (more_than more) out)

    grows_or_moves : old < n → Runs (grow_or_move c x.ptr b n old l s)
    grows_or_moves more =
        let (k', next_at, prev', pool') =
          (heap.tiled).next b o.block o.at (λ e. occupied-ne-sentinel (sym o.used ∙ e)) in
        let t : IsBlockAt c (b + old) k' = (heap.tiled).block (b + old) k' next_at in
        let word = (heap.agrees (b + old) k' next_at).0 in
        elim (decide_vacant k'.kind) [
          | no ne ↦
              let (r, run, out) =
                moves _
                  (alone
                    (λ q. ne (ap (λ (t : Block). t.kind) (some_inj (sym next_at ∙ q.1)) ∙ q.2)))
                  more in
              (
                r,
                next_used c x.ptr b n old (b + old) l s next_eq (is_free-used t s.mem word ne)
                    ∙ run,
                out,
              )
          | yes vac ↦
              let f : flags k'.kind ≡ 0 = ap flags vac in
              let size : s.mem (b + old) ≡ k'.size = omega (arith, word) in
              let test : is_free k'.size ≡ true =
                ap is_free (sym size) ∙ is_free-vacant t s.mem word vac in
              elim (Bool-cases (ltb k'.size (n - old))) [
                | inl less ↦
                    let (r, run, out) = moves _ (with_vacant k' next_at vac) more in
                    (
                      r,
                      next_small c x.ptr b n old (b + old) l s next_eq k'.size (b + old + k'.size)
                            size test less (next_phys_block-eq t s.mem word)
                          ∙ run,
                      out,
                    )
                | inr fits ↦
                    let (s', lists', h', run, heap', is) =
                      grow-IsResized v heap o.at o.used n large whole more next_at vac x.ptr
                        (ground (arith, fits)) in
                    (
                      (some x.ptr, s'),
                      next_large c x.ptr b n old (b + old) l s next_eq k'.size size test fits ∙ run,
                      reallocated x.ptr s' lists' h' heap'
                          (IsReallocated-of_resized x o l align_eq is room (omega arith)),
                    )
              ]
        ]

    sized : Runs (reallocate_sized c x.ptr b old l (some n) s)
    unfolding reallocate_sized
    sized = elim (Bool-cases (leb n old)) [
      | inl le ↦ let (t, run, out) = shrinks (ground (arith, le)) in (t, rw le run, out)
      | inr more ↦
          let (t, run, out) = grows_or_moves (ground (arith, more)) in (t, rw more run, out)
    ]

  not_sized :
      (checked_add (x.ptr - b) l.size >>= checked_round_up) ≡ none
      → Runs (reallocate_sized c x.ptr b old l none s)
  unfolding reallocate_sized
  not_sized e = (
    (none, s),
    refl,
    not_moved (
        omega (
          arith,
          not_rounded (x.ptr - b) l.size e,
          block_at.in_word,
          block_at.aligned,
          block_at.ne_null,
        )),
  )

  in_place : Runs (reallocate_inplace c x.ptr b l s)
  unfolding reallocate_inplace
  in_place = elim (Option-cases (checked_add (x.ptr - b) l.size >>= checked_round_up)) [
    | inl e ↦ let (t, run, out) = not_sized e in (t, rw (size_eq, e) run, out)
    | inr (n, e) ↦
        let (whole, enough, close) = rounded (x.ptr - b) l.size n e in
        let (t, run, out) = sized n whole enough close in (t, rw (size_eq, e) run, out)
  ]

  header_eq : used_block_hdr_for_allocation s.mem x.ptr l.align ≡ b
  header_eq = ap (λ (t : ℕ). used_block_hdr_for_allocation s.mem x.ptr t) (sym align_eq)

  old_eq : size_of_allocation s.mem x.ptr l.align ≡ old - (x.ptr - b)
  unfolding size_of_allocation payload_size
  old_eq =
      ap (λ (t : ℕ). t + (s.mem t - 1) - x.ptr) header_eq
      ∙ omega (arith, size_eq, (o.payload).behind)

  abbrev pub Reallocates : Type 0
  Reallocates =
      (t : Option ℕ × State) × (reallocate c x.ptr l s ≡ some t)
      × ReallocateOutcome c s h b x.ptr count l Unit t

  reallocate-in_place :
      (t : Option ℕ × State)
      → reallocate_inplace c x.ptr b l s ≡ some t
      → ReallocateOutcome c s h b x.ptr count l Q t
      → Reallocates
  reallocate-in_place _ run (reallocated p s' lists' h' heap' is) = (
    (some p, s'),
    reallocate-stays c x.ptr b l s header_eq p s' run,
    reallocated p s' lists' h' heap' is,
  )
  reallocate-in_place _ run (not_moved enough) =
      let (t, run', out) =
        reallocate_by_copy-CopyOutcome v heap x o l align_eq (old - (x.ptr - b)) enough
          (omega (arith, (o.payload).behind, o.room)) a a_lt power in
      (
        t,
        reallocate-copies c x.ptr b l s header_eq (old - (x.ptr - b)) run old_eq ∙ run',
        of_copied count (old - (x.ptr - b)) t (omega arith) tt out,
      )

  -- For valid constants, a heap, an allocation and a layout of the same alignment, a power of two
  -- of the word, `reallocate` returns. Either it returns null and the state stays, or a pointer to
  -- an allocation for the new layout, which has the words of the old one as far as both sizes go,
  -- in a block that no other allocation is in. Each byte of the old block is in that block or in a
  -- vacant one. The other blocks in use stay, with their contents, and the result is a heap.
  pub reallocate-ReallocateOutcome : Reallocates
  reallocate-ReallocateOutcome = let (t, run, out) = in_place in reallocate-in_place t run out
