-- ===== src/Tlsf/Deallocate/Outcome.antt =====
-- `deallocate` on a heap: a used block becomes a part of a vacant one, and the other used blocks
-- stay.
use rlsf.Base.{
  ℕ, ◌+◌, ◌-◌, ◌≤◌, ◌<◌, ◌≡◌, ◌≢◌, ◌⊎◌, inl, inr, refl, sym, ap, ◌∙◌, subst, some, arith, bit_and,
}
use native.Mathlib.Decide.{dec_lt}
use rlsf.Word.{bit_not}
use rlsf.Word.Align.{bit_and-high}
use rlsf.Tlsf.Config.{Config, IsValid}
use rlsf.Tlsf.State.{State, next_phys_block}
use rlsf.Tlsf.Links.Rep.{Lists}
use rlsf.Tlsf.Used.{used_block_hdr_for_allocation, used_block_hdr_for_allocation_unknown_align}
use rlsf.Tlsf.Heap.{
  Kind, vacant, occupied, sentinel, flags, Block, View, IsBlockAt, IsVacant, IsHeap,
}
use rlsf.Tlsf.Heap.Replace.{HasByte, replace-first, first_tile}
use rlsf.Tlsf.Heap.Vacant.{outside_kept}
use rlsf.Tlsf.Heap.Bytes.{replace-HasByte}
use rlsf.Tlsf.Heap.Contents.{SameOthers}
use rlsf.Tlsf.Heap.Words.{next_phys_block-eq}
use rlsf.Tlsf.Allocate.Payload.{IsPayload}
use rlsf.Tlsf.Allocate.Take.{Stays}
use rlsf.Tlsf.Deallocate.{deallocate_block, deallocate, deallocate_unknown_align}
use rlsf.Tlsf.Deallocate.Region.{block-IsHole}
use rlsf.Tlsf.Deallocate.Merge.{merge_next-IsHole}
use rlsf.Tlsf.Deallocate.MergePrev.{merge_prev-IsHole}
use rlsf.Tlsf.Deallocate.Fill.{filled, size_pos, size_fits, fill_hole-IsHeap}

-- The bytes of the block at `b` are in a vacant block of the new view, in which the other used
-- blocks stay. The blocks have no new bytes.
pub record IsReleased (h h' : View) (b : ℕ) (k : Block) : Type 0 where
  pub at : ℕ
  pub block : Block
  pub now_at : h' at ≡ some block
  pub now_vacant : block.kind ≡ vacant
  pub from : at ≤ b
  pub to : b + k.size ≤ at + block.size
  pub others : (z : ℕ) (kz : Block) → h z ≡ some kz → kz.kind ≢ vacant → z ≢ b → Stays h h' z
  pub bytes : (x : ℕ) → HasByte h' x → HasByte h x

small_flag : (kind : Kind) → flags kind < 4
small_flag vacant = omega arith
small_flag occupied = omega arith
small_flag sentinel = omega arith

module _ {c : Config} (v : IsValid c) {s : State} {lists : Lists} {h : View}
    (heap : IsHeap c s lists h) {b : ℕ} {k : Block} (here : h b ≡ some k)
    (used : k.kind ≡ occupied) where
  block_at : IsBlockAt c b k
  block_at = (heap.tiled).block b k here

  word : s.mem b ≡ k.size + 1
  word = let f : flags k.kind ≡ 1 = ap flags used in omega (arith, (heap.agrees b k here).0)

  -- The size of the block without its flag.
  size_word : bit_and (s.mem b) (bit_not 64 1) ≡ k.size
  size_word =
      bit_and-high 1 64 (s.mem b) (omega arith)
        (omega (arith, word, block_at.in_word, block_at.whole))
      ∙ omega (arith, word, block_at.whole)

  next_word : next_phys_block s.mem b ≡ b + k.size
  next_word = next_phys_block-eq block_at s.mem (heap.agrees b k here).0

  pub deallocate_block-IsHeap :
      (s' : State) × (lists' : Lists) × (h' : View) × (deallocate_block c b s ≡ some s')
      × IsHeap c s' lists' h'
      × IsReleased h h' b k
      × SameOthers h b s.mem s'.mem
  unfolding deallocate_block
  deallocate_block-IsHeap =
      let (hole1, s1, lists1, r1, run1, w1, behind1, same_prev) =
        merge_next-IsHole heap (block-IsHole heap here used) in
      let (hole2, s2, lists2, r2, run2, w2, same_end, before2) = merge_prev-IsHole heap w1 in
      let (s3, lists3, run3, heap3, same3) =
        fill_hole-IsHeap heap w2 v (λ q. behind1 (subst (IsVacant h) same_end q)) before2 in
      (
        s3,
        lists3,
        filled heap w2,
        rw (size_word, next_word, run1, run2) run3,
        heap3,
        record {
          at = r2.b;
          block = first_tile r2 hole2.size vacant;
          now_at =
              replace-first w2.is hole2.size (size_pos heap w2) (size_fits heap w2) vacant vacant;
          now_vacant = refl;
          from = w2.from;
          to = omega (arith, w2.to, w2.size_eq);
          bytes =
              replace-HasByte heap.tiled w2.is hole2.size (size_pos heap w2) (size_fits heap w2)
                vacant vacant;
          others = λ z kz e live ne k' e'.
              outside_kept w2.is hole2.size (size_pos heap w2) (size_fits heap w2) vacant vacant z
                k' e' (w2.live z kz e live ne);
        },
        same3,
      )

  -- For valid constants, a heap, and a pointer that leads to the header of a used block,
  -- `deallocate` returns. The result is a heap: the bytes of the block are in a vacant block, all
  -- other blocks that are not vacant stay where they are with their sizes and kinds, and the words
  -- of the other used blocks behind their headers are as before.
  pub deallocate-IsHeap :
      (p align : ℕ)
      → used_block_hdr_for_allocation s.mem p align ≡ b
      → (s' : State) × (lists' : Lists) × (h' : View) × (deallocate c p align s ≡ some s')
        × IsHeap c s' lists' h'
        × IsReleased h h' b k
        × SameOthers h b s.mem s'.mem
  unfolding deallocate
  deallocate-IsHeap p align found =
      let (s', lists', h', run, heap', is, same) = deallocate_block-IsHeap in
      (s', lists', h', rw found run, heap', is, same)

  -- The block before, if there is one, ends before the payload, also with its flag.
  before_payload :
      (p : ℕ) → b + 16 ≤ p → (s.mem (b + 8) ≡ 0) ⊎ (s.mem (b + 8) + s.mem (s.mem (b + 8)) < p)
  before_payload p behind =
      let prev : s.mem (b + 8) ≡ k.prev = (heap.agrees b k here).1 in
      elim ((heap.tiled).back b k here) [
        | inl null ↦ inl (prev ∙ null)
        | inr (k', at, sum, ne) ↦
            let size = (heap.agrees k.prev k' at).0 in
            inr (rw prev (omega (arith, size, sum, small_flag k'.kind)))
      ]

  -- The header that is found without the alignment.
  without_align :
      (p align : ℕ)
      → IsPayload align b p
      → p ≤ b + k.size
      → used_block_hdr_for_allocation s.mem p align ≡ b
      → used_block_hdr_for_allocation_unknown_align s.mem p ≡ b
  unfolding used_block_hdr_for_allocation used_block_hdr_for_allocation_unknown_align
  without_align p align is inside found = elim (dec_lt align 32) [
    | no large ↦
        let pad : s.mem (p - 8) ≡ b = ground (arith, found) in
        let size = word in rw pad (ground (arith, size, block_at.ne_null))
    | yes low ↦
        let same : p ≡ b + 16 = is.plain low in
        let at : p - 8 ≡ b + 8 = omega (arith, same) in
        rw at (elim (before_payload p is.behind) [
          | inl null ↦ rw null (omega (arith, same))
          | inr ends ↦ ground (arith, ends, same)
        ])
  ]

  -- For a heap, a used block and a payload in it that leads to its header, the header is found
  -- without the alignment too: `deallocate_unknown_align` is `deallocate`.
  pub deallocate_unknown_align-eq :
      (p align : ℕ)
      → IsPayload align b p
      → p ≤ b + k.size
      → used_block_hdr_for_allocation s.mem p align ≡ b
      → deallocate_unknown_align c p s ≡ deallocate c p align s
  unfolding deallocate deallocate_unknown_align
  deallocate_unknown_align-eq p align is inside found =
      ap (λ (t : ℕ). deallocate_block c t s) (without_align p align is inside found ∙ sym found)
