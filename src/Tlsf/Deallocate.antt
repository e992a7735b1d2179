-- ===== src/Tlsf/Deallocate.antt =====
-- `Tlsf::deallocate`: the block is merged with its free neighbours and linked to a free list.
-- `none` stands for `unreachable_unchecked`.
pub mod Region
pub mod Merge
pub mod MergePrev
pub mod Fill
pub mod Outcome
pub mod RoundTrip
use rlsf.Base.{ℕ, ◌+◌, Option, some, ◌>>=◌, bit_and, ◌==◌, if◌then◌else◌}
use rlsf.Word.{bit_not}
use rlsf.Tlsf.Config.{Config, size_used}
use rlsf.Tlsf.State.{State, write, next_phys_block, size_at, prev_phys_at}
use rlsf.Tlsf.Links.{link_free_block, unlink_free_block}
use rlsf.Tlsf.Used.{
  is_free, used_block_hdr_for_allocation, used_block_hdr_for_allocation_unknown_align,
}

-- A hole in the making: its block, its size so far, and the block behind it.
pub record Hole : Type 0 where
  pub block : ℕ
  pub size : ℕ
  pub next : ℕ

-- The hole takes in the next block if that is free.
unfoldable pub merge_next : Config → Hole → State → Option (Hole × State)
merge_next c h s =
    let next_size = s.mem (size_at h.next) in
    if is_free next_size
    then (do
      s' ← unlink_free_block c h.next next_size s
      some (record h { size = h.size + next_size; next = next_phys_block s.mem h.next }, s'))
    else some (h, s)

-- The hole takes in the previous block if there is one and it is free.
unfoldable pub merge_prev : Config → Hole → State → Option (Hole × State)
merge_prev c h s =
    let prev = s.mem (prev_phys_at h.block) in
    let prev_size = s.mem (size_at prev) in
    if prev == 0
    then some (h, s)
    else if is_free prev_size
    then (do
      s' ← unlink_free_block c prev prev_size s
      some (record h { size = h.size + prev_size; block = prev }, s'))
    else some (h, s)

-- The hole becomes a free block.
unfoldable pub fill_hole : Config → Hole → State → Option State
fill_hole c h s = do
  s' ← link_free_block c h.block h.size (record s { mem = write s.mem (size_at h.block) h.size })
  some (record s' { mem = write s'.mem (prev_phys_at h.next) h.block })

unfoldable pub deallocate_block : Config → ℕ → State → Option State
unfolding merge_next merge_prev fill_hole
deallocate_block c block s =
    let h : Hole = record {
      block = block;
      size = bit_and (s.mem (size_at block)) (bit_not 64 size_used);
      next = next_phys_block s.mem block;
    } in
    do (h1, s1) ← merge_next c h s; (h2, s2) ← merge_prev c h1 s1; fill_hole c h2 s2

unfoldable pub deallocate : Config → ℕ → ℕ → State → Option State
unfolding deallocate_block used_block_hdr_for_allocation
deallocate c ptr align s = deallocate_block c (used_block_hdr_for_allocation s.mem ptr align) s

unfoldable pub deallocate_unknown_align : Config → ℕ → State → Option State
unfolding deallocate_block used_block_hdr_for_allocation_unknown_align
deallocate_unknown_align c ptr s =
    deallocate_block c (used_block_hdr_for_allocation_unknown_align s.mem ptr) s
