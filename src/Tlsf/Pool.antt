-- ===== src/Tlsf/Pool.antt =====
-- Creating and extending memory pools: `insert_free_block_ptr`, `insert_free_block_ptr_aligned`
-- and `append_free_block_ptr`. The outer `none` stands for `unreachable_unchecked`.
pub mod Added
pub mod Chunk
pub mod Insert
pub mod Range
use rlsf.Base.{
  ℕ, zero, suc, ◌+◌, ◌-◌, true, false, min, Option, none, some, ◌>>=◌, bit_or, leb, ◌==◌,
  if◌then◌else◌,
}
use rlsf.Word.{align_down, checked_sub, wrapping_add, wrapping_sub}
use rlsf.Tlsf.Config.{Config, granularity, size_used, size_sentinel, max_pool_size}
use rlsf.Tlsf.State.{State, write, write_hdr, next_phys_block, size_at, prev_phys_at}
use rlsf.Tlsf.Links.{link_free_block, unlink_free_block}
use rlsf.Tlsf.Used.{is_free}

-- `GRANULARITY | SIZE_USED | SIZE_SENTINEL`
unfoldable pub sentinel_size : ℕ
sentinel_size = bit_or (bit_or granularity size_used) size_sentinel

unfoldable pub chunk_size : Config → ℕ → ℕ
chunk_size c size = elim (max_pool_size c) [ none ↦ size | some most ↦ min size most ]

-- One chunk: a free block, and the sentinel behind it.
unfoldable pub insert_chunk : Config → (cursor chunk : ℕ) → State → Option State
unfolding sentinel_size
insert_chunk c cursor chunk s =
    let m1 = write_hdr s.mem cursor (chunk - granularity) 0 in
    let m2 = write_hdr m1 (next_phys_block m1 cursor) sentinel_size cursor in
    link_free_block c cursor (chunk - granularity) (record s { mem = m2 })

-- The loop. Each round takes away at least one byte of `size`, so `size` rounds are enough.
unfoldable pub insert_chunks : ℕ → Config → (cursor size : ℕ) → State → Option (ℕ × State)
insert_chunks zero c cursor size s =
    if leb (granularity + granularity) size then none else some (cursor, s)
insert_chunks (suc fuel) c cursor size s = elim (leb (granularity + granularity) size) [
  | false ↦ some (cursor, s)
  | true ↦ do
    s' ← insert_chunk c cursor (chunk_size c size) s
    insert_chunks fuel c (wrapping_add cursor (chunk_size c size)) (size - chunk_size c size) s'
]

-- `NonZeroUsize::new`
unfoldable pub non_zero : ℕ → Option ℕ
non_zero n = if n == 0 then none else some n

unfoldable pub insert_free_block_ptr_aligned :
    Config → (start size : ℕ) → State → Option (Option ℕ × State)
unfolding non_zero
insert_free_block_ptr_aligned c start size s = do
  (cursor, s') ← insert_chunks size c start size s
  some (non_zero (wrapping_sub cursor start), s')

-- The address of the first multiple of the granularity.
unfoldable pub aligned_start : ℕ → ℕ
aligned_start unaligned_start =
    align_down granularity (wrapping_add unaligned_start (granularity - 1))

-- The bytes of the pool in a range that may not be aligned, or `none` if it is too small.
unfoldable pub usable_len : (unaligned_start len : ℕ) → Option ℕ
unfolding aligned_start
usable_len unaligned_start len = do
  x ← checked_sub len (wrapping_sub (aligned_start unaligned_start) unaligned_start)
  if leb (granularity + granularity) x then some (align_down granularity x) else none

unfoldable pub insert_free_block_ptr :
    Config → (unaligned_start len : ℕ) → State → Option (Option ℕ × State)
unfolding usable_len insert_free_block_ptr_aligned
insert_free_block_ptr c unaligned_start len s = elim (usable_len unaligned_start len) [
  | none ↦ some (none, s)
  | some x ↦ do
    (pool_len, s') ← insert_free_block_ptr_aligned c (aligned_start unaligned_start) x s
    elim pool_len [
      | none ↦ some (none, s')
      | some n ↦ some (some (n + wrapping_sub (aligned_start unaligned_start) unaligned_start), s')
    ]
]

-- The result only keeps the block borrowed.
unfoldable pub insert_free_block : Config → (start len : ℕ) → State → Option State
unfolding insert_free_block_ptr
insert_free_block c start len s = do (pool_len, s') ← insert_free_block_ptr c start len s; some s'

-- Where the extended pool begins: at the free block before the sentinel, if there is one.
pub record Joint : Type 0 where
  pub start : ℕ
  pub last_nonassimilated_block : ℕ

unfoldable pub assimilate : Config → (original_start : ℕ) → State → Option (Joint × State)
assimilate c original_start s =
    let sentinel = wrapping_sub original_start granularity in
    let penultimate = s.mem (prev_phys_at sentinel) in
    let size = s.mem (size_at penultimate) in
    if penultimate == 0
    then none
    else if is_free size
    then (do
      s' ← unlink_free_block c penultimate size s
      some (
        record {
          start = penultimate;
          last_nonassimilated_block = s'.mem (prev_phys_at penultimate);
        },
        s',
      ))
    else some (record { start = sentinel; last_nonassimilated_block = penultimate }, s)

-- `append_free_block_ptr` where `MAX_POOL_SIZE` is `None`.
unfoldable pub coalesce : Config → (original_start len : ℕ) → State → Option (ℕ × State)
unfolding assimilate insert_free_block_ptr_aligned
coalesce c original_start len s = do
  (joint, s1) ← assimilate c original_start s
  (inserted, s2) ←
      insert_free_block_ptr_aligned c joint.start
        (wrapping_sub (wrapping_add original_start len) joint.start) s1
  pool_len ← inserted
  some (
    pool_len - wrapping_sub original_start joint.start,
    record s2 { mem = write s2.mem (prev_phys_at joint.start) joint.last_nonassimilated_block },
  )

unfoldable pub append_free_block_ptr : Config → (start slice_len : ℕ) → State → Option (ℕ × State)
unfolding coalesce
append_free_block_ptr c start slice_len s =
    let len = align_down granularity slice_len in
    elim (max_pool_size c) [
      | some most ↦ do
        (inserted, s') ← insert_free_block_ptr_aligned c start len s
        some (elim inserted [ none ↦ 0 | some n ↦ n ], s')
      | none ↦ if len == 0 then some (0, s) else coalesce c start len s
    ]
