-- ===== src/Tlsf/Request.antt =====
-- The layout of a requested allocation, and the sizes computed from it.
use rlsf.Base.{ℕ, ◌+◌, ◌-◌, Option, none, some, ◌>>=◌, ltb, not, if◌then◌else◌}
use rlsf.Word.{saturating_sub, checked_add, wrapping_add, align_down, is_power_of_two, usize_max}
use rlsf.Tlsf.Config.{Config, granularity, used_block_hdr_size}
use rlsf.Tlsf.Class.{map_ceil_and_unmap}

-- `core::alloc::Layout`
pub record Layout : Type 0 where
  pub size : ℕ
  pub align : ℕ

-- `Layout::from_size_align`: the size, rounded up to the alignment, must not overflow.
unfoldable pub from_size_align : ℕ → ℕ → Option Layout
from_size_align size align =
    if not (is_power_of_two align)
    then none
    else if ltb (usize_max - (align - 1)) size
    then none
    else some (record { size = size; align = align })

-- `Layout::pad_to_align`
unfoldable pub pad_to_align : Layout → Layout
pad_to_align l = record l { size = align_down l.align (l.size + l.align - 1) }

-- `layout.align().saturating_sub(GRANULARITY / 2) + size_of::<UsedBlockHdr>()`
unfoldable pub max_overhead : Layout → ℕ
max_overhead l = saturating_sub l.align 16 + used_block_hdr_size

-- `x.checked_add(GRANULARITY - 1)? & !(GRANULARITY - 1)`
unfoldable pub checked_round_up : ℕ → Option ℕ
checked_round_up x = do y ← checked_add x (granularity - 1); some (align_down granularity y)

unfoldable pub search_size : Layout → Option ℕ
unfolding max_overhead checked_round_up
search_size l = do n ← checked_add l.size (max_overhead l); checked_round_up n

unfoldable pub pool_size_to_contain_allocation : Config → Layout → Option ℕ
pool_size_to_contain_allocation c l = do
  need ← search_size l
  list_min_size ← map_ceil_and_unmap c need
  checked_add list_min_size granularity

-- The address of the payload in a block: the first multiple of the alignment behind the header.
unfoldable pub payload : ℕ → ℕ → ℕ
payload align block = align_down align (wrapping_add (block + used_block_hdr_size) (align - 1))
