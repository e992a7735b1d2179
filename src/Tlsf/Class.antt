-- ===== src/Tlsf/Class.antt =====
-- Size classes: from the size of a block to the indices of a free list.
pub mod Shift
pub mod Floor
pub mod Ceil
pub mod Unmap
use rlsf.Base.{
  ℕ, ◌+◌, ◌-◌, ◌*◌, ◌/◌, ◌%◌, ◌^◌, ◌≤◌, ◌<◌, Bool, ◌&&◌, Option, none, some, bit_and, ltb, leb,
  if◌then◌else◌,
}
use rlsf.Word.{usize_bits, usize_max, leading_zeros, rotate_right, bit_not}
use rlsf.Tlsf.Config.{Config, granularity, granularity_log2, sli}

-- `usize::BITS - GRANULARITY_LOG2 - 1 - size.leading_zeros()`
unfoldable pub first_level : ℕ → ℕ
first_level size = usize_bits - granularity_log2 - 1 - leading_zeros 64 size

-- `size.rotate_right((fl + GRANULARITY_LOG2).wrapping_sub(Self::SLI))`, in `u32`
unfoldable pub rotated : Config → ℕ → ℕ → ℕ
rotated c size fl = rotate_right size ((fl + granularity_log2 + 2 ^ 32 - sli c) % 2 ^ 32)

unfoldable pub map_floor : Config → ℕ → Option (ℕ × ℕ)
map_floor c size =
    let fl = first_level size in
    let sl = rotated c size fl in
    if leb c.fllen fl then none else some (fl, bit_and sl (c.sllen - 1))

-- `(sl & (SLLEN - 1)) + (sl >= (1 << (Self::SLI + 1))) as usize`
unfoldable pub rounded_up : Config → ℕ → ℕ
rounded_up c sl = bit_and sl (c.sllen - 1) + (if leb (2 ^ (sli c + 1)) sl then 1 else 0)

unfoldable pub map_ceil : Config → ℕ → Option (ℕ × ℕ)
map_ceil c size =
    let sl = rounded_up c (rotated c size (first_level size)) in
    let fl = first_level size + sl / 2 ^ sli c in
    if leb c.fllen fl then none else some (fl, bit_and sl (c.sllen - 1))

-- `Tlsf::MAX_MAP_CEIL_AND_UNMAP_INPUT`
unfoldable pub max_map_ceil_and_unmap_input : Config → ℕ
max_map_ceil_and_unmap_input c =
    let max1 = bit_not 64 (usize_max / 2 ^ (sli c + 1)) in
    if ltb (c.fllen - 1) (usize_bits - granularity_log2 - 1)
    then max1 / 2 ^ ((usize_bits - granularity_log2 - 1) - (c.fllen - 1))
    else max1

unfoldable pub map_ceil_and_unmap : Config → ℕ → Option ℕ
map_ceil_and_unmap c size =
    if ltb (max_map_ceil_and_unmap_input c) size
    then none
    else let fl = first_level size in
      some (
        if ltb granularity_log2 (sli c) && ltb fl (sli c - granularity_log2)
        then size
        else let shift = fl + granularity_log2 - sli c in
          bit_and (size + (2 ^ shift - 1)) (bit_not 64 (2 ^ shift - 1)))
