-- ===== src/Word.antt =====
-- Unsigned machine words: the operations of `core` on `usize` and on the bitmap types that the
-- allocator calls. A word of width `w` is a native number below `2 ^ w`. Addresses and sizes are
-- those of a 64-bit target.
pub mod Align
pub mod Bits
pub mod Zeros
use rlsf.Base.{
  ℕ, zero, suc, ◌+◌, ◌-◌, ◌*◌, ◌/◌, ◌%◌, ◌^◌, Bool, Option, none, some, bit_and, leb, ltb, ◌==◌,
  if◌then◌else◌,
}

abbrev pub usize_bits : ℕ
usize_bits = 64

abbrev pub usize_max : ℕ
usize_max = 2 ^ 64 - 1

abbrev pub wrapping_add : ℕ → ℕ → ℕ
wrapping_add a b = (a + b) % 2 ^ 64

abbrev pub wrapping_sub : ℕ → ℕ → ℕ
wrapping_sub a b = (a + 2 ^ 64 - b) % 2 ^ 64

-- `-` on the native numbers stops at 0.
abbrev pub saturating_sub : ℕ → ℕ → ℕ
saturating_sub a b = a - b

-- `checked_add` at any width.
abbrev pub checked_add_at : ℕ → ℕ → ℕ → Option ℕ
checked_add_at w a b = if ltb (a + b) (2 ^ w) then some (a + b) else none

abbrev pub checked_add : ℕ → ℕ → Option ℕ
checked_add a b = if ltb (a + b) (2 ^ 64) then some (a + b) else none

abbrev pub checked_mul : ℕ → ℕ → Option ℕ
checked_mul a b = if ltb (a * b) (2 ^ 64) then some (a * b) else none

abbrev pub checked_sub : ℕ → ℕ → Option ℕ
checked_sub a b = if leb b a then some (a - b) else none

-- `!x` of a word of width `w`.
abbrev pub bit_not : ℕ → ℕ → ℕ
bit_not w x = 2 ^ w - 1 - x

-- `x & !(a - 1)`: the way the code rounds down to a multiple of a power of two.
unfoldable pub align_down : ℕ → ℕ → ℕ
align_down a x = bit_and x (bit_not 64 (a - 1))

unfoldable pub trailing_zeros : ℕ → ℕ → ℕ
trailing_zeros zero x = 0
trailing_zeros (suc w) x = if x % 2 == 1 then 0 else suc (trailing_zeros w (x / 2))

unfoldable pub leading_zeros : ℕ → ℕ → ℕ
leading_zeros zero x = 0
leading_zeros (suc w) x = if leb (2 ^ w) x then 0 else suc (leading_zeros w x)

-- The amount is taken modulo the width, as `rotate_right` does.
unfoldable pub rotate_right : ℕ → ℕ → ℕ
rotate_right x n = x / 2 ^ (n % 64) + x % 2 ^ (n % 64) * 2 ^ (64 - n % 64) % 2 ^ 64

-- `x.is_power_of_two()` of a `usize`.
unfoldable pub is_power_of_two : ℕ → Bool
unfolding trailing_zeros
is_power_of_two x = 2 ^ trailing_zeros 64 x == x
