-- ===== src/Int.antt =====
-- crates/rlsf/src/int.rs: the trait `BinInteger`, at an unsigned type of `w` bits. `none` is a
-- panic: a failed `assert!`, or a shift by the whole width.
pub mod Laws
pub mod Scan
mod Tests
use rlsf.Base.{
  ℕ, zero, suc, ◌+◌, ◌-◌, ◌*◌, ◌/◌, ◌%◌, ◌^◌, Bool, true, false, not, Option, none, some, bit_and,
  bit_or, ltb, leb, ◌==◌, if◌then◌else◌, ◌>>=◌,
}
use rlsf.Word.{bit_not, checked_add_at, trailing_zeros}

-- `(1 as Self) << i`
abbrev pub shl_one : ℕ → ℕ → Option ℕ
shl_one w i = if ltb i w then some (2 ^ i) else none

-- `a.wrapping_sub(b)`
abbrev pub wrapping_sub_at : ℕ → ℕ → ℕ → ℕ
wrapping_sub_at w a b = (a + 2 ^ w - b) % 2 ^ w

unfoldable pub ones_truncated : ℕ → ℕ → ℕ → Option ℕ
ones_truncated w start end =
    if not (leb start end)
    then none
    else if leb w end
    then (do low ← shl_one w start; some (wrapping_sub_at w 0 low))
    else do high ← shl_one w end; low ← shl_one w start; some (wrapping_sub_at w high low)

unfoldable pub ones : ℕ → ℕ → ℕ → Option ℕ
unfolding ones_truncated
ones w start end = if leb end w then ones_truncated w start end else none

unfoldable pub bit_scan_forward : ℕ → ℕ → ℕ → Option ℕ
bit_scan_forward w x start =
    if leb w start
    then some w
    else do mask ← ones w 0 start; some (trailing_zeros w (bit_and x (bit_not w mask)))

unfoldable pub extract_u32 : ℕ → ℕ → ℕ → ℕ → Option ℕ
extract_u32 w x start end = do
  mask ← ones_truncated w start end
  some (bit_and x mask / 2 ^ start % 2 ^ 32)

unfoldable pub get_bit : ℕ → ℕ → ℕ → Bool
get_bit w x i = if ltb i w then not (bit_and x (2 ^ i) == 0) else false

unfoldable pub set_bit : ℕ → ℕ → ℕ → ℕ
set_bit w x i = if ltb i w then bit_or x (2 ^ i) else x

unfoldable pub clear_bit : ℕ → ℕ → ℕ → ℕ
clear_bit w x i = if ltb i w then bit_and x (bit_not w (2 ^ i)) else x

unfoldable pub checked_ceil_fix : ℕ → ℕ → ℕ → Option ℕ
checked_ceil_fix w x fp =
    if leb w fp
    then if x == 0 then some 0 else none
    else do mask ← ones w 0 fp; sum ← checked_add_at w x mask; some (bit_and sum (bit_not w mask))

unfoldable pub count_ones : ℕ → ℕ → ℕ
count_ones zero x = 0
count_ones (suc w) x = x % 2 + count_ones w (x / 2)
