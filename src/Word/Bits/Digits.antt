-- ===== src/Word/Bits/Digits.antt =====
-- `&` and `|` by their lowest binary digit. The native operations recur on a count of digits, for
-- which any count that is large enough serves.
use Prim.Native.Nat.{digits, bitwise, bit_and-bitwise, bit_or-bitwise}
use native.Mathlib.Decide.{dec_lt}
use rlsf.Base.{
  ℕ, zero, suc, ◌+◌, ◌*◌, ◌/◌, ◌%◌, ◌≤◌, min, max, bit_and, bit_or, ◌≡◌, refl, ◌∙◌, arith,
}

module _ (tail : ℕ → ℕ) (op : ℕ → ℕ → ℕ) where
  -- One digit more than enough changes nothing.
  digits_more : (n a b : ℕ) → a ≤ n → digits tail op (suc n) a b ≡ digits tail op n a b
  digits_more n zero b h = digits_nil n
    where
      digits_nil : (k : ℕ) → digits tail op (suc k) 0 b ≡ digits tail op k 0 b
      digits_nil zero = refl
      digits_nil (suc k) = refl
  digits_more zero (suc a) b h = absurd (omega arith)
  digits_more (suc n) (suc a) b h = rw (digits_more n (suc a / 2) (b / 2) (omega arith))

  digits_enough : (n a b : ℕ) → a ≤ n → digits tail op n a b ≡ bitwise tail op a b
  digits_enough zero zero b h = refl
  digits_enough zero (suc a) b h = absurd (omega arith)
  digits_enough (suc n) a b h = elim (dec_lt n a) [
    | yes last ↦ let e : suc n ≡ a = omega arith in rw e
    | no room ↦ digits_more n a b (omega arith) ∙ digits_enough n a b (omega arith)
  ]

  lowest_digit :
      (x y : ℕ)
      → bitwise tail op (suc x) y ≡ op (suc x % 2) (y % 2) + 2 * bitwise tail op (suc x / 2) (y / 2)
  lowest_digit x y = omega (arith, digits_enough x (suc x / 2) (y / 2) (omega arith))

-- One digit of `x & y`.
pub bit_and_step : (x y : ℕ) → bit_and x y ≡ min (x % 2) (y % 2) + 2 * bit_and (x / 2) (y / 2)
bit_and_step zero y = simp bit_and-bitwise (omega arith)
bit_and_step (suc x) y = simp bit_and-bitwise (lowest_digit (λ rest. 0) min x y)

-- One digit of `x | y`.
pub bit_or_step : (x y : ℕ) → bit_or x y ≡ max (x % 2) (y % 2) + 2 * bit_or (x / 2) (y / 2)
bit_or_step zero y = simp bit_or-bitwise (omega arith)
bit_or_step (suc x) y = simp bit_or-bitwise (lowest_digit (λ rest. rest) max x y)
