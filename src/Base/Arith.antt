-- ===== src/Base/Arith.antt =====
-- Powers of two, and quotients by them.
use Prim.Native.Nat.{ℕ, zero, suc, ◌+◌, ◌-◌, ◌*◌, ◌/◌, ◌%◌, ◌^◌, ◌≤◌, ◌<◌}
use mathlib.Core.Path.{◌≡◌, ap, ◌∙◌}
use native.Mathlib.Omega.{arith}
use native.Mathlib.Nat.{
  pow-suc, one-le-pow, div-add-mod, div-eq_of_lt-le, pow-le-pow_right, add-zero, add-suc,
}
use native.Mathlib.Numerals.{add-one}
use native.Mathlib.Decide.{dec_lt}

pub two-pow-suc : (n : ℕ) → 2 ^ suc n ≡ 2 * 2 ^ n
two-pow-suc n = omega (arith, pow-suc 2 n)

pub two-pow-add-one : (n : ℕ) → 2 ^ (n + 1) ≡ 2 * 2 ^ n
two-pow-add-one n = rw add-one (two-pow-suc n)

pub two-pow-pos : (n : ℕ) → 0 < 2 ^ n
two-pow-pos n = omega (arith, one-le-pow n 2)

pub two-pow-add : (a b : ℕ) → 2 ^ (a + b) ≡ 2 ^ a * 2 ^ b
two-pow-add a zero = rw add-zero (omega arith)
two-pow-add a (suc b) =
    rw (add-suc, two-pow-suc (a + b), two-pow-suc b, two-pow-add a b) (omega arith)

pub two-pow-sub : (a b : ℕ) → b ≤ a → 2 ^ a ≡ 2 ^ b * 2 ^ (a - b)
two-pow-sub a b h = ap (λ (t : ℕ). 2 ^ t) (omega arith) ∙ two-pow-add b (a - b)

pub two-pow_mono : {a b : ℕ} → a ≤ b → 2 ^ a ≤ 2 ^ b
two-pow_mono h = pow-le-pow_right (omega arith) h

-- The exponent of a power that does not exceed another.
pub le_of_two-pow-lt : (a b : ℕ) → 2 ^ a < 2 ^ b → a < b
le_of_two-pow-lt a b h = elim (dec_lt a b) [
  | yes p ↦ p
  | no p ↦ absurd (omega (arith, two-pow_mono {a = b} {b = a} (omega arith)))
]

-- Quotient and remainder are determined by the division equation.
pub div_unique : (n d q r : ℕ) → r < d → n ≡ d * q + r → n / d ≡ q
div_unique n d q r h e = div-eq_of_lt-le d (omega arith) (omega arith)

pub mod_unique : (n d q r : ℕ) → r < d → n ≡ d * q + r → n % d ≡ r
mod_unique n d q r h e =
    omega (arith, div-add-mod n d, ap (λ (t : ℕ). d * t) (div_unique n d q r h e))

pub mul_lt_mul : (x y d : ℕ) → x < y → 0 < d → x * d < y * d
mul_lt_mul x y d h pos = grind arith

pub mul_le_mul : (x y d : ℕ) → x ≤ y → x * d ≤ y * d
mul_le_mul x y d h = grind arith

pub le_of_mul-le : (x y d : ℕ) → 0 < d → x * d ≤ y * d → x ≤ y
le_of_mul-le x y d pos h = elim (dec_lt y x) [
  | yes p ↦ absurd (omega (arith, mul_lt_mul y x d p pos))
  | no p ↦ omega arith
]

pub lt_of_mul-lt : (x y d : ℕ) → x * d < y * d → x < y
lt_of_mul-lt x y d h = elim (dec_lt x y) [
  | yes p ↦ p
  | no p ↦ absurd (omega (arith, mul_le_mul y x d (omega arith)))
]

-- Two ranges between a power of two and its double that share a number are one.
pub two-pow_unique : (a b x : ℕ) → 2 ^ a ≤ x → x < 2 * 2 ^ a → 2 ^ b ≤ x → x < 2 * 2 ^ b → a ≡ b
two-pow_unique a b x h k h' k' = omega (
  arith,
  le_of_two-pow-lt a (suc b) (omega (arith, two-pow-suc b)),
  le_of_two-pow-lt b (suc a) (omega (arith, two-pow-suc a)),
)
