-- ===== src/Word/Align.antt =====
-- Masks of low or of high bits, as remainders and as rounding.
use native.Mathlib.Nat.{div-div-eq-div-mul, mod-eq_of_lt, div-add-mod, mod-lt, mod-one}
use rlsf.Base.{
  bit_or, ℕ, zero, suc, ◌+◌, ◌-◌, ◌*◌, ◌/◌, ◌%◌, ◌^◌, ◌≤◌, ◌<◌, bit_and, ◌≡◌, refl, sym, ap, arith,
  two-pow-suc, two-pow-pos, mod_unique,
}
use rlsf.Word.{align_down}
use rlsf.Word.Bits.Digits.{bit_and_step, bit_or_step}

bit_and-zero_below : (n a : ℕ) → a ≤ n → bit_and a 0 ≡ 0
bit_and-zero_below n zero h = refl
bit_and-zero_below zero (suc a) h = absurd (omega arith)
bit_and-zero_below (suc n) (suc a) h =
    omega (arith, bit_and_step (suc a) 0, bit_and-zero_below n (suc a / 2) (omega arith))

pub bit_and-zero : (a : ℕ) → bit_and a 0 ≡ 0
bit_and-zero a = bit_and-zero_below a a (omega arith)

div-two-pow-suc : (x k : ℕ) → x / 2 ^ suc k ≡ x / 2 / 2 ^ k
div-two-pow-suc x k = rw (two-pow-suc, ← div-div-eq-div-mul x 2 (2 ^ k)) refl

-- `x & ((1 << k) - 1)`
pub bit_and-mask : (k x : ℕ) → bit_and x (2 ^ k - 1) ≡ x % 2 ^ k
bit_and-mask zero x = omega (arith, bit_and-zero x, mod-one x)
bit_and-mask (suc k) x =
    let e : (2 ^ suc k - 1) / 2 ≡ 2 ^ k - 1 = omega (arith, two-pow-suc k, two-pow-pos k) in
    let step = rw e at (bit_and_step x (2 ^ suc k - 1)) in
    let digits : 2 ^ suc k * (x / 2 / 2 ^ k) + (x / 2 % 2 ^ k * 2 + x % 2) ≡ x =
      omega
        (arith, div-add-mod (x / 2) (2 ^ k), ap (λ (t : ℕ). t * (x / 2 / 2 ^ k)) (two-pow-suc k)) in
    omega (
      arith,
      step,
      two-pow-suc k,
      two-pow-pos k,
      bit_and-mask k (x / 2),
      mod_unique x (2 ^ suc k) (x / 2 / 2 ^ k) (x / 2 % 2 ^ k * 2 + x % 2)
          (omega (arith, mod-lt (x / 2) (two-pow-pos k), two-pow-suc k)) (sym digits),
    )

-- `x & !((1 << k) - 1)` in a word of width `w`.
pub bit_and-high : (k w x : ℕ) → k ≤ w → x < 2 ^ w → bit_and x (2 ^ w - 2 ^ k) ≡ x / 2 ^ k * 2 ^ k
bit_and-high zero w x h lt = omega (arith, bit_and-mask w x, mod-eq_of_lt lt)
bit_and-high (suc k) zero x h lt = absurd (omega arith)
bit_and-high (suc k) (suc w) x h lt =
    let e : (2 ^ suc w - 2 ^ suc k) / 2 ≡ 2 ^ w - 2 ^ k =
      omega (arith, two-pow-suc k, two-pow-suc w) in
    let step = rw e at (bit_and_step x (2 ^ suc w - 2 ^ suc k)) in
    omega (
      arith,
      step,
      two-pow-suc k,
      two-pow-suc w,
      bit_and-high k w (x / 2) (omega arith) (omega (arith, two-pow-suc w)),
      div-two-pow-suc x k,
      ap (λ (t : ℕ). t * 2 ^ suc k) (div-two-pow-suc x k),
      ap (λ (t : ℕ). x / 2 / 2 ^ k * t) (two-pow-suc k),
    )

pub align_down_lem : (k x : ℕ) → k ≤ 64 → x < 2 ^ 64 → align_down (2 ^ k) x ≡ x / 2 ^ k * 2 ^ k
unfolding align_down
align_down_lem k x h lt =
    let e : 2 ^ 64 - 1 - (2 ^ k - 1) ≡ 2 ^ 64 - 2 ^ k = omega (arith, two-pow-pos k) in
    rw e (bit_and-high k 64 x h lt)

bit_or-zero_below : (n a : ℕ) → a ≤ n → bit_or a 0 ≡ a
bit_or-zero_below n zero h = refl
bit_or-zero_below zero (suc a) h = absurd (omega arith)
bit_or-zero_below (suc n) (suc a) h =
    omega (arith, bit_or_step (suc a) 0, bit_or-zero_below n (suc a / 2) (omega arith))

-- The flag of a used block on a size that is even.
pub bit_or-one : (n : ℕ) → n % 2 ≡ 0 → bit_or n 1 ≡ n + 1
bit_or-one n h = omega (arith, bit_or_step n 1, bit_or-zero_below (n / 2) (n / 2) (omega arith))
