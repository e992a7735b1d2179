-- ===== src/Word/Zeros.antt =====
-- What `trailing_zeros` and `leading_zeros` count.
use rlsf.Base.{
  ℕ, zero, suc, ◌+◌, ◌*◌, ◌/◌, ◌%◌, ◌^◌, ◌≤◌, ◌<◌, ◌≡◌, ◌≢◌, refl, arith, inl, inr, Bool-cases, leb,
  ◌==◌, two-pow-suc, leb→le, leb→gt, ==→≡,
}
use rlsf.Word.{trailing_zeros, leading_zeros}
use rlsf.Word.Bits.{bit}

-- A word that is not zero lies between the powers of two that its leading zeros give.
pub leading_zeros_bounds :
    (w x : ℕ)
    → 0 < x
    → x < 2 ^ w
    → (n : ℕ) × (leading_zeros w x + n + 1 ≡ w) × (2 ^ n ≤ x) × (x < 2 * 2 ^ n)
unfolding leading_zeros
leading_zeros_bounds zero x pos lt = absurd (omega arith)
leading_zeros_bounds (suc w) x pos lt = elim (Bool-cases (leb (2 ^ w) x)) [
  | inl big ↦ rw big (w, omega arith, leb→le _ _ big, omega (arith, two-pow-suc w))
  | inr small ↦
      let (n, e, lo, hi) = leading_zeros_bounds w x pos (leb→gt _ _ small) in
      rw small (n, omega arith, lo, hi)
]

-- The trailing zeros of a word: the bits below the count are clear, the bit at it is set.
pub trailing_zeros_le : (w x : ℕ) → trailing_zeros w x ≤ w
unfolding trailing_zeros
trailing_zeros_le zero x = omega arith
trailing_zeros_le (suc w) x = ground (arith, trailing_zeros_le w (x / 2))

pub trailing_zeros_clear : (w x i : ℕ) → i < trailing_zeros w x → bit i x ≡ 0
unfolding trailing_zeros bit
trailing_zeros_clear zero x i h = absurd (omega arith)
trailing_zeros_clear (suc w) x zero h = ground arith
trailing_zeros_clear (suc w) x (suc i) h = ground (arith, trailing_zeros_clear w (x / 2) i)

pub trailing_zeros_set : (w x : ℕ) → trailing_zeros w x < w → bit (trailing_zeros w x) x ≡ 1
unfolding trailing_zeros bit
trailing_zeros_set zero x h = absurd (omega arith)
trailing_zeros_set (suc w) x h = elim (Bool-cases (x % 2 == 1)) [
  | inl odd ↦ rw odd (==→≡ _ _ odd)
  | inr even ↦ rw even (trailing_zeros_set w (x / 2) (ground arith))
]

-- The trailing zeros of a power of two are its exponent.
pub trailing_zeros-two-pow : (w k : ℕ) → k < w → trailing_zeros w (2 ^ k) ≡ k
unfolding trailing_zeros
trailing_zeros-two-pow zero k h = absurd (omega arith)
trailing_zeros-two-pow (suc w) zero h = refl
trailing_zeros-two-pow (suc w) (suc k) h =
    let e : 2 ^ suc k / 2 ≡ 2 ^ k = omega (arith, two-pow-suc k) in
    rw e (ground (arith, two-pow-suc k, trailing_zeros-two-pow w k))

-- A word that is not zero has a set bit.
pub trailing_zeros-lt : (w x : ℕ) → x < 2 ^ w → x ≢ 0 → trailing_zeros w x < w
unfolding trailing_zeros
trailing_zeros-lt zero x h ne = absurd (omega arith)
trailing_zeros-lt (suc w) x h ne =
    let half : x / 2 < 2 ^ w = omega (arith, two-pow-suc w) in
    ground (arith, trailing_zeros-lt w (x / 2) half)
