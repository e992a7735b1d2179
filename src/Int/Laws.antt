-- ===== src/Int/Laws.antt =====
-- Setting, clearing and reading single bits of a bitmap.
use rlsf.Base.{
  ℕ, zero, suc, ◌*◌, ◌^◌, ◌<◌, false, bit_and, ◌≡◌, arith, ltb, ◌==◌, if◌then◌else◌, two-pow_mono,
  two-pow-suc, two-pow-pos, Bool-cases, inl, inr, ltb→lt, ap, ◌/◌,
}
use rlsf.Word.Bits.Digits.{bit_and_step}
use rlsf.Word.Align.{bit_and-zero}
use rlsf.Word.{bit_not}
use rlsf.Word.Bits.{
  bit, bit-lt, bit-bit_and, bit-bit_or, bit-bit_not, bit-two-pow, eq-zero_of_bits, bit_and-lt,
  bit_or-lt,
}
use rlsf.Int.{get_bit, set_bit, clear_bit}

pub two-pow-lt : {i w : ℕ} → i < w → 2 ^ i < 2 ^ w
two-pow-lt {i} h = omega (arith, two-pow_mono h, two-pow-suc i, two-pow-pos i)

bit_and-two-pow : (i x : ℕ) → bit_and x (2 ^ i) ≡ bit i x * 2 ^ i
unfolding bit
bit_and-two-pow zero x = omega (arith, bit_and_step x 1, bit_and-zero (x / 2))
bit_and-two-pow (suc i) x =
    let e : 2 ^ suc i / 2 ≡ 2 ^ i = omega (arith, two-pow-suc i) in
    let step = rw e at (bit_and_step x (2 ^ suc i)) in
    omega (
      arith,
      step,
      bit_and-two-pow i (x / 2),
      two-pow-suc i,
      ap (λ (t : ℕ). bit i (x / 2) * t) (two-pow-suc i),
    )

-- `get_bit` reads a binary digit.
pub get_bit-bit : (w x i : ℕ) → i < w → get_bit w x i ≡ (bit i x == 1)
unfolding get_bit
get_bit-bit w x i h = grind (arith, bit_and-two-pow i x, bit-lt i x, two-pow-pos i)

pub set_bit-lt : (w x i : ℕ) → x < 2 ^ w → set_bit w x i < 2 ^ w
unfolding set_bit
set_bit-lt w x i lt = elim (Bool-cases (ltb i w)) [
  | inl p ↦ rw p (bit_or-lt w x (2 ^ i) lt (two-pow-lt (ltb→lt _ _ p)))
  | inr p ↦ rw p lt
]

pub clear_bit-lt : (w x i : ℕ) → x < 2 ^ w → clear_bit w x i < 2 ^ w
unfolding clear_bit
clear_bit-lt w x i lt = elim (Bool-cases (ltb i w)) [
  | inl p ↦ rw p (bit_and-lt w x (bit_not w (2 ^ i)) lt)
  | inr p ↦ rw p lt
]

-- `set_bit` sets the bit that it is given, unless that is past the width, and leaves the others
-- alone, at every index, for a word that fits the width.
pub get_bit-set_bit :
    (w x i j : ℕ)
    → x < 2 ^ w
    → get_bit w (set_bit w x i) j ≡ (if j == i then ltb i w else get_bit w x j)
unfolding set_bit
get_bit-set_bit w x i j lt = elim (Bool-cases (ltb j w)) [
  | inl p ↦
      let j_in = ltb→lt _ _ p in
      rw (get_bit-bit w _ j j_in) (
        ground (arith, get_bit-bit w x j j_in, bit-bit_or j x (2 ^ i), bit-two-pow j i, bit-lt j x))
  | inr p ↦ unfold get_bit in ground arith
]

-- `clear_bit` clears the bit that it is given and leaves the others alone, at every index, for a
-- word that fits the width.
pub get_bit-clear_bit :
    (w x i j : ℕ)
    → x < 2 ^ w
    → get_bit w (clear_bit w x i) j ≡ (if j == i then false else get_bit w x j)
unfolding clear_bit
get_bit-clear_bit w x i j lt = elim (Bool-cases (ltb j w)) [
  | inl p ↦
      let j_in = ltb→lt _ _ p in
      rw (get_bit-bit w _ j j_in) (
        ground (
          arith,
          get_bit-bit w x j j_in,
          bit-bit_and j x (bit_not w (2 ^ i)),
          bit-bit_not w j (2 ^ i) j_in,
          two-pow-lt {i = i} {w = w},
          bit-two-pow j i,
          bit-lt j x,
        ))
  | inr p ↦ unfold get_bit in ground arith
]

-- A bitmap is zero exactly when no bit of it reads as set.
pub eq-zero_iff_get_bit : (w x : ℕ) → x < 2 ^ w → ((i : ℕ) → get_bit w x i ≡ false) → x ≡ 0
eq-zero_iff_get_bit w x lt h =
    eq-zero_of_bits w x lt (λ i p. ground (arith, h i, get_bit-bit w x i p, bit-lt i x))
