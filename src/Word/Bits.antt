-- ===== src/Word/Bits.antt =====
-- Single bits of words, and what `&`, `|` and `!` do to them.
pub mod Digits
use Digits.{bit_and_step, bit_or_step}
use Prim.Native.Nat.{bit_and-bitwise}
use rlsf.Base.{
  ℕ, zero, suc, ◌+◌, ◌-◌, ◌*◌, ◌/◌, ◌%◌, ◌^◌, ◌≤◌, ◌<◌, min, max, bit_and, bit_or, ◌≡◌, refl, arith,
  two-pow-suc, two-pow-pos, ltb, ◌==◌, if◌then◌else◌, ◌≢◌,
}
use rlsf.Word.{bit_not}

-- Bit `i` of `x`.
unfoldable pub bit : ℕ → ℕ → ℕ
bit zero x = x % 2
bit (suc i) x = bit i (x / 2)

pub bit-lt : (i x : ℕ) → bit i x < 2
unfolding bit
bit-lt zero x = omega arith
bit-lt (suc i) x = bit-lt i (x / 2)

-- Bit by bit, `&` is the minimum and `|` the maximum.
pub bit-bit_and : (i a b : ℕ) → bit i (bit_and a b) ≡ min (bit i a) (bit i b)
unfolding bit
bit-bit_and zero a b = omega (arith, bit_and_step a b)
bit-bit_and (suc i) a b =
    let e : bit_and a b / 2 ≡ bit_and (a / 2) (b / 2) = omega (arith, bit_and_step a b) in
    rw e (bit-bit_and i (a / 2) (b / 2))

pub bit-bit_or : (i a b : ℕ) → bit i (bit_or a b) ≡ max (bit i a) (bit i b)
unfolding bit
bit-bit_or zero a b = omega (arith, bit_or_step a b)
bit-bit_or (suc i) a b =
    let e : bit_or a b / 2 ≡ bit_or (a / 2) (b / 2) = omega (arith, bit_or_step a b) in
    rw e (bit-bit_or i (a / 2) (b / 2))

-- `!` flips the bits of a word.
pub bit-bit_not : (w i x : ℕ) → i < w → x < 2 ^ w → bit i (bit_not w x) ≡ 1 - bit i x
unfolding bit
bit-bit_not zero i x h lt = absurd (omega arith)
bit-bit_not (suc w) zero x h lt = omega (arith, two-pow-suc w)
bit-bit_not (suc w) (suc i) x h lt =
    let e : bit_not (suc w) x / 2 ≡ bit_not w (x / 2) = omega (arith, two-pow-suc w) in
    rw e (bit-bit_not w i (x / 2) (omega arith) (omega (arith, two-pow-suc w)))

bit-zero : (i : ℕ) → bit i 0 ≡ 0
unfolding bit
bit-zero zero = refl
bit-zero (suc i) = bit-zero i

-- `1 << k` has one bit.
pub bit-two-pow : (i k : ℕ) → bit i (2 ^ k) ≡ (if i == k then 1 else 0)
unfolding bit
bit-two-pow zero zero = refl
bit-two-pow zero (suc k) = ground (arith, two-pow-suc k)
bit-two-pow (suc i) zero = ground (arith, bit-zero i)
bit-two-pow (suc i) (suc k) =
    let e : 2 ^ suc k / 2 ≡ 2 ^ k = omega (arith, two-pow-suc k) in
    rw e (ground (arith, bit-two-pow i k))

-- Low masks `(1 << k) - 1`.
pub bit-mask : (i k : ℕ) → bit i (2 ^ k - 1) ≡ (if ltb i k then 1 else 0)
unfolding bit
bit-mask zero zero = refl
bit-mask zero (suc k) = ground (arith, two-pow-suc k, two-pow-pos k)
bit-mask (suc i) zero = ground (arith, bit-zero i)
bit-mask (suc i) (suc k) =
    let e : (2 ^ suc k - 1) / 2 ≡ 2 ^ k - 1 = omega (arith, two-pow-suc k, two-pow-pos k) in
    rw e (ground (arith, bit-mask i k))

-- A word with no bit set is zero.
pub eq-zero_of_bits : (w x : ℕ) → x < 2 ^ w → ((i : ℕ) → i < w → bit i x ≡ 0) → x ≡ 0
unfolding bit
eq-zero_of_bits zero x lt h = omega arith
eq-zero_of_bits (suc w) x lt h =
    let high =
      eq-zero_of_bits w (x / 2) (omega (arith, two-pow-suc w)) (λ i p. h (suc i) (omega arith)) in
    omega (arith, h 0 (omega arith), high)

-- `&` and `|` stay within the width.
pub bit_and-lt : (w a b : ℕ) → a < 2 ^ w → bit_and a b < 2 ^ w
bit_and-lt zero a b h = let e : a ≡ 0 = omega arith in rw (e, bit_and-bitwise 0 b) (omega arith)
bit_and-lt (suc w) a b h = omega (
  arith,
  bit_and_step a b,
  two-pow-suc w,
  bit_and-lt w (a / 2) (b / 2) (omega (arith, two-pow-suc w)),
)

pub bit_or-lt : (w a b : ℕ) → a < 2 ^ w → b < 2 ^ w → bit_or a b < 2 ^ w
bit_or-lt zero a b h k = let (e, e') : (a ≡ 0) × (b ≡ 0) = omega arith in rw (e, e') (omega arith)
bit_or-lt (suc w) a b h k = omega (
  arith,
  bit_or_step a b,
  two-pow-suc w,
  bit_or-lt w (a / 2) (b / 2) (omega (arith, two-pow-suc w)) (omega (arith, two-pow-suc w)),
)
