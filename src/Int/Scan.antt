-- ===== src/Int/Scan.antt =====
-- `bit_scan_forward` finds the least set bit at or above a position.
use rlsf.Base.{
  ℕ, ◌+◌, ◌-◌, ◌^◌, ◌≤◌, ◌<◌, true, false, some, bit_and, ◌≡◌, refl, arith, ltb, leb, if◌then◌else◌,
  two-pow-pos, Bool-cases, inl, inr, leb→le, leb→gt, le→leb, gt→leb, lt→ltb, ap, mod_unique,
}
use rlsf.Word.{bit_not, trailing_zeros}
use rlsf.Word.Bits.{bit, bit-lt, bit-bit_and, bit-bit_not, bit-mask}
use rlsf.Word.Zeros.{trailing_zeros_le, trailing_zeros_clear, trailing_zeros_set}
use rlsf.Int.{get_bit, ones, bit_scan_forward}
use rlsf.Int.Laws.{get_bit-bit, two-pow-lt}

-- `r` is the position of the least set bit of `x` that is not below `start`, or `w` if there is
-- none.
pub record IsFirstSet (w x start r : ℕ) : Type 0 where
  pub in_width : r ≤ w
  pub clear_below : (i : ℕ) → start ≤ i → i < r → get_bit w x i ≡ false
  pub set_at : r < w → (start ≤ r) × (get_bit w x r ≡ true)

-- The mask of the bits below `start` is what the source computes with two shifts.
pub ones-low : (w k : ℕ) → k < w → ones w 0 k ≡ some (2 ^ k - 1)
unfolding ones
ones-low w k h =
    rw
      (
        le→leb k w (omega arith),
        le→leb 0 k (omega arith),
        gt→leb w k h,
        lt→ltb k w h,
        lt→ltb 0 w (omega arith),
      )
      (ap some (
        mod_unique (2 ^ k + 2 ^ w - 1) (2 ^ w) 1 (2 ^ k - 1) (omega (arith, two-pow-lt h))
          (omega (arith, two-pow-pos k))))

-- Clearing the bits below `start` leaves the others.
masked_bit :
    (w x start i : ℕ)
    → start < w
    → i < w
    → bit i (bit_and x (bit_not w (2 ^ start - 1))) ≡ (if ltb i start then 0 else bit i x)
masked_bit w x start i h hi = ground (
  arith,
  bit-bit_and i x (bit_not w (2 ^ start - 1)),
  bit-bit_not w i (2 ^ start - 1) hi (omega (arith, two-pow-lt h)),
  bit-mask i start,
  bit-lt i x,
)

past_end : (w x start : ℕ) → w ≤ start → IsFirstSet w x start w
past_end w x start h = record {
  in_width = omega arith;
  clear_below = λ i p q. absurd (omega arith);
  set_at = λ p. absurd (omega arith);
}

scan_masked :
    (w x start : ℕ)
    → start < w
    → IsFirstSet w x start (trailing_zeros w (bit_and x (bit_not w (2 ^ start - 1))))
scan_masked w x start h = record {
  in_width = trailing_zeros_le w m;
  clear_below = λ i p q. ground (
    arith,
    get_bit-bit w x i,
    masked_bit w x start i h,
    trailing_zeros_clear w m i q,
    trailing_zeros_le w m,
  );
  set_at = λ p. ground (
    arith,
    get_bit-bit w x (trailing_zeros w m) p,
    masked_bit w x start (trailing_zeros w m) h p,
    trailing_zeros_set w m p,
  );
}
  where
    m : ℕ
    m = bit_and x (bit_not w (2 ^ start - 1))

-- `bit_scan_forward` does not panic, at any width. It finds the least set bit at or above its
-- start, and returns the width if there is none.
pub bit_scan_forward-IsFirstSet :
    (w x start : ℕ) → (r : ℕ) × (bit_scan_forward w x start ≡ some r) × IsFirstSet w x start r
unfolding bit_scan_forward
bit_scan_forward-IsFirstSet w x start = elim (Bool-cases (leb w start)) [
  | inl past ↦ (w, rw past refl, past_end w x start (leb→le _ _ past))
  | inr within ↦
      let h = leb→gt _ _ within in
      (
        trailing_zeros w (bit_and x (bit_not w (2 ^ start - 1))),
        rw (within, ones-low w start h) refl,
        scan_masked w x start h,
      )
]
