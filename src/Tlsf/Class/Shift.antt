-- ===== src/Tlsf/Class/Shift.antt =====
-- The rotation in `map_floor` and `map_ceil` brings the leading bits of a size to the bottom of
-- the word, and leaves any bits that it drops at the top.
use native.Mathlib.Nat.{
  div-eq_of_lt, le_refl, mod-eq_of_lt, mod-lt, div-add-mod', le-div_iff_mul-le, div-lt_iff_lt-mul,
}
use native.Mathlib.Decide.{dec_lt}
use rlsf.Base.{
  ℕ, suc, ◌+◌, ◌-◌, ◌*◌, ◌/◌, ◌%◌, ◌^◌, ◌≤◌, ◌<◌, ◌≡◌, not, arith, leb, ◌==◌, ap, ◌∙◌,
  two-pow-add-one, two-pow_mono, two-pow-sub, mul_lt_mul, two-pow-suc, two-pow-pos, mod_unique,
  le_of_two-pow-lt, le→leb, gt→leb, ≢→==, ≡→==, ◌≢◌,
}
use rlsf.Word.{rotate_right, leading_zeros}
use rlsf.Word.Zeros.{leading_zeros_bounds}
use rlsf.Tlsf.Config.{Config, sli}
use rlsf.Tlsf.Class.{first_level, rotated}

-- The leading bit of a size that is at least the granularity.
pub record IsLeading (size top : ℕ) : Type 0 where
  pub at_least : 2 ^ top ≤ size
  pub below : size < 2 * 2 ^ top
  pub low : 5 ≤ top
  pub high : top < 64

pub first_level_lem : (size : ℕ) → 32 ≤ size → size < 2 ^ 64 → IsLeading size (first_level size + 5)
unfolding first_level
first_level_lem size h lt =
    let (n, e, lo, hi) = leading_zeros_bounds 64 size (omega arith) lt in
    let five : 5 ≤ n = le_of_two-pow-lt 4 n (omega arith) in
    let top : 58 - leading_zeros 64 size + 5 ≡ n = omega arith in
    rw top (record { at_least = lo; below = hi; low = five; high = omega arith })

-- What the rotated word tells: `m` is the number of the size range within the first level, and the
-- word has more than `SLI + 1` digits exactly when the size is not the least of its range.
pub record IsRotated (s size top word m : ℕ) : Type 0 where
  pub index : m < 2 ^ s
  pub masked : word % 2 ^ s ≡ m
  pub from_min : (2 ^ s + m) * 2 ^ top ≤ size * 2 ^ s
  pub below_next : size * 2 ^ s < (2 ^ s + m + 1) * 2 ^ top
  pub dropped : leb (2 ^ (s + 1)) word ≡ not ((2 ^ s + m) * 2 ^ top == size * 2 ^ s)

module _ (a b c q r : ℕ) (q_lo : a ≤ q) (q_hi : q < 2 * a) (r_lt : r < b) (c_pos : 0 < c) where
  shifted_masked : (q + r * (2 * a * c)) % a ≡ q - a
  shifted_masked =
      mod_unique (q + r * (2 * a * c)) a (1 + r * (2 * c)) (q - a) (omega arith) (grind arith)

  shifted_bounds : (q * (a * b) ≤ (q * b + r) * a) × ((q * b + r) * a < (q + 1) * (a * b))
  shifted_bounds = (grind arith, grind arith)

  shifted_dropped : leb (2 * a) (q + r * (2 * a * c)) ≡ not (q * (a * b) == (q * b + r) * a)
  shifted_dropped = elim (dec_lt 0 r) [
    | yes p ↦
        let big : 2 * a ≤ q + r * (2 * a * c) = grind arith in
        let ne : q * (a * b) ≢ (q * b + r) * a = grind arith in rw (le→leb _ _ big, ≢→== _ _ ne)
    | no p ↦
        let e : r ≡ 0 = omega arith in
        let small : q + r * (2 * a * c) < 2 * a = rw e (omega arith) in
        let same : q * (a * b) ≡ (q * b + r) * a = rw e (omega arith) in
        rw (gt→leb _ _ small, ≡→== _ _ same)
  ]

rotate_right_lem : (x n : ℕ) → n < 64 → rotate_right x n ≡ x / 2 ^ n + x % 2 ^ n * 2 ^ (64 - n)
unfolding rotate_right
rotate_right_lem x n h = rw (mod-eq_of_lt h) (
    ap (λ (t : ℕ). x / 2 ^ n + t)
      (mod-eq_of_lt (grind (arith, mod-lt x (two-pow-pos n), two-pow-sub 64 n (omega arith)))))

-- The amount of the rotation, when the leading bit is above `SLI` and when it is not.
amount_high : (top s : ℕ) → s ≤ top → top < 64 → (top + 2 ^ 32 - s) % 2 ^ 32 ≡ top - s
amount_high top s h k = omega arith

amount_low : (top s : ℕ) → top < s → s ≤ 7 → (top + 2 ^ 32 - s) % 2 ^ 32 % 64 ≡ 64 - (s - top)
amount_low top s h k = omega arith

module _ (s size top : ℕ) (lead : IsLeading size top) (narrow : s ≤ 7) where
  module _ (h : s ≤ top) where
    digits : size / 2 ^ (top - s) * 2 ^ (top - s) + size % 2 ^ (top - s) ≡ size
    digits = div-add-mod' size (2 ^ (top - s))

    split : 2 ^ top ≡ 2 ^ s * 2 ^ (top - s)
    split = two-pow-sub top s h

    room : 2 ^ (64 - (top - s)) ≡ 2 * 2 ^ s * 2 ^ (64 - (top - s) - suc s)
    room =
        two-pow-sub (64 - (top - s)) (suc s) (omega (arith, lead.high))
        ∙ ap (λ (t : ℕ). t * 2 ^ (64 - (top - s) - suc s)) (two-pow-suc s)

    lo : 2 ^ s ≤ size / 2 ^ (top - s)
    lo = (le-div_iff_mul-le (two-pow-pos (top - s))).1 (omega (arith, split, lead.at_least))

    hi : size / 2 ^ (top - s) < 2 * 2 ^ s
    hi = (div-lt_iff_lt-mul (two-pow-pos (top - s))).1 (omega (arith, split, lead.below))

    high-IsRotated :
        IsRotated s size top
          (size / 2 ^ (top - s) + size % 2 ^ (top - s) * 2 ^ (64 - (top - s)))
          (size / 2 ^ (top - s) - 2 ^ s)
    high-IsRotated =
        let r_lt = mod-lt size (two-pow-pos (top - s)) in
        let c_pos = two-pow-pos (64 - (top - s) - suc s) in
        let (least, next) =
          shifted_bounds (2 ^ s) (2 ^ (top - s)) (2 ^ (64 - (top - s) - suc s))
            (size / 2 ^ (top - s)) (size % 2 ^ (top - s)) lo hi r_lt c_pos in
        let back : 2 ^ s + (size / 2 ^ (top - s) - 2 ^ s) ≡ size / 2 ^ (top - s) =
          omega (arith, lo) in
        record {
          index = omega (arith, lo, hi);
          masked = rw room (
              shifted_masked (2 ^ s) (2 ^ (top - s)) _ (size / 2 ^ (top - s)) (size % 2 ^ (top - s))
                lo hi r_lt c_pos);
          from_min = rw back (rw (digits, ← split) at least);
          below_next = rw back (rw (digits, ← split) at next);
          dropped =
              rw (back, room, two-pow-add-one s)
                (rw (digits, ← split) at
                  (shifted_dropped (2 ^ s) (2 ^ (top - s)) _ (size / 2 ^ (top - s))
                    (size % 2 ^ (top - s)) lo hi r_lt c_pos));
        }

  low-IsRotated :
      top < s → IsRotated s size top (size * 2 ^ (s - top)) (size * 2 ^ (s - top) - 2 ^ s)
  low-IsRotated h =
      let split : 2 ^ s ≡ 2 ^ top * 2 ^ (s - top) = two-pow-sub s top (omega arith) in
      let lo : 2 ^ s ≤ size * 2 ^ (s - top) = grind (arith, lead.at_least) in
      let hi : size * 2 ^ (s - top) < 2 * 2 ^ s = omega (
        arith,
        split,
        mul_lt_mul size (2 * 2 ^ top) (2 ^ (s - top)) lead.below (two-pow-pos (s - top)),
      ) in
      let back : 2 ^ s + (size * 2 ^ (s - top) - 2 ^ s) ≡ size * 2 ^ (s - top) =
        omega (arith, lo) in
      let same : size * 2 ^ (s - top) * 2 ^ top ≡ size * 2 ^ s = rw split (omega arith) in
      record {
        index = omega (arith, lo, hi);
        masked = mod_unique _ _ 1 _ (omega (arith, lo, hi)) (omega (arith, lo));
        from_min = rw (back, same) (le_refl _);
        below_next = rw back (omega (arith, same, two-pow-pos top));
        dropped = rw (back, ≡→== _ _ same, two-pow-add-one s) (gt→leb _ _ hi);
      }

module _ (size top s : ℕ) (lead : IsLeading size top) (narrow : s ≤ 7) where
  rotated_high :
      s ≤ top
      → rotate_right size ((top + 2 ^ 32 - s) % 2 ^ 32)
        ≡ size / 2 ^ (top - s) + size % 2 ^ (top - s) * 2 ^ (64 - (top - s))
  rotated_high h =
      rw (amount_high top s h lead.high)
        (rotate_right_lem size (top - s) (omega (arith, lead.high)))

  rotated_low : top < s → rotate_right size ((top + 2 ^ 32 - s) % 2 ^ 32) ≡ size * 2 ^ (s - top)
  unfolding rotate_right
  rotated_low h =
      let wide : 2 * 2 ^ top ≤ 2 ^ (64 - (s - top)) =
        omega
          (arith, two-pow-suc top, two-pow_mono {a = suc top} {b = 64 - (s - top)} (omega arith)) in
      let fits : size < 2 ^ (64 - (s - top)) = omega (arith, wide, lead.below) in
      let small : size * 2 ^ (s - top) < 2 ^ 64 = omega (
        arith,
        two-pow-sub s top (omega arith),
        two-pow_mono {a = s} {b = 7} narrow,
        mul_lt_mul size (2 * 2 ^ top) (2 ^ (s - top)) lead.below (two-pow-pos (s - top)),
      ) in
      let back : 64 - (64 - (s - top)) ≡ s - top = omega (arith, lead.low) in
      rw (amount_low top s h narrow, div-eq_of_lt fits, mod-eq_of_lt fits, back, mod-eq_of_lt small)
        (omega arith)

-- The rotation of `map_floor` and `map_ceil` at any size and any `SLLEN` up to 128.
pub rotated-IsRotated :
    (c : Config) (size fl : ℕ)
    → IsLeading size (fl + 5)
    → sli c ≤ 7
    → (m : ℕ) × IsRotated (sli c) size (fl + 5) (rotated c size fl) m
unfolding rotated
rotated-IsRotated c size fl lead narrow = elim (dec_lt (fl + 5) (sli c)) [
  | yes p ↦ (
    size * 2 ^ (sli c - (fl + 5)) - 2 ^ sli c,
    rw (rotated_low size (fl + 5) (sli c) lead narrow p)
        (low-IsRotated (sli c) size (fl + 5) lead narrow p),
  )
  | no p ↦
      let h : sli c ≤ fl + 5 = omega arith in
      (
        size / 2 ^ (fl + 5 - sli c) - 2 ^ sli c,
        rw (rotated_high size (fl + 5) (sli c) lead narrow h)
            (high-IsRotated (sli c) size (fl + 5) lead narrow h),
      )
]
