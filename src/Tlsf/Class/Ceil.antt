-- ===== src/Tlsf/Class/Ceil.antt =====
-- `map_ceil` finds the first list whose every size is at least the size.
use native.Mathlib.Nat.{mod-eq_of_lt, add-zero, div-eq_of_lt, div_self, mod_self}
use native.Mathlib.Decide.{dec_lt}
use rlsf.Base.{
  ℕ, suc, ◌+◌, ◌-◌, ◌*◌, ◌/◌, ◌^◌, ◌≤◌, ◌<◌, ◌≡◌, ◌≢◌, ◌⊎◌, refl, none, some, bit_and, sym, ap, ◌∙◌,
  subst, arith, leb, true, false, Bool-cases, inl, inr, some_inj, two-pow-pos, two-pow-suc,
  le_of_two-pow-lt, lt_of_mul-lt, mul_le_mul, mul_lt_mul,
}
use rlsf.Tlsf.Config.{Config, IsValid, sli}
use rlsf.Tlsf.Class.{first_level, rotated, rounded_up, map_ceil}
use rlsf.Tlsf.Class.Shift.{IsLeading, IsRotated, first_level_lem, rotated-IsRotated}
use rlsf.Tlsf.Class.Floor.{IsSize, sli-le, masked-index, sllen_pos}

-- List `sl` of level `fl` is the first one, in the order of the least sizes, whose least size is
-- not below `size`.
pub record IsCeiling (c : Config) (size fl sl : ℕ) : Type 0 where
  pub index : sl < c.sllen
  pub covers : size * c.sllen ≤ (c.sllen + sl) * 2 ^ (fl + 5)
  pub first :
      (fl' sl' : ℕ)
      → sl' < c.sllen
      → size * c.sllen ≤ (c.sllen + sl') * 2 ^ (fl' + 5)
      → (fl < fl') ⊎ (fl ≡ fl') × (sl ≤ sl')

-- The number of the list within the level, rounded up: `a`, the count of the lists of a level,
-- stands for the next level.
pub record IsRounded (a size top r : ℕ) : Type 0 where
  pub at_most : r ≤ a
  pub enough : size * a ≤ (a + r) * 2 ^ top
  pub least : (a + r) * 2 ^ top < size * a + 2 ^ top

module _ {s size top word m : ℕ} (r : IsRotated s size top word m) where
  round_exact : leb (2 ^ (s + 1)) word ≡ false → IsRounded (2 ^ s) size top m
  round_exact e =
      let same : (2 ^ s + m) * 2 ^ top ≡ size * 2 ^ s = ground (arith, r.dropped) in
      record {
        at_most = omega (arith, r.index);
        enough = omega (arith, same);
        least = omega (arith, same, two-pow-pos top);
      }

  round_up : leb (2 ^ (s + 1)) word ≡ true → IsRounded (2 ^ s) size top (m + 1)
  round_up e =
      let ne : (2 ^ s + m) * 2 ^ top ≢ size * 2 ^ s = ground (arith, r.dropped) in
      record {
        at_most = omega (arith, r.index);
        enough = omega (arith, r.below_next);
        least = omega (arith, ne, r.from_min);
      }

module _ {c : Config} (v : IsValid c) {size : ℕ} (is : IsSize size) where
  rounded_up-IsRounded :
      IsRounded
        (2 ^ sli c)
        size
        (first_level size + 5)
        (rounded_up c (rotated c size (first_level size)))
  unfolding rounded_up
  rounded_up-IsRounded =
      let (m, r) =
        rotated-IsRotated c size (first_level size) (first_level_lem size is.at_least is.in_word)
          (sli-le v) in
      let masked = masked-index v (rotated c size (first_level size)) ∙ r.masked in
      elim (Bool-cases (leb (2 ^ (sli c + 1)) (rotated c size (first_level size)))) [
        | inl up ↦ rw (up, masked) (round_up r up)
        | inr exact ↦
            rw (exact, masked)
              (subst (IsRounded (2 ^ sli c) size (first_level size + 5)) (omega arith)
                (round_exact r exact))
      ]

-- From the rounded number to the list: within the level, and at the next.
module _ (c : Config) (fl : ℕ) {size r : ℕ} (lead : IsLeading size (fl + 5))
    (e : IsRounded c.sllen size (fl + 5) r) where
  module _ (fl' sl' : ℕ) (index : sl' < c.sllen)
      (covers : size * c.sllen ≤ (c.sllen + sl') * 2 ^ (fl' + 5)) where
    level_le : fl ≤ fl'
    level_le =
        let double : 2 ^ (fl + 5) < 2 * 2 ^ (fl' + 5) =
          lt_of_mul-lt (2 ^ (fl + 5)) (2 * 2 ^ (fl' + 5)) c.sllen (
            omega (
              arith,
              covers,
              mul_le_mul (2 ^ (fl + 5)) size c.sllen lead.at_least,
              mul_lt_mul (c.sllen + sl') (2 * c.sllen) (2 ^ (fl' + 5)) (omega arith)
                  (two-pow-pos (fl' + 5)),
            )) in
        omega
          (arith, le_of_two-pow-lt (fl + 5) (suc (fl' + 5)) (omega (arith, two-pow-suc (fl' + 5))))

    index_le : fl ≡ fl' → r ≤ sl'
    index_le same =
        let covers' : size * c.sllen ≤ (c.sllen + sl') * 2 ^ (fl + 5) =
          subst (λ t. size * c.sllen ≤ (c.sllen + sl') * 2 ^ (t + 5)) (sym same) covers in
        omega (
          arith,
          lt_of_mul-lt (c.sllen + r) (c.sllen + sl' + 1) (2 ^ (fl + 5))
              (omega (arith, covers', e.least)),
        )

  same_level : r < c.sllen → IsCeiling c size fl r
  same_level h = record {
    index = h;
    covers = e.enough;
    first = λ fl' sl' i k. elim (dec_lt fl fl') [
      | yes p ↦ inl p
      | no p ↦
          let same : fl ≡ fl' = omega (arith, level_le fl' sl' i k) in
          inr (same, index_le fl' sl' i k same)
    ];
  }

  next_level : 0 < c.sllen → r ≡ c.sllen → IsCeiling c size (fl + 1) 0
  next_level pos h = record {
    index = pos;
    covers =
        let double : 2 ^ (fl + 1 + 5) ≡ 2 * 2 ^ (fl + 5) =
          ap (λ (t : ℕ). 2 ^ t) (omega arith) ∙ two-pow-suc (fl + 5) in
        let twice : (c.sllen + r) * 2 ^ (fl + 5) ≡ (c.sllen + c.sllen) * 2 ^ (fl + 5) =
          ap (λ (t : ℕ). (c.sllen + t) * 2 ^ (fl + 5)) h in
        rw double (omega (arith, e.enough, twice));
    first = λ fl' sl' i k. elim (dec_lt (fl + 1) fl') [
      | yes p ↦ inl p
      | no p ↦ inr (beyond fl' sl' i k p, omega arith)
    ];
  }
    where
      beyond :
          (fl' sl' : ℕ)
          → sl' < c.sllen
          → size * c.sllen ≤ (c.sllen + sl') * 2 ^ (fl' + 5)
          → ¬ (fl + 1 < fl')
          → fl + 1 ≡ fl'
      beyond fl' sl' i k p = elim (dec_lt fl fl') [
        | yes q ↦ omega arith
        | no q ↦
            let same : fl ≡ fl' = omega (arith, level_le fl' sl' i k) in
            absurd (omega (arith, index_le fl' sl' i k same))
      ]

doubled : (a b p : ℕ) → a ≡ b → (a + 0) * (2 * p) ≡ (a + b) * p
doubled a b p e = rw e (grind arith)

module _ {c : Config} (v : IsValid c) (size : ℕ) (is : IsSize size) where
  pub rounded : ℕ
  rounded = rounded_up c (rotated c size (first_level size))

  pub is_rounded : IsRounded c.sllen size (first_level size + 5) rounded
  unfolding rounded
  is_rounded =
      subst
        (λ t.
          IsRounded t size (first_level size + 5)
            (rounded_up c (rotated c size (first_level size))))
        (sym v.power) (rounded_up-IsRounded v is)

  -- What the last lines of `map_ceil` make of the rounded number.
  ceiling :
      IsCeiling c size (first_level size + rounded / 2 ^ sli c) (bit_and rounded (c.sllen - 1))
  ceiling =
      let lead = first_level_lem size is.at_least is.in_word in
      elim (dec_lt rounded c.sllen) [
        | yes p ↦
            let fits : rounded < 2 ^ sli c = omega (arith, v.power) in
            rw (masked-index v rounded, div-eq_of_lt fits, mod-eq_of_lt fits, add-zero)
              (same_level c (first_level size) lead is_rounded p)
        | no p ↦
            let full : rounded ≡ c.sllen = omega (arith, is_rounded.at_most) in
            let whole : rounded ≡ 2 ^ sli c = full ∙ v.power in
            rw (masked-index v rounded, whole, div_self (two-pow-pos (sli c)), mod_self)
              (next_level c (first_level size) lead is_rounded (sllen_pos v) full)
      ]

  -- The least size of the list, by the rounded number.
  ceiling_min :
      (c.sllen + bit_and rounded (c.sllen - 1)) * 2 ^ (first_level size + rounded / 2 ^ sli c + 5)
      ≡ (c.sllen + rounded) * 2 ^ (first_level size + 5)
  ceiling_min = elim (dec_lt rounded c.sllen) [
    | yes p ↦
        let fits : rounded < 2 ^ sli c = omega (arith, v.power) in
        rw (masked-index v rounded, div-eq_of_lt fits, mod-eq_of_lt fits, add-zero) refl
    | no p ↦
        let full : rounded ≡ c.sllen = omega (arith, is_rounded.at_most) in
        let whole : rounded ≡ 2 ^ sli c = full ∙ v.power in
        let double : 2 ^ (first_level size + 1 + 5) ≡ 2 * 2 ^ (first_level size + 5) =
          ap (λ (t : ℕ). 2 ^ t) (omega arith) ∙ two-pow-suc (first_level size + 5) in
        rw (masked-index v rounded, whole, div_self (two-pow-pos (sli c)), mod_self, double)
          (doubled c.sllen (2 ^ sli c) (2 ^ (first_level size + 5)) v.power)
  ]

  pub map_ceil-rounded :
      {fl sl : ℕ}
      → map_ceil c size ≡ some (fl, sl)
      → (c.sllen + sl) * 2 ^ (fl + 5) ≡ (c.sllen + rounded) * 2 ^ (first_level size + 5)
  unfolding map_ceil rounded
  map_ceil-rounded {fl} {sl} e =
      elim (Bool-cases (leb c.fllen (first_level size + rounded / 2 ^ sli c))) [
        | inl past ↦ absurd (ground arith)
        | inr within ↦
            let same : ◌≡◌ {A = ℕ × ℕ}
                (first_level size + rounded / 2 ^ sli c, bit_and rounded (c.sllen - 1)) (fl, sl) =
              some_inj (rw within at e) in
            subst
              (λ (t : ℕ × ℕ).
                (c.sllen + t.1) * 2 ^ (t.0 + 5) ≡ (c.sllen + rounded) * 2 ^ (first_level size + 5))
              same ceiling_min
      ]

  -- For valid constants and a size of at least 32, a list that `map_ceil` returns is in the table,
  -- and is the first one whose least size is not below the size.
  pub map_ceil-IsCeiling :
      {fl sl : ℕ} → map_ceil c size ≡ some (fl, sl) → (fl < c.fllen) × IsCeiling c size fl sl
  unfolding map_ceil rounded
  map_ceil-IsCeiling {fl} {sl} e =
      elim (Bool-cases (leb c.fllen (first_level size + rounded / 2 ^ sli c))) [
        | inl past ↦ absurd (ground arith)
        | inr within ↦
            let same : ◌≡◌ {A = ℕ × ℕ}
                (first_level size + rounded / 2 ^ sli c, bit_and rounded (c.sllen - 1)) (fl, sl) =
              some_inj (rw within at e) in
            (ground arith, subst (λ (t : ℕ × ℕ). IsCeiling c size t.0 t.1) same ceiling)
      ]

  -- For valid constants and a size of at least 32 for which `map_ceil` returns none, a list whose
  -- least size is not below the size would be past the last level.
  pub map_ceil-none :
      map_ceil c size ≡ none
      → (fl sl : ℕ) → sl < c.sllen
      → size * c.sllen ≤ (c.sllen + sl) * 2 ^ (fl + 5)
      → c.fllen ≤ fl
  unfolding map_ceil rounded
  map_ceil-none e fl sl index covers = ground (arith, ceiling.first fl sl index covers)
