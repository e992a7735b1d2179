-- ===== src/Tlsf/Class/Floor.antt =====
-- `map_floor` finds the list whose range of sizes holds the size.
use mathlib.Core.Path.{ap₂}
use native.Mathlib.Decide.{dec_lt}
use rlsf.Base.{
  ℕ, suc, ◌+◌, ◌-◌, ◌*◌, ◌%◌, ◌^◌, ◌≤◌, ◌<◌, ◌≡◌, ◌↔◌, none, some, bit_and, refl, sym, ap, ◌∙◌,
  subst, arith, gt→leb, le→leb, two-pow_unique, some_inj, le_of_mul-le, lt_of_mul-lt, mul_le_mul,
  two-pow_mono, two-pow-pos, two-pow-suc, le_of_two-pow-lt,
}
use rlsf.Word.Align.{bit_and-mask}
use rlsf.Tlsf.Config.{Config, IsValid, sli}
use rlsf.Tlsf.Class.{first_level, rotated, map_floor}
use rlsf.Tlsf.Class.Shift.{first_level_lem, rotated-IsRotated}

-- The range of sizes of a free list: the table of the type's documentation, in which list `sl` of
-- level `fl` begins at `2 ^ (fl + 5) * (1 + sl / SLLEN)`.
pub record InClass (c : Config) (fl sl size : ℕ) : Type 0 where
  pub level : fl < c.fllen
  pub index : sl < c.sllen
  pub from_min : (c.sllen + sl) * 2 ^ (fl + 5) ≤ size * c.sllen
  pub below_next : size * c.sllen < (c.sllen + sl + 1) * 2 ^ (fl + 5)

-- The sizes that a block can have.
pub record IsSize (size : ℕ) : Type 0 where
  pub at_least : 32 ≤ size
  pub in_word : size < 2 ^ 64

module _ {c : Config} (v : IsValid c) where
  pub sli-le : sli c ≤ 7
  sli-le = omega (arith, le_of_two-pow-lt (sli c) 8, v.power, v.second_fits, v.width)

  pub masked-index : (word : ℕ) → bit_and word (c.sllen - 1) ≡ word % 2 ^ sli c
  masked-index word = ap (λ (t : ℕ). bit_and word (t - 1)) v.power ∙ bit_and-mask (sli c) word

  module _ {size : ℕ} (is : IsSize size) where
    -- Where the level that the code computes is one of the table, the size is in the list that
    -- `map_floor` returns.
    map_floor-some :
        first_level size < c.fllen
        → (sl : ℕ) × (map_floor c size ≡ some (first_level size, sl))
          × InClass c (first_level size) sl size
    unfolding map_floor
    map_floor-some h =
        let (m, r) =
          rotated-IsRotated c size (first_level size) (first_level_lem size is.at_least is.in_word)
            sli-le in
        (
          m,
          rw (gt→leb _ _ h, masked-index (rotated c size (first_level size)), r.masked) refl,
          record {
            level = h;
            index = omega (arith, v.power, r.index);
            from_min =
                subst (λ t. (t + m) * 2 ^ (first_level size + 5) ≤ size * t) (sym v.power)
                  r.from_min;
            below_next =
                subst (λ t. size * t < (t + m + 1) * 2 ^ (first_level size + 5)) (sym v.power)
                  r.below_next;
          },
        )

    map_floor-none : c.fllen ≤ first_level size → map_floor c size ≡ none
    unfolding map_floor
    map_floor-none h = rw (le→leb _ _ h)

-- Sizes of one list lie between the least sizes of two levels.
module _ {c : Config} (v : IsValid c) where
  pub sllen_pos : 0 < c.sllen
  sllen_pos = omega (arith, v.power, two-pow-pos (sli c))

  pub level_bounds :
      {fl sl size : ℕ} → InClass c fl sl size → (2 ^ (fl + 5) ≤ size) × (size < 2 * 2 ^ (fl + 5))
  level_bounds {fl} {sl} {size} k = (
    le_of_mul-le _ _ c.sllen sllen_pos
        (omega (arith, k.from_min, mul_le_mul c.sllen (c.sllen + sl) (2 ^ (fl + 5)) (omega arith))),
    lt_of_mul-lt _ _ c.sllen (
        omega (
          arith,
          k.below_next,
          mul_le_mul (c.sllen + sl + 1) (2 * c.sllen) (2 ^ (fl + 5)) (omega (arith, k.index)),
        )),
  )

  index_le : {fl sl sl' size : ℕ} → InClass c fl sl size → InClass c fl sl' size → sl ≤ sl'
  index_le {fl} {sl} {sl'} k k' = omega (
    arith,
    lt_of_mul-lt (c.sllen + sl) (c.sllen + sl' + 1) (2 ^ (fl + 5))
        (omega (arith, k.from_min, k'.below_next)),
  )

  first_level-eq : {fl sl size : ℕ} → IsSize size → InClass c fl sl size → first_level size ≡ fl
  first_level-eq {fl} {sl} {size} is k =
      let lead = first_level_lem size is.at_least is.in_word in
      let (lo, hi) = level_bounds k in
      omega
        (arith, two-pow_unique (first_level size + 5) (fl + 5) size lead.at_least lead.below lo hi)

  -- A size has at most one list.
  pub map_floor-of_InClass :
      {fl sl size : ℕ} → IsSize size → InClass c fl sl size → map_floor c size ≡ some (fl, sl)
  map_floor-of_InClass {fl} {sl} {size} is k =
      let level = first_level-eq is k in
      let (sl', e, k') = map_floor-some v is (omega (arith, level, k.level)) in
      let k'' : InClass c fl sl' size = subst (λ t. InClass c t sl' size) level k' in
      let index : sl' ≡ sl = omega (arith, index_le k k'', index_le k'' k) in
      e ∙ ap some (ap₂ (λ (a b : ℕ). (a, b)) level index)

  InClass-of_map_floor :
      {fl sl size : ℕ} → IsSize size → map_floor c size ≡ some (fl, sl) → InClass c fl sl size
  InClass-of_map_floor {fl} {sl} {size} is e = elim (dec_lt (first_level size) c.fllen) [
    | yes p ↦
        let (sl', e', k') = map_floor-some v is p in
        let same = some_inj (sym e' ∙ e) in subst (λ (t : ℕ × ℕ). InClass c t.0 t.1 size) same k'
    | no p ↦ let e' = map_floor-none v is (omega arith) in cc
  ]

  -- For valid constants and a size of at least 32, `map_floor` returns (fl, sl) exactly when these
  -- are indices of the table and the size is in the range of that list.
  pub map_floor_iff :
      (fl sl size : ℕ) → IsSize size → (map_floor c size ≡ some (fl, sl)) ↔ InClass c fl sl size
  map_floor_iff fl sl size is = (InClass-of_map_floor is, map_floor-of_InClass is)

  -- For valid constants and a size of at least 32, `map_floor` returns none exactly when the size
  -- is at least `GRANULARITY << FLLEN`.
  pub map_floor-none_iff :
      (size : ℕ) → IsSize size → (map_floor c size ≡ none) ↔ (2 ^ (c.fllen + 5) ≤ size)
  map_floor-none_iff size is =
      let lead = first_level_lem size is.at_least is.in_word in
      (
        λ e. elim (dec_lt (first_level size) c.fllen) [
          | yes p ↦ let (sl', e', k') = map_floor-some v is p in absurd (cc)
          | no p ↦ omega (
            arith,
            lead.at_least,
            two-pow_mono {a = c.fllen + 5} {b = first_level size + 5} (omega arith),
          )
        ],
        λ h. map_floor-none v is (
            omega (
              arith,
              le_of_two-pow-lt (c.fllen + 5) (suc (first_level size + 5))
                  (omega (arith, two-pow-suc (first_level size + 5), lead.below)),
            )),
      )
