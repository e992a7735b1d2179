-- ===== src/Tlsf/Class/Unmap.antt =====
-- `map_ceil_and_unmap` computes the least size of the list that `map_ceil` finds.
use native.Mathlib.Nat.{div-le_self}
use rlsf.Base.{
  ℕ, ◌+◌, ◌-◌, ◌*◌, ◌/◌, ◌^◌, ◌≤◌, ◌<◌, ◌≡◌, ap, ◌∙◌, arith, ltb, Bool-cases, inl, inr, two-pow-pos,
  two-pow-sub, two-pow_mono, div_unique,
}
use rlsf.Word.{bit_not, usize_max}
use rlsf.Tlsf.Config.{Config, IsValid, sli}
use rlsf.Tlsf.Class.{first_level, max_map_ceil_and_unmap_input}
use rlsf.Tlsf.Class.Shift.{IsLeading, first_level_lem}
use rlsf.Tlsf.Class.Floor.{IsSize, sli-le}
use rlsf.Tlsf.Class.Ceil.{IsRounded}

one_less : (d x n : ℕ) → n ≡ d * (x + 1) → 0 < d → n - 1 ≡ d * x + (d - 1)
one_less d x n e pos = grind arith

module _ {c : Config} (v : IsValid c) where
  max_input-le : max_map_ceil_and_unmap_input c ≤ 2 ^ 64 - 2 ^ (63 - sli c)
  unfolding max_map_ceil_and_unmap_input
  max_input-le =
      let small = sli-le v in
      let power : 2 ^ 64 ≡ 2 ^ (sli c + 1) * 2 ^ (63 - sli c) =
        two-pow-sub 64 (sli c + 1) (omega arith)
        ∙ ap (λ (t : ℕ). 2 ^ (sli c + 1) * 2 ^ t) (omega arith) in
      let pos = two-pow-pos (63 - sli c) in
      let d = 2 ^ (sli c + 1) in
      let q = 2 ^ (63 - sli c) in
      let div : usize_max / d ≡ q - 1 =
        div_unique usize_max d (q - 1) (d - 1) (omega (arith, two-pow-pos (sli c + 1))) (
          one_less d (q - 1) (2 ^ 64) (power ∙ ap (λ (t : ℕ). d * t) (omega (arith, pos)))
            (two-pow-pos (sli c + 1))) in
      let bound : bit_not 64 (usize_max / d) ≤ 2 ^ 64 - q = omega (arith, div, pos) in
      elim (Bool-cases (ltb (c.fllen - 1) 58)) [
        | inl few ↦ rw few (
            omega
              (arith, bound, div-le_self (bit_not 64 (usize_max / d)) (2 ^ (58 - (c.fllen - 1)))))
        | inr all ↦ rw all bound
      ]

  -- What the code computes from the level, where the size is not too large.
  module _ {size : ℕ} (is : IsSize size) {r : ℕ}
      (e : IsRounded c.sllen size (first_level size + 5) r) where
    lead : IsLeading size (first_level size + 5)
    lead = first_level_lem size is.at_least is.in_word

    in_word :
        (shift : ℕ)
        → shift + sli c ≡ first_level size + 5
        → size ≤ max_map_ceil_and_unmap_input c
        → size + (2 ^ shift - 1) < 2 ^ 64
    in_word shift h le = omega (
      arith,
      max_input-le,
      le,
      two-pow-pos shift,
      two-pow_mono {a = shift} {b = 63 - sli c} (omega (arith, lead.high)),
      two-pow_mono {a = 63 - sli c} {b = 63} (omega arith),
    )
