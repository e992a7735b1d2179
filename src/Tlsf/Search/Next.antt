-- ===== src/Tlsf/Search/Next.antt =====
-- The two scans of the bitmaps find the next list that is not empty.
use native.Mathlib.Decide.{dec_lt}
use mathlib.Core.Bool.{false≢true}
use rlsf.Base.{
  ℕ, ◌+◌, ◌≤◌, ◌<◌, ◌≡◌, ◌≢◌, ◌⊎◌, inl, inr, refl, sym, ap, ◌∙◌, subst, true, false, not, Option,
  none, some, [], arith, ltb, leb, if◌then◌else◌, ≢→==, Bool-cases, ltb→lt, ltb→ge, gt→leb,
}
use rlsf.Word.{trailing_zeros}
use rlsf.Word.Zeros.{trailing_zeros_clear, trailing_zeros_set, trailing_zeros-lt}
use rlsf.Int.{get_bit}
use rlsf.Int.Laws.{get_bit-bit}
use rlsf.Int.Scan.{IsFirstSet, bit_scan_forward-IsFirstSet}
use rlsf.Tlsf.Config.{Config, IsValid}
use rlsf.Tlsf.State.{State}
use rlsf.Tlsf.Links.Heap.{IsList, nil_of_null, null_of_nil}
use rlsf.Tlsf.Links.Index.{ne-zero_of_get_bit}
use rlsf.Tlsf.Links.Rep.{Lists, IsFree}
use rlsf.Tlsf.Search.{search_above, search_from}

-- The order of the lists: by level, then by index.
abbrev pub IsBefore : (fl sl x y : ℕ) → Type 0
IsBefore fl sl x y = (fl < x) ⊎ (fl ≡ x) × (sl ≤ y)

-- The first list from (fl, sl) on that is not empty.
pub data IsNext (lists : Lists) (fl sl : ℕ) : Option (ℕ × ℕ) → Type 0 where
  found :
      (x y : ℕ)
      → lists x y ≢ []
      → IsBefore fl sl x y
      → ((i j : ℕ) → lists i j ≢ [] → IsBefore fl sl i j → IsBefore x y i j)
      → IsNext lists fl sl (some (x, y))
  nowhere : ((i j : ℕ) → IsBefore fl sl i j → ¬ (lists i j ≢ [])) → IsNext lists fl sl none

-- The lists that are not empty are in the table.
abbrev pub InTable : Config → Lists → Type 0
InTable c lists = (x y : ℕ) → lists x y ≢ [] → (x < c.fllen) × (y < c.sllen)

module _ {c : Config} {s : State} {lists : Lists} (v : IsValid c) (free : IsFree c s lists)
    (table : InTable c lists) where
  row_set : (x y : ℕ) → lists x y ≢ [] → get_bit c.sl_bits (s.sl_bitmap x) y ≡ true
  row_set x y ne =
      let head : s.first_free x y ≢ 0 = λ z. ne (nil_of_null (free.linked x y) z) in
      (free.indexed).second x y ∙ ap not (≢→== (s.first_free x y) 0 head)

  occupied : (x y : ℕ) → get_bit c.sl_bits (s.sl_bitmap x) y ≡ true → lists x y ≢ []
  occupied x y h e =
      let head : s.first_free x y ≡ 0 =
        null_of_nil (subst (IsList s.mem 0 (s.first_free x y)) e (free.linked x y)) in
      ground (arith, (free.indexed).second x y)

  level_set : (x y : ℕ) → lists x y ≢ [] → get_bit c.fl_bits s.fl_bitmap x ≡ true
  level_set x y ne =
      (free.indexed).first x
      ∙ ap not (ne-zero_of_get_bit c.sl_bits (s.sl_bitmap x) y (row_set x y ne))

  -- A bit that is clear stands for an empty list, or an empty level.
  row_clear : (x y : ℕ) → get_bit c.sl_bits (s.sl_bitmap x) y ≡ false → ¬ (lists x y ≢ [])
  row_clear x y h ne = false≢true (sym h ∙ row_set x y ne)

  level_clear : (x y : ℕ) → get_bit c.fl_bits s.fl_bitmap x ≡ false → ¬ (lists x y ≢ [])
  level_clear x y h ne = false≢true (sym h ∙ level_set x y ne)

  -- The scan of the level finds a list.
  in_row :
      (fl sl r : ℕ)
      → IsFirstSet c.sl_bits (s.sl_bitmap fl) sl r
      → r < c.sllen
      → IsNext lists fl sl (some (fl, r))
  in_row fl sl r is h =
      let (from, set) = is.set_at (omega (arith, v.second_fits)) in
      found fl r (occupied fl r set) (inr (refl, from))
        (λ i j ne after. elim after [ inl p ↦ inl p | inr (e, p) ↦ inr (e, not_below i j e p ne) ])
    where
      not_below : (i j : ℕ) → fl ≡ i → sl ≤ j → lists i j ≢ [] → r ≤ j
      not_below i j e p ne = elim (dec_lt j r) [
        | yes q ↦ absurd (
            row_clear i j
              (subst (λ t. get_bit c.sl_bits (s.sl_bitmap t) j ≡ false) e (is.clear_below j p q))
              ne)
        | no q ↦ omega arith
      ]

  -- The scan of the level finds none.
  module _ (fl sl r : ℕ) (is : IsFirstSet c.sl_bits (s.sl_bitmap fl) sl r)
      (past : c.sllen ≤ r) where
    row_empty : (j : ℕ) → sl ≤ j → ¬ (lists fl j ≢ [])
    row_empty j p ne =
        let (i, index) = table fl j ne in row_clear fl j (is.clear_below j p (omega arith)) ne

    later : (i j : ℕ) → lists i j ≢ [] → IsBefore fl sl i j → fl + 1 ≤ i
    later i j ne after = elim after [
      | inl p ↦ omega arith
      | inr (e, p) ↦ absurd (row_empty j p (subst (λ t. lists t j ≢ []) (sym e) ne))
    ]

    module _ (g : ℕ) (level : IsFirstSet c.fl_bits s.fl_bitmap (fl + 1) g) where
      not_below_level : (i j : ℕ) → lists i j ≢ [] → IsBefore fl sl i j → g ≤ i
      not_below_level i j ne after = elim (dec_lt i g) [
        | yes q ↦ absurd (level_clear i j (level.clear_below i (later i j ne after) q) ne)
        | no q ↦ omega arith
      ]

      none_above : c.fllen ≤ g → IsNext lists fl sl none
      none_above h = nowhere (λ i j after ne.
          let (inside, index) = table i j ne in
          absurd (omega (arith, not_below_level i j ne after)))

      module _ (h : g < c.fllen) where
        row : ℕ
        row = s.sl_bitmap g

        first : ℕ
        first = trailing_zeros c.sl_bits row

        row_ne : row ≢ 0
        unfolding row
        row_ne =
            let (from, set) = level.set_at (omega (arith, v.first_fits)) in
            ground (arith, (free.indexed).first g)

        first-lt : first < c.sl_bits
        unfolding first row
        first-lt = trailing_zeros-lt c.sl_bits (s.sl_bitmap g) ((free.indexed).sl_width g) row_ne

        first_occupied : lists g first ≢ []
        unfolding first row
        first_occupied = occupied g first (
            get_bit-bit c.sl_bits (s.sl_bitmap g) first first-lt
            ∙ ground (arith, trailing_zeros_set c.sl_bits (s.sl_bitmap g) first-lt))

        not_below_first : (j : ℕ) → lists g j ≢ [] → first ≤ j
        unfolding first row
        not_below_first j ne = elim (dec_lt j first) [
          | yes q ↦ absurd (
              row_clear g j
                (get_bit-bit c.sl_bits (s.sl_bitmap g) j (omega (arith, first-lt))
                  ∙ ground (arith, trailing_zeros_clear c.sl_bits (s.sl_bitmap g) j q))
                ne)
          | no q ↦ omega arith
        ]

        above : IsNext lists fl sl (some (g, first))
        above =
            let (from, set) = level.set_at (omega (arith, v.first_fits)) in
            found g first first_occupied (inl (omega arith)) (λ i j ne after. elim (dec_lt g i) [
              | yes p ↦ inl p
              | no p ↦
                  let same : g ≡ i = omega (arith, not_below_level i j ne after) in
                  inr (same, not_below_first j (subst (λ t. lists t j ≢ []) (sym same) ne))
            ])

        found_above :
            (r' : Option (ℕ × ℕ)) × ((if leb c.sllen first then none else some (some (g, first)))
              ≡ some r')
            × IsNext lists fl sl r'
        found_above =
            let (inside, index) = table g first first_occupied in
            (some (g, first), rw (gt→leb c.sllen first index) refl, above)

    search_above-IsNext :
        (r' : Option (ℕ × ℕ)) × (search_above c fl s ≡ some r') × IsNext lists fl sl r'
    unfolding search_above found_above first row
    search_above-IsNext =
        let (g, scan, level) = bit_scan_forward-IsFirstSet c.fl_bits s.fl_bitmap (fl + 1) in
        elim (Bool-cases (ltb g c.fllen)) [
          | inl inside ↦ rw (scan, inside) (found_above g level (ltb→lt g c.fllen inside))
          | inr outside ↦
              (none, rw (scan, outside) refl, none_above g level (ltb→ge g c.fllen outside))
        ]

  -- From (fl, sl) on.
  pub search_from-IsNext :
      (fl sl : ℕ) → (r : Option (ℕ × ℕ)) × (search_from c fl sl s ≡ some r) × IsNext lists fl sl r
  unfolding search_from
  search_from-IsNext fl sl =
      let (r, scan, is) = bit_scan_forward-IsFirstSet c.sl_bits (s.sl_bitmap fl) sl in
      elim (Bool-cases (ltb r c.sllen)) [
        | inl inside ↦
            (some (fl, r), rw (scan, inside) refl, in_row fl sl r is (ltb→lt r c.sllen inside))
        | inr outside ↦
            rw (scan, outside) (search_above-IsNext fl sl r is (ltb→ge r c.sllen outside))
      ]
