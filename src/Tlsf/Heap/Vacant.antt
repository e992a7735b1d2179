-- ===== src/Tlsf/Heap/Vacant.antt =====
-- The vacant blocks of the new view.
use native.Mathlib.Decide.{ℕ_discrete}
use rlsf.Base.{ℕ, ◌+◌, ◌≤◌, ◌<◌, ◌≡◌, ◌⊎◌, inl, inr, refl, sym, ap, ◌∙◌, some, some_inj, arith}
use rlsf.Tlsf.Heap.{Kind, vacant, Block, View, IsVacant}
use rlsf.Tlsf.Heap.Replace.{
  Region, first_tile, rest_tile, last_tile, replace, IsRegion, Found, first, second, behind,
  outside, Found-cases, replace-first, replace-second, replace-end, replace-outside,
}

-- A vacant block of the new view: an old one outside the region, or a tile.
pub data IsNew (h : View) (r : Region) (n : ℕ) (kind rest : Kind) (z : ℕ) : Type 0 where
  old : (z < r.b) ⊎ (r.e ≤ z) → IsVacant h z → IsNew h r n kind rest z
  tile : kind ≡ vacant → z ≡ r.b → IsNew h r n kind rest z
  remainder : rest ≡ vacant → r.b + n < r.e → z ≡ r.b + n → IsNew h r n kind rest z

module _ {h : View} {r : Region} (is : IsRegion h r) (n : ℕ) (pos : 0 < n) (fits : r.b + n ≤ r.e)
    (kind rest : Kind) where
  kind_of : {k k' : Block} → k ≡ k' → k.kind ≡ k'.kind
  kind_of e = ap (λ (z : Block). z.kind) e

  vacant_cases :
      (z : ℕ) (k : Block)
      → k.kind ≡ vacant
      → Found h r n kind rest is.end z k
      → IsNew h r n kind rest z
  vacant_cases z k v (first p q) = tile (kind_of q ∙ v) p
  vacant_cases z k v (second more p q) = remainder (kind_of q ∙ v) more p
  vacant_cases z k v (behind p q) =
      old (inr (omega arith)) (is.end, ap h p ∙ is.at_end, kind_of q ∙ v)
  vacant_cases z k v (outside (inl o) e) = old (inl o) (k, e, v)
  vacant_cases z k v (outside (inr o) e) = old (inr (omega arith)) (k, e, v)

  pub IsNew-of_vacant : (z : ℕ) → IsVacant (replace h r n kind rest) z → IsNew h r n kind rest z
  IsNew-of_vacant z (k, e, v) = vacant_cases z k v (Found-cases is n pos fits kind rest z k e)

  -- Blocks outside the region are in the new view, with their sizes and kinds.
  pub outside_kept :
      (z : ℕ) (k : Block)
      → h z ≡ some k
      → (z < r.b) ⊎ (r.e ≤ z)
      → (k' : Block) × (replace h r n kind rest z ≡ some k')
        × (k'.size ≡ k.size)
        × (k'.kind ≡ k.kind)
  outside_kept z k e (inl below) =
      (k, replace-outside is n pos fits kind rest z (inl below) ∙ e, refl, refl)
  outside_kept z k e (inr above) = elim (ℕ_discrete z r.e) [
    | no p ↦ (k, replace-outside is n pos fits kind rest z (inr (omega arith)) ∙ e, refl, refl)
    | yes p ↦
        let same : is.end ≡ k = some_inj (sym is.at_end ∙ (ap h (sym p) ∙ e)) in
        (
          record is.end { prev = last_tile r n },
          ap (replace h r n kind rest) p ∙ replace-end is n pos fits kind rest,
          ap (λ (t : Block). t.size) same,
          kind_of same,
        )
  ]

  pub vacant_of_IsNew : (z : ℕ) → IsNew h r n kind rest z → IsVacant (replace h r n kind rest) z
  vacant_of_IsNew z (old out (k, e, v)) =
      let (k', e', size, same) = outside_kept z k e out in (k', e', same ∙ v)
  vacant_of_IsNew z (tile v p) = (
    first_tile r n kind,
    ap (replace h r n kind rest) p ∙ replace-first is n pos fits kind rest,
    v,
  )
  vacant_of_IsNew z (remainder v more p) = (
    rest_tile r n rest,
    ap (replace h r n kind rest) p ∙ replace-second is n pos fits kind rest more,
    v,
  )
