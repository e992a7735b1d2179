-- ===== src/Tlsf/Client/Pools.antt =====
-- The blocks are in the ranges that a client has handed over.
use rlsf.Base.{ℕ, ◌+◌, ◌≤◌, ◌<◌, ◌⊎◌, inl, inr, arith, List, [], ◌∷◌, All}
use native.Mathlib.Decide.{dec_lt}
use rlsf.Tlsf.Config.{Config}
use rlsf.Tlsf.Heap.{View, IsBlockAt, IsTiled}
use rlsf.Tlsf.Heap.Replace.{HasByte}
use rlsf.Tlsf.Pool.Added.{Spares}
use rlsf.Tlsf.Client.{Range, IsApart}

-- An address in one of the ranges.
abbrev pub InPools : List Range → ℕ → Type 0
InPools [] x = ⊥
InPools (r ∷ rs) x = ((r.start ≤ x) × (x < r.start + r.len)) ⊎ InPools rs x

-- A range that is apart from those that were handed over meets no block.
module _ {c : Config} {h : View} (pools : List Range) (t : IsTiled c h)
    (covered : (x : ℕ) → HasByte h x → InPools pools x) (r : Range) (pos : 0 < r.len)
    (apart : All (IsApart r) pools) where
  not_in : (x : ℕ) → InPools pools x → r.start ≤ x → x < r.start + r.len → ⊥
  not_in x i from to = by pools apart i
    where
      by : (rs : List Range) → All (IsApart r) rs → InPools rs x → ⊥
      by [] a i = i
      by (q ∷ rs) a (inl i) = elim a.0 [ inl o ↦ omega (arith, i.0) | inr o ↦ omega (arith, i.1) ]
      by (q ∷ rs) a (inr i) = by rs a.1 i

  pub apart-Spares : Spares h r.start r.len
  apart-Spares z k e =
      let b : IsBlockAt c z k = t.block z k e in
      elim (dec_lt r.start z) [
        | yes above ↦ elim (dec_lt z (r.start + r.len)) [
          | no far ↦ inr (omega arith)
          | yes near ↦ absurd (
              not_in z
                (covered z (record {
                  base = z;
                  block = k;
                  at = e;
                  from = omega arith;
                  to = omega (arith, b.at_least);
                }))
                (omega arith) near)
        ]
        | no below ↦ elim (dec_lt r.start (z + k.size)) [
          | no far ↦ inl (omega arith)
          | yes near ↦ absurd (
              not_in r.start
                (covered r.start
                  (record { base = z; block = k; at = e; from = omega arith; to = near }))
                (omega arith) (omega arith))
        ]
      ]
