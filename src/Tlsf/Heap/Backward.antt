-- ===== src/Tlsf/Heap/Backward.antt =====
-- The new view: the blocks point back, and do not overlap.
use native.Mathlib.Decide.{dec_lt, ℕ_discrete}
use rlsf.Base.{
  ℕ, ◌+◌, ◌%◌, ◌≤◌, ◌<◌, ◌≡◌, ◌≢◌, ◌⊎◌, inl, inr, sym, ap, ◌∙◌, subst, some, arith, some_inj,
}
use rlsf.Tlsf.Config.{Config}
use rlsf.Tlsf.Heap.{Kind, sentinel, Block, View, IsBlockAt, IsTiled}
use rlsf.Tlsf.Heap.Tiled.{below_ends, new_block, new_next, last-eq, last-ne}
use rlsf.Tlsf.Heap.Replace.{
  Region, first_tile, rest_tile, last_tile, replace, IsRegion, Found, first, second, behind,
  outside, replace-first, replace-second, replace-end, replace-outside, Found-cases,
}

module _ {c : Config} {h : View} {r : Region} (t : IsTiled c h) (is : IsRegion h r) (n : ℕ)
    (pos : 0 < n) (fits : r.b + n ≤ r.e) (whole : n % 32 ≡ 0) (kind rest : Kind)
    (ns : kind ≢ sentinel) (ns' : rest ≢ sentinel) where
  abbrev new : View
  new = replace h r n kind rest

  abbrev BackOf : ℕ → ℕ → Type 0
  BackOf x q =
      (q ≡ 0) ⊎ ((k' : Block) × (new q ≡ some k') × (q + k'.size ≡ x) × (k'.kind ≢ sentinel))

  -- The block before a block that is outside the region is outside, or the block behind the region.
  back_outside : (x : ℕ) (k : Block) → (x < r.b) ⊎ (r.e < x) → h x ≡ some k → BackOf x k.prev
  back_outside x k out e = elim (t.back x k e) [
    | inl null ↦ inl null
    | inr (k', at, sum, ne) ↦ inr (previous k' at sum ne out)
  ]
    where
      size : (k' : Block) → h k.prev ≡ some k' → 32 ≤ k'.size
      size k' at = let is' : IsBlockAt c k.prev k' = t.block k.prev k' at in is'.at_least

      kept :
          (k' : Block)
          → h k.prev ≡ some k'
          → k.prev + k'.size ≡ x
          → k'.kind ≢ sentinel
          → (k.prev < r.b) ⊎ (r.e < k.prev)
          → (k' : Block) × (new k.prev ≡ some k') × (k.prev + k'.size ≡ x) × (k'.kind ≢ sentinel)
      kept k' at sum ne out' =
          (k', replace-outside is n pos fits kind rest k.prev out' ∙ at, sum, ne)

      previous :
          (k' : Block)
          → h k.prev ≡ some k'
          → k.prev + k'.size ≡ x
          → k'.kind ≢ sentinel
          → (x < r.b) ⊎ (r.e < x)
          → (k' : Block) × (new k.prev ≡ some k') × (k.prev + k'.size ≡ x) × (k'.kind ≢ sentinel)
      previous k' at sum ne (inl below) = kept k' at sum ne (inl (omega (arith, size k' at)))
      previous k' at sum ne (inr above) = elim (dec_lt k.prev r.e) [
        | yes before ↦ elim (dec_lt k.prev r.b) [
          | yes p ↦ absurd (
              omega (
                arith,
                below_ends t is n pos fits whole kind rest ns ns' k.prev k' at p,
                is.forward,
              ))
          | no p ↦ absurd (omega (arith, (is.inside k.prev k' at (omega arith) before).0))
        ]
        | no p ↦ elim (ℕ_discrete k.prev r.e) [
          | no q ↦ kept k' at sum ne (inr (omega arith))
          | yes q ↦
              let same : is.end ≡ k' = some_inj (sym is.at_end ∙ (ap h (sym q) ∙ at)) in
              (
                record is.end { prev = last_tile r n },
                ap new q ∙ replace-end is n pos fits kind rest,
                ap (λ (z : Block). k.prev + z.size) same ∙ sum,
                λ s. ne (sym (ap (λ (z : Block). z.kind) same) ∙ s),
              )
        ]
      ]

  back_first : BackOf r.b r.p
  back_first = elim (t.back r.b is.start is.at_start) [
    | inl null ↦ inl (sym is.start_prev ∙ null)
    | inr (k', at, sum, ne) ↦
        let at' : h r.p ≡ some k' = subst (λ (z : ℕ). h z ≡ some k') is.start_prev at in
        let sum' : r.p + k'.size ≡ r.b = subst (λ (z : ℕ). z + k'.size ≡ r.b) is.start_prev sum in
        let size : IsBlockAt c r.p k' = t.block r.p k' at' in
        inr (
          k',
          replace-outside is n pos fits kind rest r.p (inl (omega (arith, size.at_least))) ∙ at',
          sum',
          ne,
        )
  ]

  back_end : BackOf r.e (last_tile r n)
  back_end = elim (ℕ_discrete (r.b + n) r.e) [
    | yes p ↦
        subst (BackOf r.e) (sym (last-eq t is n pos fits whole kind rest ns ns' p))
          (inr (first_tile r n kind, replace-first is n pos fits kind rest, p, ns))
    | no p ↦
        subst (BackOf r.e) (sym (last-ne t is n pos fits whole kind rest ns ns' (omega arith))) (
          inr (
            rest_tile r n rest,
            replace-second is n pos fits kind rest (omega arith),
            omega arith,
            ns',
          ))
  ]

  new_back : (x : ℕ) (k : Block) → Found h r n kind rest is.end x k → BackOf x k.prev
  new_back x k (first p q) =
      subst (λ (z : Block). BackOf x z.prev) q (subst (λ y. BackOf y r.p) (sym p) back_first)
  new_back x k (second more p q) =
      subst (λ (z : Block). BackOf x z.prev) q
        (inr (first_tile r n kind, replace-first is n pos fits kind rest, sym p, ns))
  new_back x k (behind p q) =
      subst (λ (z : Block). BackOf x z.prev) q
        (subst (λ y. BackOf y (last_tile r n)) (sym p) back_end)
  new_back x k (outside out e) = back_outside x k out e

  -- The bytes of a block of the new view.
  size_of : {k k' : Block} → k ≡ k' → k.size ≡ k'.size
  size_of e = ap (λ (z : Block). z.size) e

  low : (x : ℕ) (k : Block) → h x ≡ some k → x < r.b → x + k.size ≤ r.b
  low = below_ends t is n pos fits whole kind rest ns ns'

  new_apart :
      (x : ℕ) (k : Block) (y : ℕ) (k' : Block)
      → Found h r n kind rest is.end x k
      → Found h r n kind rest is.end y k'
      → x < y
      → x + k.size ≤ y
  new_apart x k y k' (first p q) (first p' q') lt = absurd (omega arith)
  new_apart x k y k' (first p q) (second more p' q') lt = omega (arith, size_of q)
  new_apart x k y k' (first p q) (behind p' q') lt = omega (arith, size_of q)
  new_apart x k y k' (first p q) (outside (inl o) e') lt = absurd (omega arith)
  new_apart x k y k' (first p q) (outside (inr o) e') lt = omega (arith, size_of q)
  new_apart x k y k' (second more p q) (first p' q') lt = absurd (omega arith)
  new_apart x k y k' (second more p q) (second more' p' q') lt = absurd (omega arith)
  new_apart x k y k' (second more p q) (behind p' q') lt = omega (arith, size_of q)
  new_apart x k y k' (second more p q) (outside (inl o) e') lt = absurd (omega arith)
  new_apart x k y k' (second more p q) (outside (inr o) e') lt = omega (arith, size_of q)
  new_apart x k y k' (behind p q) (first p' q') lt = absurd (omega (arith, is.forward))
  new_apart x k y k' (behind p q) (second more p' q') lt = absurd (omega arith)
  new_apart x k y k' (behind p q) (behind p' q') lt = absurd (omega arith)
  new_apart x k y k' (behind p q) (outside (inl o) e') lt = absurd (omega (arith, is.forward))
  new_apart x k y k' (behind p q) (outside (inr o) e') lt =
      omega (arith, size_of q, t.apart r.e is.end y k' is.at_end e' o)
  new_apart x k y k' (outside (inl o) e) (first p' q') lt = omega (arith, low x k e o)
  new_apart x k y k' (outside (inl o) e) (second more p' q') lt = omega (arith, low x k e o)
  new_apart x k y k' (outside (inl o) e) (behind p' q') lt = omega (arith, low x k e o, is.forward)
  new_apart x k y k' (outside (inr o) e) (first p' q') lt = absurd (omega (arith, is.forward))
  new_apart x k y k' (outside (inr o) e) (second more p' q') lt = absurd (omega arith)
  new_apart x k y k' (outside (inr o) e) (behind p' q') lt = absurd (omega arith)
  new_apart x k y k' (outside o e) (outside o' e') lt = t.apart x k y k' e e' lt

  -- Tiling a region anew keeps the chains and keeps the blocks apart.
  pub replace-IsTiled : IsTiled c (replace h r n kind rest)
  replace-IsTiled = record {
    block = λ x k e. new_block t is n pos fits whole kind rest ns ns' x k (found x k e);
    next = λ x k e. new_next t is n pos fits whole kind rest ns ns' x k (found x k e);
    back = λ x k e. new_back x k (found x k e);
    apart = λ x k y k' e e'. new_apart x k y k' (found x k e) (found y k' e');
  }
    where
      found :
          (x : ℕ) (k : Block)
          → replace h r n kind rest x ≡ some k
          → Found h r n kind rest is.end x k
      found = Found-cases is n pos fits kind rest
