-- ===== src/Tlsf/Heap/Agree.antt =====
-- What memory has to hold after a region is tiled anew, and that no vacant blocks then meet.
use rlsf.Base.{
  ℕ, ◌+◌, ◌-◌, ◌%◌, ◌≤◌, ◌<◌, ◌≡◌, ◌≢◌, ◌⊎◌, inl, inr, refl, sym, ap, ◌∙◌, subst, arith, some_inj,
}
use rlsf.Tlsf.Config.{Config}
use rlsf.Tlsf.State.{Memory}
use rlsf.Tlsf.Heap.{
  Kind, vacant, sentinel, flags, Block, View, IsBlockAt, IsTiled, Agrees, IsVacant, IsMerged,
}
use rlsf.Tlsf.Heap.Replace.{
  Region, first_tile, rest_tile, last_tile, replace, IsRegion, Found, first, second, behind,
  outside, Found-cases,
}

-- The headers of the tiles, and the link back from the block behind the region. All other headers
-- are as before.
pub record IsRewritten (m m' : Memory) (r : Region) (n : ℕ) (kind rest : Kind) : Type 0 where
  pub first_size : m' r.b ≡ n + flags kind
  pub first_prev : m' (r.b + 8) ≡ r.p
  pub rest_size : r.b + n < r.e → m' (r.b + n) ≡ r.e - (r.b + n) + flags rest
  pub rest_prev : r.b + n < r.e → m' (r.b + n + 8) ≡ r.b
  pub end_prev : m' (r.e + 8) ≡ last_tile r n
  pub same_size : (x : ℕ) → x % 32 ≡ 0 → (x < r.b) ⊎ (r.e ≤ x) → m' x ≡ m x
  pub same_prev : (x : ℕ) → x % 32 ≡ 0 → (x < r.b) ⊎ (r.e < x) → m' (x + 8) ≡ m (x + 8)

-- The new vacant blocks meet no other vacant block.
pub record AreApart (h : View) (r : Region) (n : ℕ) (kind rest end : Kind) : Type 0 where
  pub tiles : kind ≡ vacant → rest ≡ vacant → r.b + n ≡ r.e
  pub first_end : kind ≡ vacant → r.b + n ≡ r.e → end ≢ vacant
  pub rest_end : rest ≡ vacant → r.b + n < r.e → end ≢ vacant
  pub before : kind ≡ vacant → ¬ IsVacant h r.p

abbrev pub HeaderOf : Memory → ℕ → Block → Type 0
HeaderOf m x k = (m x ≡ k.size + flags k.kind) × (m (x + 8) ≡ k.prev)

module _ {c : Config} {h : View} {r : Region} (t : IsTiled c h) (is : IsRegion h r) (n : ℕ)
    (pos : 0 < n) (fits : r.b + n ≤ r.e) (kind rest : Kind) where
  header :
      {m m' : Memory}
      → Agrees m h
      → IsRewritten m m' r n kind rest
      → (x : ℕ) (k : Block) → Found h r n kind rest is.end x k
      → HeaderOf m' x k
  header {m} {m'} a w x k (first p q) =
      subst (HeaderOf m' x) q
        (subst (λ y. HeaderOf m' y (first_tile r n kind)) (sym p) (w.first_size, w.first_prev))
  header {m} {m'} a w x k (second more p q) =
      subst (HeaderOf m' x) q (
        subst (λ y. HeaderOf m' y (rest_tile r n rest)) (sym p)
          (w.rest_size more, w.rest_prev more))
  header {m} {m'} a w x k (behind p q) =
      let e : IsBlockAt c r.e is.end = t.block r.e is.end is.at_end in
      let kept : m' r.e ≡ m r.e = w.same_size r.e e.aligned (inr (omega arith)) in
      subst (HeaderOf m' x) q (
        subst (λ y. HeaderOf m' y (record is.end { prev = last_tile r n })) (sym p)
          (kept ∙ (a r.e is.end is.at_end).0, w.end_prev))
  header {m} {m'} a w x k (outside out e) =
      let b : IsBlockAt c x k = t.block x k e in
      let (size, prev) = a x k e in
      (w.same_size x b.aligned (weaker out) ∙ size, w.same_prev x b.aligned out ∙ prev)
    where
      weaker : (x < r.b) ⊎ (r.e < x) → (x < r.b) ⊎ (r.e ≤ x)
      weaker (inl p) = inl p
      weaker (inr p) = inr (omega arith)

  pub replace-Agrees :
      {m m' : Memory}
      → Agrees m h
      → IsRewritten m m' r n kind rest
      → Agrees m' (replace h r n kind rest)
  replace-Agrees a w x k e = header a w x k (Found-cases is n pos fits kind rest x k e)

  kind_of : {k k' : Block} → k ≡ k' → k.kind ≡ k'.kind
  kind_of e = ap (λ (z : Block). z.kind) e

  size_of : {k k' : Block} → k ≡ k' → k.size ≡ k'.size
  size_of e = ap (λ (z : Block). z.size) e

  no_meeting :
      IsMerged h
      → AreApart h r n kind rest (is.end).kind
      → (x : ℕ) (k : Block) (y : ℕ) (k' : Block) → Found h r n kind rest is.end x k
      → Found h r n kind rest is.end y k'
      → x + k.size ≡ y
      → 32 ≤ k.size
      → k.kind ≡ vacant
      → k'.kind ≢ vacant
  no_meeting m a x k y k' (first p q) (first p' q') e s v v' = omega arith
  no_meeting m a x k y k' (first p q) (second more p' q') e s v v' =
      omega (arith, a.tiles (kind_of q ∙ v) (kind_of q' ∙ v'))
  no_meeting m a x k y k' (first p q) (behind p' q') e s v v' =
      a.first_end (kind_of q ∙ v) (omega (arith, size_of q)) (kind_of q' ∙ v')
  no_meeting m a x k y k' (first p q) (outside (inl o) e') e s v v' = omega arith
  no_meeting m a x k y k' (first p q) (outside (inr o) e') e s v v' = omega (arith, size_of q)
  no_meeting m a x k y k' (second more p q) (first p' q') e s v v' = omega arith
  no_meeting m a x k y k' (second more p q) (second more' p' q') e s v v' = omega arith
  no_meeting m a x k y k' (second more p q) (behind p' q') e s v v' =
      a.rest_end (kind_of q ∙ v) more (kind_of q' ∙ v')
  no_meeting m a x k y k' (second more p q) (outside (inl o) e') e s v v' = omega arith
  no_meeting m a x k y k' (second more p q) (outside (inr o) e') e s v v' = omega (arith, size_of q)
  no_meeting m a x k y k' (behind p q) (first p' q') e s v v' = omega (arith, is.forward)
  no_meeting m a x k y k' (behind p q) (second more p' q') e s v v' = omega arith
  no_meeting m a x k y k' (behind p q) (behind p' q') e s v v' = omega arith
  no_meeting m a x k y k' (behind p q) (outside (inl o) e') e s v v' = omega (arith, is.forward)
  no_meeting m a x k y k' (behind p q) (outside (inr o) e') e s v v' =
      let same : r.e + (is.end).size ≡ y = omega (arith, size_of q) in
      m r.e is.end is.at_end (kind_of q ∙ v) (k', ap h same ∙ e', v')
  no_meeting m a x k y k' (outside (inl o) e₀) (first p' q') e s v v' =
      let ne : k.kind ≢ sentinel = λ w. not_both (sym v ∙ w) in
      let (k'', at, back, pool) = t.next x k e₀ ne in
      let same : is.start ≡ k'' = some_inj (sym is.at_start ∙ (ap h (sym (e ∙ p')) ∙ at)) in
      let prev : r.p ≡ x = sym is.start_prev ∙ (ap (λ (z : Block). z.prev) same ∙ back) in
      a.before (kind_of q' ∙ v') (k, ap h prev ∙ e₀, v)
    where
      not_both : vacant ≢ sentinel
      not_both w = cc
  no_meeting m a x k y k' (outside (inr o) e₀) (first p' q') e s v v' = omega (arith, is.forward)
  no_meeting m a x k y k' (outside (inl o) e₀) (second more p' q') e s v v' =
      omega (arith, t.apart x k r.b is.start e₀ is.at_start o)
  no_meeting m a x k y k' (outside (inr o) e₀) (second more p' q') e s v v' = omega arith
  no_meeting m a x k y k' (outside (inl o) e₀) (behind p' q') e s v v' =
      omega (arith, t.apart x k r.b is.start e₀ is.at_start o, is.forward)
  no_meeting m a x k y k' (outside (inr o) e₀) (behind p' q') e s v v' = omega arith
  no_meeting m a x k y k' (outside o e₀) (outside o' e') e s v v' = m x k e₀ v (k', ap h e ∙ e', v')

  pub replace-IsMerged :
      IsTiled c (replace h r n kind rest)
      → IsMerged h
      → AreApart h r n kind rest (is.end).kind
      → IsMerged (replace h r n kind rest)
  replace-IsMerged t' m a x k e v (k', e', v') =
      let found = Found-cases is n pos fits kind rest in
      let b : IsBlockAt c x k = t'.block x k e in
      no_meeting m a x k (x + k.size) k' (found x k e) (found (x + k.size) k' e') refl b.at_least v
        v'
