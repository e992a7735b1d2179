-- ===== src/Tlsf/Heap/Tiled.antt =====
-- The new view is tiled if the old one was.
use native.Mathlib.Decide.{ℕ_discrete}
use rlsf.Base.{
  ℕ, ◌+◌, ◌-◌, ◌%◌, ◌≤◌, ◌<◌, ◌≡◌, ◌≢◌, ◌⊎◌, inl, inr, refl, sym, ap, ◌∙◌, subst, some, arith,
  some_inj, ≡→==, ≢→==,
}
use rlsf.Tlsf.Config.{Config}
use rlsf.Tlsf.Heap.{Kind, sentinel, Block, View, IsBlockAt, IsTiled}
use rlsf.Tlsf.Heap.Replace.{
  Region, first_tile, rest_tile, last_tile, replace, IsRegion, Found, first, second, behind,
  outside, replace-first, replace-second, replace-end, replace-outside,
}

module _ {c : Config} {h : View} {r : Region} (t : IsTiled c h) (is : IsRegion h r) (n : ℕ)
    (pos : 0 < n) (fits : r.b + n ≤ r.e) (whole : n % 32 ≡ 0) (kind rest : Kind)
    (ns : kind ≢ sentinel) (ns' : rest ≢ sentinel) where
  abbrev pub new : View
  new = replace h r n kind rest

  start_block : IsBlockAt c r.b is.start
  start_block = t.block r.b is.start is.at_start

  end_block : IsBlockAt c r.e is.end
  end_block = t.block r.e is.end is.at_end

  -- A block before the region ends before it.
  pub below_ends : (x : ℕ) (k : Block) → h x ≡ some k → x < r.b → x + k.size ≤ r.b
  below_ends x k e below = t.apart x k r.b is.start e is.at_start below

  pub last-eq : (r.b + n ≡ r.e) → last_tile r n ≡ r.b
  last-eq e = rw (≡→== (r.b + n) r.e e) refl

  pub last-ne : r.b + n < r.e → last_tile r n ≡ r.b + n
  last-ne lt = rw (≢→== (r.b + n) r.e (omega arith)) refl

  pub new_block : (x : ℕ) (k : Block) → Found h r n kind rest is.end x k → IsBlockAt c x k
  new_block x k (first p q) = subst (IsBlockAt c x) q (record {
    ne_null = omega (arith, start_block.ne_null);
    aligned = omega (arith, start_block.aligned);
    whole = whole;
    at_least = omega arith;
    in_word = omega (arith, end_block.in_word);
    from_pool = omega (arith, start_block.from_pool, is.start_pool);
    in_pool = omega (arith, end_block.in_pool, is.end_pool);
  })
  new_block x k (second more p q) = subst (IsBlockAt c x) q (record {
    ne_null = omega (arith, start_block.ne_null);
    aligned = omega (arith, start_block.aligned);
    whole = omega (arith, start_block.aligned, end_block.aligned);
    at_least = omega (arith, start_block.aligned, end_block.aligned);
    in_word = omega (arith, end_block.in_word);
    from_pool = omega (arith, start_block.from_pool, is.start_pool);
    in_pool = omega (arith, end_block.in_pool, is.end_pool);
  })
  new_block x k (behind p q) = subst (IsBlockAt c x) q (record {
    ne_null = omega (arith, end_block.ne_null);
    aligned = omega (arith, end_block.aligned);
    whole = end_block.whole;
    at_least = end_block.at_least;
    in_word = omega (arith, end_block.in_word);
    from_pool = omega (arith, end_block.from_pool);
    in_pool = omega (arith, end_block.in_pool);
  })
  new_block x k (outside p e) = t.block x k e

  -- The block behind a block, in the new view.
  abbrev pub NextOf : ℕ → Block → Type 0
  NextOf x k = (k' : Block) × (new (x + k.size) ≡ some k') × (k'.prev ≡ x) × (k'.pool ≡ k.pool)

  pub new_at : (x y : ℕ) → x ≡ y → (k : Block) → new y ≡ some k → new x ≡ some k
  new_at x y same k e = ap new same ∙ e

  next_first : NextOf r.b (first_tile r n kind)
  next_first = elim (ℕ_discrete (r.b + n) r.e) [
    | yes p ↦ (
      record is.end { prev = last_tile r n },
      new_at (r.b + n) r.e p _ (replace-end is n pos fits kind rest),
      last-eq p,
      is.end_pool,
    )
    | no p ↦ (rest_tile r n rest, replace-second is n pos fits kind rest (omega arith), refl, refl)
  ]

  next_second : r.b + n < r.e → NextOf (r.b + n) (rest_tile r n rest)
  next_second more = (
    record is.end { prev = last_tile r n },
    new_at (r.b + n + (r.e - (r.b + n))) r.e (omega arith) _ (replace-end is n pos fits kind rest),
    last-ne more,
    is.end_pool,
  )

  next_kept :
      (x y : ℕ) (k : Block)
      → h x ≡ some k
      → k.kind ≢ sentinel
      → (y ≡ x + k.size)
      → (y < r.b) ⊎ (r.e < y)
      → NextOf x k
  next_kept x y k e ne same out =
      let (k', at, back, pool) = t.next x k e ne in
      (
        k',
        new_at (x + k.size) y (sym same) k'
            (replace-outside is n pos fits kind rest y out ∙ (ap h same ∙ at)),
        back,
        pool,
      )

  next_outside :
      (x : ℕ) (k : Block) → (x < r.b) ⊎ (r.e < x) → h x ≡ some k → k.kind ≢ sentinel → NextOf x k
  next_outside x k (inr above) e ne = next_kept x (x + k.size) k e ne refl (inr (omega arith))
  next_outside x k (inl below) e ne = elim (ℕ_discrete (x + k.size) r.b) [
    | no p ↦ next_kept x (x + k.size) k e ne refl (inl (omega (arith, below_ends x k e below)))
    | yes p ↦
        let (k', at, back, pool) = t.next x k e ne in
        let same : is.start ≡ k' = some_inj (sym is.at_start ∙ (ap h (sym p) ∙ at)) in
        (
          first_tile r n kind,
          new_at (x + k.size) r.b p _ (replace-first is n pos fits kind rest),
          sym is.start_prev ∙ (ap (λ (z : Block). z.prev) same ∙ back),
          sym is.start_pool ∙ (ap (λ (z : Block). z.pool) same ∙ pool),
        )
  ]

  pub new_next :
      (x : ℕ) (k : Block) → Found h r n kind rest is.end x k → k.kind ≢ sentinel → NextOf x k
  new_next x k (first p q) ne =
      subst (NextOf x) q (subst (λ y. NextOf y (first_tile r n kind)) (sym p) next_first)
  new_next x k (second more p q) ne =
      subst (NextOf x) q (subst (λ y. NextOf y (rest_tile r n rest)) (sym p) (next_second more))
  new_next x k (behind p q) ne =
      let same : is.end.kind ≡ k.kind = ap (λ (z : Block). z.kind) q in
      let kept : NextOf r.e is.end =
        next_kept r.e (r.e + is.end.size) is.end is.at_end (λ s. ne (sym same ∙ s)) refl
          (inr (omega (arith, end_block.at_least))) in
      subst (NextOf x) q
        (subst (λ y. NextOf y (record is.end { prev = last_tile r n })) (sym p) kept)
  new_next x k (outside out e) ne = next_outside x k out e ne
