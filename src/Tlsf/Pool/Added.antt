-- ===== src/Tlsf/Pool/Added.antt =====
-- The view of a heap with a new chunk: a vacant block and a sentinel.
use rlsf.Base.{
  ℕ, ◌+◌, ◌-◌, ◌%◌, ◌^◌, ◌≤◌, ◌<◌, ◌≡◌, ◌≢◌, ◌⊎◌, inl, inr, refl, sym, ap, ◌∙◌, subst, some, arith,
  some_inj, ◌==◌, if◌then◌else◌,
}
use native.Mathlib.Decide.{ℕ_discrete}
use rlsf.Tlsf.Config.{Config}
use rlsf.Tlsf.Heap.{vacant, sentinel, Block, View, IsBlockAt, IsTiled}
use rlsf.Tlsf.Heap.Placed.{vacant-ne-sentinel}

-- The vacant block of a chunk of `n` bytes at `a`.
abbrev pub free_of : ℕ → ℕ → Block
free_of a n = record { size = n - 32; prev = 0; kind = vacant; pool = a }

abbrev pub cap_of : ℕ → Block
cap_of a = record { size = 32; prev = a; kind = sentinel; pool = a }

unfoldable pub add_chunk : View → ℕ → ℕ → View
add_chunk h a n x =
    if x == a then some (free_of a n) else if x == a + n - 32 then some (cap_of a) else h x

-- The blocks of the view are outside of a range.
abbrev pub Spares : View → ℕ → ℕ → Type 0
Spares h a n = (z : ℕ) (k : Block) → h z ≡ some k → (z + k.size ≤ a) ⊎ (a + n ≤ z)

pub data Added (h : View) (a n x : ℕ) (k : Block) : Type 0 where
  free : x ≡ a → free_of a n ≡ k → Added h a n x k
  cap : x ≡ a + n - 32 → cap_of a ≡ k → Added h a n x k
  kept : h x ≡ some k → (x + k.size ≤ a) ⊎ (a + n ≤ x) → Added h a n x k

-- A chunk that the allocator can manage.
pub record IsChunk (c : Config) (a n : ℕ) : Type 0 where
  pub ne_null : a ≢ 0
  pub aligned : a % 32 ≡ 0
  pub whole : n % 32 ≡ 0
  pub at_least : 64 ≤ n
  pub in_word : a + n < 2 ^ 64
  pub at_most : n ≤ 2 ^ (c.fllen + 5)

module _ {c : Config} {h : View} (t : IsTiled c h) {a n : ℕ} (is : IsChunk c a n)
    (spares : Spares h a n) where
  abbrev added : View
  added = add_chunk h a n

  pub added-free : added a ≡ some (free_of a n)
  unfolding add_chunk
  added-free = ground arith

  pub added-cap : added (a + n - 32) ≡ some (cap_of a)
  unfolding add_chunk
  added-cap = ground (arith, is.at_least)

  added-other : (x : ℕ) → x ≢ a → x ≢ a + n - 32 → added x ≡ h x
  unfolding add_chunk
  added-other x p q = ground arith

  out_of : (x : ℕ) (k : Block) → h x ≡ some k → (x ≢ a) × (x ≢ a + n - 32)
  out_of x k e =
      let b : IsBlockAt c x k = t.block x k e in
      elim (spares x k e) [
        | inl low ↦ (λ q. omega (arith, b.at_least), λ q. omega (arith, b.at_least, is.at_least))
        | inr high ↦ (λ q. omega (arith, is.at_least), λ q. omega (arith, is.at_least))
      ]

  -- The old blocks are as they were.
  pub added-kept : (x : ℕ) (k : Block) → h x ≡ some k → added x ≡ some k
  added-kept x k e = added-other x (out_of x k e).0 (out_of x k e).1 ∙ e

  pub Added-cases : (x : ℕ) (k : Block) → added x ≡ some k → Added h a n x k
  Added-cases x k e = elim (ℕ_discrete x a) [
    | yes p ↦ free p (some_inj (sym added-free ∙ (ap added (sym p) ∙ e)))
    | no p ↦ elim (ℕ_discrete x (a + n - 32)) [
      | yes q ↦ cap q (some_inj (sym added-cap ∙ (ap added (sym q) ∙ e)))
      | no q ↦ let e' : h x ≡ some k = sym (added-other x p q) ∙ e in kept e' (spares x k e')
    ]
  ]

  pub free-IsBlockAt : IsBlockAt c a (free_of a n)
  free-IsBlockAt = record {
    ne_null = is.ne_null;
    aligned = is.aligned;
    whole = omega (arith, is.whole);
    at_least = omega (arith, is.at_least);
    in_word = omega (arith, is.in_word);
    from_pool = omega arith;
    in_pool = omega (arith, is.at_most);
  }

  cap-IsBlockAt : IsBlockAt c (a + n - 32) (cap_of a)
  cap-IsBlockAt = record {
    ne_null = omega (arith, is.ne_null, is.at_least);
    aligned = omega (arith, is.whole, is.aligned, is.at_least);
    whole = refl;
    at_least = omega arith;
    in_word = omega (arith, is.in_word);
    from_pool = omega (arith, is.at_least);
    in_pool = omega (arith, is.at_most, is.at_least);
  }

  size_of : {k k' : Block} → k ≡ k' → k.size ≡ k'.size
  size_of e = ap (λ (z : Block). z.size) e

  kind_of : {k k' : Block} → k ≡ k' → k.kind ≡ k'.kind
  kind_of e = ap (λ (z : Block). z.kind) e

  added_block : (x : ℕ) (k : Block) → Added h a n x k → IsBlockAt c x k
  added_block x k (free p q) =
      subst (IsBlockAt c x) q (subst (λ z. IsBlockAt c z (free_of a n)) (sym p) free-IsBlockAt)
  added_block x k (cap p q) =
      subst (IsBlockAt c x) q (subst (λ z. IsBlockAt c z (cap_of a)) (sym p) cap-IsBlockAt)
  added_block x k (kept e o) = t.block x k e

  added_next :
      (x : ℕ) (k : Block)
      → Added h a n x k
      → k.kind ≢ sentinel
      → (k' : Block) × (added (x + k.size) ≡ some k') × (k'.prev ≡ x) × (k'.pool ≡ k.pool)
  added_next x k (free p q) ne = (
    cap_of a,
    ap added (omega (arith, size_of q, is.at_least)) ∙ added-cap,
    sym p,
    ap (λ (z : Block). z.pool) q,
  )
  added_next x k (cap p q) ne = absurd (ne (sym (kind_of q)))
  added_next x k (kept e o) ne =
      let (k', at, back, pool) = t.next x k e ne in (k', added-kept (x + k.size) k' at, back, pool)

  added_back :
      (x : ℕ) (k : Block)
      → Added h a n x k
      → (k.prev ≡ 0)
        ⊎ ((k' : Block) × (added k.prev ≡ some k') × (k.prev + k'.size ≡ x) × (k'.kind ≢ sentinel))
  added_back x k (free p q) = inl (ap (λ (z : Block). z.prev) (sym q))
  added_back x k (cap p q) =
      let prev : k.prev ≡ a = ap (λ (z : Block). z.prev) (sym q) in
      inr (
        free_of a n,
        ap added prev ∙ added-free,
        omega (arith, prev, is.at_least),
        vacant-ne-sentinel,
      )
  added_back x k (kept e o) = elim (t.back x k e) [
    | inl null ↦ inl null
    | inr (k', at, sum, ne) ↦ inr (k', added-kept k.prev k' at, sum, ne)
  ]

  added_apart :
      (x : ℕ) (k : Block) (y : ℕ) (k' : Block)
      → Added h a n x k
      → Added h a n y k'
      → 32 ≤ k.size
      → 32 ≤ k'.size
      → x < y
      → x + k.size ≤ y
  added_apart x k y k' (free p q) (free p' q') b b' lt = omega arith
  added_apart x k y k' (free p q) (cap p' q') b b' lt = omega (arith, size_of q)
  added_apart x k y k' (free p q) (kept e' (inl o')) b b' lt = omega arith
  added_apart x k y k' (free p q) (kept e' (inr o')) b b' lt = omega (arith, size_of q)
  added_apart x k y k' (cap p q) (free p' q') b b' lt = omega (arith, is.at_least)
  added_apart x k y k' (cap p q) (cap p' q') b b' lt = omega arith
  added_apart x k y k' (cap p q) (kept e' (inl o')) b b' lt = omega (arith, is.at_least)
  added_apart x k y k' (cap p q) (kept e' (inr o')) b b' lt = omega (arith, size_of q, is.at_least)
  added_apart x k y k' (kept e (inl o)) (free p' q') b b' lt = omega arith
  added_apart x k y k' (kept e (inr o)) (free p' q') b b' lt = omega arith
  added_apart x k y k' (kept e (inl o)) (cap p' q') b b' lt = omega (arith, is.at_least)
  added_apart x k y k' (kept e (inr o)) (cap p' q') b b' lt = omega arith
  added_apart x k y k' (kept e o) (kept e' o') b b' lt = t.apart x k y k' e e' lt

  pub added-IsTiled : IsTiled c added
  added-IsTiled = record {
    block = λ x k e. added_block x k (Added-cases x k e);
    next = λ x k e ne. added_next x k (Added-cases x k e) ne;
    back = λ x k e. added_back x k (Added-cases x k e);
    apart = λ x k y k' e e' lt.
        let b : IsBlockAt c x k = added_block x k (Added-cases x k e) in
        let b' : IsBlockAt c y k' = added_block y k' (Added-cases y k' e') in
        added_apart x k y k' (Added-cases x k e) (Added-cases y k' e') b.at_least b'.at_least lt;
  }
