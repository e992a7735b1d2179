-- ===== src/Tlsf/Links/Remove.antt =====
-- Taking a block out of a doubly linked list.
use rlsf.Base.{
  ℕ, ◌+◌, ◌%◌, ◌≡◌, ◌≢◌, refl, sym, ◌∙◌, subst, List, [], ◌∷◌, ◌++◌, arith, All, NotIn, Distinct,
  last_or, All-map, All-last_or, All-append_left, All-append_right,
}
use rlsf.Tlsf.State.{Memory}
use rlsf.Tlsf.Links.Heap.{IsBlock, IsList, nil, cons, SameLinks, frame, IsList-blocks}

-- What `unlink_free_block` does to memory: the neighbours `n` and `q` of the block are joined.
pub record IsUnlinked (m m' : Memory) (n q : ℕ) : Type 0 where
  pub elsewhere : (a : ℕ) → a ≢ n + 24 → a ≢ q + 16 → m' a ≡ m a
  pub back : n ≢ 0 → m' (n + 24) ≡ q
  pub forth : q ≢ 0 → m' (q + 16) ≡ n

module _ {m m' : Memory} {n q : ℕ} (u : IsUnlinked m m' n q) (n_al : n % 32 ≡ 0)
    (q_al : q % 32 ≡ 0) where
  same : (b : ℕ) → IsBlock b → b ≢ n → b ≢ q → SameLinks m m' b
  same b is p r = (
    u.elsewhere (b + 16) (omega arith) (omega arith),
    u.elsewhere (b + 24) (omega arith) (omega arith),
  )

  pub same-All : (bs : List ℕ) → All IsBlock bs → NotIn n bs → NotIn q bs → All (SameLinks m m') bs
  same-All [] is p r = tt
  same-All (b ∷ bs) is p r = (same b is.0 p.0 r.0, same-All bs is.1 p.1 r.1)

  -- The part behind the block.
  pub suffix :
      {prev : ℕ} {ys : List ℕ} → IsList m prev n ys → Distinct ys → NotIn q ys → IsList m' q n ys
  suffix (nil e) d out = nil e
  suffix (cons {b} {bs} e is back l) d out =
      let away : NotIn n bs = subst (λ t. NotIn t bs) (sym e) d.0 in
      cons e is (subst (λ t. m' (t + 24) ≡ q) e (u.back (ground (arith, is.ne_null)))) (
        subst (λ t. IsList m' b t bs)
          (sym (u.elsewhere (b + 16) (omega arith) (ground (arith, out.0))))
          (frame l (same-All bs (IsList-blocks l) away out.1)))

-- In a list the block in the middle points back to the one before it, and on to the rest.
module _ {m : Memory} (block : ℕ) (ys : List ℕ) where
  pub prev-eq-last_or :
      (xs : List ℕ) {prev p : ℕ}
      → IsList m prev p (xs ++ block ∷ ys)
      → m (block + 24) ≡ last_or prev xs
  prev-eq-last_or [] (cons e is back l) = back
  prev-eq-last_or (x ∷ xs) (cons e is back l) = prev-eq-last_or xs l

  pub next-IsList :
      (xs : List ℕ) {prev p : ℕ}
      → IsList m prev p (xs ++ block ∷ ys)
      → IsList m block (m (block + 16)) ys
  next-IsList [] (cons e is back l) = l
  next-IsList (x ∷ xs) (cons e is back l) = next-IsList xs l

module _ {m m' : Memory} {n : ℕ} (block : ℕ) (ys : List ℕ) (next_eq : m (block + 16) ≡ n)
    (n_al : n % 32 ≡ 0) where
  -- The part before the block, if there is one: its last block gets a new successor.
  pub remove_behind :
      (xs : List ℕ) {prev p x : ℕ}
      → IsList m prev p (x ∷ (xs ++ block ∷ ys))
      → Distinct (x ∷ (xs ++ block ∷ ys))
      → NotIn n (x ∷ xs)
      → IsUnlinked m m' n (last_or x xs)
      → last_or x xs % 32 ≡ 0
      → IsList m' prev p (x ∷ (xs ++ ys))
  remove_behind [] {x} (cons p_eq is back (cons x_eq is' back' l)) d out u al =
      cons p_eq is (u.elsewhere (x + 24) (ground (arith, out.0)) (omega arith) ∙ back) (
        subst (λ t. IsList m' x t ys) (sym (u.forth is.ne_null))
          (suffix u n_al al (subst (λ t. IsList m block t ys) next_eq l) d.1.1 d.0.1))
  remove_behind (x' ∷ xs) {x} (cons p_eq is back l) d out u al =
      let far : x ≢ last_or x' xs = λ h.
        All-last_or (λ z. z ≢ x) x x' xs (All-append_left (λ z. z ≢ x) (x' ∷ xs) (block ∷ ys) d.0)
          (sym h) in
      cons p_eq is (u.elsewhere (x + 24) (ground (arith, out.0)) (omega arith) ∙ back) (
        subst (λ t. IsList m' x t (x' ∷ (xs ++ ys)))
          (sym (u.elsewhere (x + 16) (omega arith) (ground (arith, far))))
          (remove_behind xs l d.1 out.1 u al))

-- The head of a list is aligned, and is no block outside the list.
module _ {m : Memory} where
  pub head_aligned : {prev n : ℕ} {ys : List ℕ} → IsList m prev n ys → n % 32 ≡ 0
  head_aligned (nil e) = ground arith
  head_aligned (cons e is back l) = ground (arith, is.aligned)

  pub head_ne : {prev n x : ℕ} {ys : List ℕ} → IsList m prev n ys → IsBlock x → NotIn x ys → x ≢ n
  head_ne (nil e) isx out = ground (arith, isx.ne_null)
  head_ne (cons e is back l) isx out = ground (arith, out.0)

  pub head-NotIn :
      (xs : List ℕ) (block : ℕ) (ys : List ℕ) {n : ℕ}
      → IsList m block n ys
      → All IsBlock xs
      → Distinct (xs ++ block ∷ ys)
      → NotIn n xs
  head-NotIn [] block ys l is d = tt
  head-NotIn (x ∷ xs) block ys l is d = (
    head_ne l is.0 (All-append_right (λ z. z ≢ x) xs (block ∷ ys) d.0).1,
    head-NotIn xs block ys l is.1 d.1,
  )

-- What `unlink_free_block` makes of the list of the block, at its head and behind it.
module _ {m m' : Memory} (block : ℕ) (ys : List ℕ)
    (u : IsUnlinked m m' (m (block + 16)) (m (block + 24))) where
  pub IsList-unlink_first :
      {p : ℕ} → IsList m 0 p (block ∷ ys) → Distinct (block ∷ ys) → IsList m' 0 (m (block + 16)) ys
  IsList-unlink_first (cons e is back l) d =
      suffix (subst (IsUnlinked m m' (m (block + 16))) back u) (head_aligned l) (omega arith) l d.1
        (All-map IsBlock (λ z. z ≢ 0) (λ z isz. isz.ne_null) ys (IsList-blocks l))

  pub IsList-unlink_behind :
      {p x : ℕ} (xs : List ℕ)
      → IsList m 0 p (x ∷ (xs ++ block ∷ ys))
      → Distinct (x ∷ (xs ++ block ∷ ys))
      → IsList m' 0 p (x ∷ (xs ++ ys))
  IsList-unlink_behind {x} xs l d =
      let rest = next-IsList block ys (x ∷ xs) l in
      let blocks = All-append_left IsBlock (x ∷ xs) (block ∷ ys) (IsList-blocks l) in
      remove_behind block ys refl (head_aligned rest) xs l d
        (head-NotIn (x ∷ xs) block ys rest blocks d)
        (subst (IsUnlinked m m' (m (block + 16))) (prev-eq-last_or block ys (x ∷ xs) l) u)
        (All-last_or (λ z. z % 32 ≡ 0) 0 x xs
          (All-map IsBlock (λ z. z % 32 ≡ 0) (λ z isz. isz.aligned) (x ∷ xs) blocks))
