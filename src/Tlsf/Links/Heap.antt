-- ===== src/Tlsf/Links/Heap.antt =====
-- Doubly linked lists of free blocks in memory.
use rlsf.Base.{
  ℕ, ◌+◌, ◌%◌, ◌≡◌, ◌≢◌, refl, sym, ◌∙◌, subst, List, [], ◌∷◌, arith, All, NotIn, Distinct,
}
use rlsf.Tlsf.State.{Memory, write}
use rlsf.Tlsf.Links.{link_writes}

-- The address of a block: a multiple of the granularity that is not null.
pub record IsBlock (b : ℕ) : Type 0 where
  pub ne_null : b ≢ 0
  pub aligned : b % 32 ≡ 0

-- From `p` the `next_free` pointers lead through `bs` to null, and the `prev_free` pointers back
-- to `prev`.
pub data IsList (m : Memory) : (prev p : ℕ) → List ℕ → Type 0 where
  nil : {prev p : ℕ} → p ≡ 0 → IsList m prev p []
  cons :
      {prev p b : ℕ} {bs : List ℕ}
      → p ≡ b
      → IsBlock b
      → m (b + 24) ≡ prev
      → IsList m b (m (b + 16)) bs
      → IsList m prev p (b ∷ bs)

-- The links of one block are the same in two memories.
abbrev pub SameLinks : Memory → Memory → ℕ → Type 0
SameLinks m m' b = (m' (b + 16) ≡ m (b + 16)) × (m' (b + 24) ≡ m (b + 24))

module _ {m : Memory} where
  pub IsList-blocks : {prev p : ℕ} {bs : List ℕ} → IsList m prev p bs → All IsBlock bs
  IsList-blocks (nil e) = tt
  IsList-blocks (cons e is back l) = (is, IsList-blocks l)

  -- A list survives writes elsewhere.
  pub frame :
      {m' : Memory} {prev p : ℕ} {bs : List ℕ}
      → IsList m prev p bs
      → All (SameLinks m m') bs
      → IsList m' prev p bs
  frame (nil e) same = nil e
  frame {m'} (cons {b} {bs} e is back l) same =
      cons e is (same.0.1 ∙ back) (subst (λ t. IsList m' b t bs) (sym same.0.0) (frame l same.1))

  -- A list is empty exactly when its head is null.
  pub nil_of_null : {prev p : ℕ} {bs : List ℕ} → IsList m prev p bs → p ≡ 0 → bs ≡ []
  nil_of_null (nil e) h = refl
  nil_of_null (cons e is back l) h = absurd (is.ne_null (sym e ∙ h))

  pub null_of_nil : {prev p : ℕ} → IsList m prev p [] → p ≡ 0
  null_of_nil (nil e) = e

-- The writes of `link_free_block`.
module _ (m : Memory) (block next : ℕ) (is : IsBlock block) (ne : next ≢ block) where
  link_next : next % 32 ≡ 0 → link_writes m block next (block + 16) ≡ next
  unfolding link_writes write
  link_next al = ground arith

  link_prev : link_writes m block next (block + 24) ≡ 0
  unfolding link_writes write
  link_prev = ground arith

  link_back : next ≢ 0 → link_writes m block next (next + 24) ≡ block
  unfolding link_writes write
  link_back h = ground arith

  pub link_other :
      (a : ℕ) → a ≢ block + 16 → a ≢ block + 24 → a ≢ next + 24 → link_writes m block next a ≡ m a
  unfolding link_writes write
  link_other a p q r = ground arith

  pub link_same :
      (b : ℕ)
      → IsBlock b
      → next % 32 ≡ 0
      → b ≢ block
      → b ≢ next
      → SameLinks m (link_writes m block next) b
  link_same b isb al p q = (
    link_other (b + 16) (omega arith) (omega arith) (omega arith),
    link_other (b + 24) (omega arith) (omega arith) (omega arith),
  )

  pub link_same-All :
      (bs : List ℕ)
      → next % 32 ≡ 0
      → All IsBlock bs
      → NotIn block bs
      → NotIn next bs
      → All (SameLinks m (link_writes m block next)) bs
  link_same-All [] al blocks p q = tt
  link_same-All (b ∷ bs) al blocks p q =
      (link_same b blocks.0 al p.0 q.0, link_same-All bs al blocks.1 p.1 q.1)

-- The new list of `link_free_block` is the old one behind the new block.
pub IsList-link :
    {m : Memory} {next block : ℕ} {bs : List ℕ}
    → IsList m 0 next bs
    → IsBlock block
    → NotIn block bs
    → Distinct bs
    → IsList (link_writes m block next) 0 block (block ∷ bs)
IsList-link {m} {next} {block} (nil e) is out d =
    let ne : next ≢ block = ground (arith, is.ne_null) in
    cons refl is (link_prev m block next is ne)
      (nil (link_next m block next is ne (omega arith) ∙ e))
IsList-link {m} {next} {block} (cons {b} {bs} e isb back l) is out d =
    let ne : next ≢ block = ground (arith, out.0) in
    let al : next % 32 ≡ 0 = ground (arith, isb.aligned) in
    let out_next : NotIn next bs = subst (λ t. NotIn t bs) (sym e) d.0 in
    let same = link_same-All m block next is ne bs al (IsList-blocks l) out.1 out_next in
    let kept =
      link_other m block next is ne (b + 16) (ground (arith, out.0)) (omega arith) (omega arith) in
    let back' = link_back m block next is ne (ground (arith, isb.ne_null)) in
    cons refl is (link_prev m block next is ne) (
      cons (link_next m block next is ne al ∙ e) isb
        (subst (λ t. link_writes m block next (t + 24) ≡ block) e back')
        (subst (λ t. IsList (link_writes m block next) b t bs) (sym kept) (frame l same)))
