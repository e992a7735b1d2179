-- ===== src/Tlsf/Links/Rep.antt =====
-- What the free lists of a state are, list by list.
use mathlib.Core.Path.{ap₂}
use rlsf.Base.{
  ℕ, ◌%◌, ◌<◌, ◌≡◌, ◌≢◌, inl, inr, refl, sym, ap, ◌∙◌, subst, Bool, true, false, some, List, [],
  ◌∷◌, arith, All, All-map, NotIn, Distinct, some_inj, ◌==◌, ◌&&◌, if◌then◌else◌, Bool-cases,
}
use rlsf.Tlsf.Config.{Config}
use rlsf.Tlsf.Class.{map_floor}
use rlsf.Tlsf.State.{State, Memory, empty}
use rlsf.Tlsf.Links.Heap.{IsBlock, IsList, nil, cons}
use rlsf.Tlsf.Links.Index.{IsIndexed, empty-IsIndexed}

-- The blocks of each list, in order.
abbrev pub Lists : Type 0
Lists = ℕ → ℕ → List ℕ

abbrev pub at : ℕ → ℕ → ℕ → ℕ → Bool
at fl sl x y = (x == fl) && (y == sl)

-- One list replaced.
abbrev pub set_list : Lists → ℕ → ℕ → List ℕ → Lists
set_list lists fl sl bs x y = if at fl sl x y then bs else lists x y

-- Every list of the header is a doubly linked list of distinct blocks whose sizes belong there,
-- and the bitmaps agree with the heads.
pub record IsFree (c : Config) (s : State) (lists : Lists) : Type 0 where
  pub linked : (fl sl : ℕ) → IsList s.mem 0 (s.first_free fl sl) (lists fl sl)
  pub classes : (fl sl : ℕ) → All (λ b. map_floor c (s.mem b) ≡ some (fl, sl)) (lists fl sl)
  pub distinct : (fl sl : ℕ) → Distinct (lists fl sl)
  pub indexed : IsIndexed c s

abbrev pub no_lists : Lists
no_lists fl sl = []

-- The free lists of `Tlsf::new` are well-formed and empty, whatever is in memory.
pub empty-IsFree : (c : Config) (m : Memory) → IsFree c (empty m) no_lists
empty-IsFree c m = record {
  linked = λ fl sl. nil refl;
  classes = λ fl sl. tt;
  distinct = λ fl sl. tt;
  indexed = empty-IsIndexed c m;
}

-- The headers of blocks, at offsets 0 and 8, are the same in two memories.
abbrev pub SameHeaders : Memory → Memory → Type 0
SameHeaders m m' = (a : ℕ) → a % 32 < 16 → m' a ≡ m a

-- The size classes tell the blocks of two lists apart.
module _ (c : Config) (m : Memory) where
  pub NotIn-of_classes :
      {k k' : ℕ × ℕ} (b : ℕ) (zs : List ℕ)
      → map_floor c (m b) ≡ some k
      → All (λ z. map_floor c (m z) ≡ some k') zs
      → k ≢ k'
      → NotIn b zs
  NotIn-of_classes b [] e is ne = tt
  NotIn-of_classes b (z ∷ zs) e is ne = (
    λ same. ne (some_inj (sym e ∙ (ap (λ (t : ℕ). map_floor c (m t)) (sym same) ∙ is.0))),
    NotIn-of_classes b zs e is.1 ne,
  )

  -- The head of one list is in no other.
  pub head-NotIn_other :
      {k k' : ℕ × ℕ} {prev p : ℕ} {bs : List ℕ} (zs : List ℕ)
      → IsList m prev p bs
      → All (λ b. map_floor c (m b) ≡ some k) bs
      → All IsBlock zs
      → All (λ z. map_floor c (m z) ≡ some k') zs
      → k ≢ k'
      → NotIn p zs
  head-NotIn_other zs (nil e) kb blocks kz ne =
      All-map IsBlock (λ z. z ≢ _) (λ z isz. ground (arith, isz.ne_null)) zs blocks
  head-NotIn_other zs (cons {b} e is back l) kb blocks kz ne =
      subst (λ t. NotIn t zs) (sym e) (NotIn-of_classes b zs kb.0 kz ne)

-- A change of memory that keeps headers keeps the sizes of the blocks.
pub classes_kept :
    (c : Config) {m m' : Memory} (k : ℕ × ℕ) (bs : List ℕ)
    → SameHeaders m m'
    → All IsBlock bs
    → All (λ b. map_floor c (m b) ≡ some k) bs
    → All (λ b. map_floor c (m' b) ≡ some k) bs
classes_kept c k [] same blocks h = tt
classes_kept c k (b ∷ bs) same blocks h = (
  ap (map_floor c) (same b (omega (arith, blocks.0.aligned))) ∙ h.0,
  classes_kept c k bs same blocks.1 h.1,
)

pub at-false : (fl sl x y : ℕ) → at fl sl x y ≡ false → ◌≢◌ {A = ℕ × ℕ} (fl, sl) (x, y)
at-false fl sl x y h e = ground (arith, ap (λ (t : ℕ × ℕ). t.0) e, ap (λ (t : ℕ × ℕ). t.1) e)

pub at-true : (fl sl x y : ℕ) → at fl sl x y ≡ true → ◌≡◌ {A = ℕ × ℕ} (fl, sl) (x, y)
at-true fl sl x y h =
    let (p, q) : (fl ≡ x) × (sl ≡ y) = (ground arith, ground arith) in
    ap₂ {C = ℕ × ℕ} (λ (a b : ℕ). (a, b)) p q

-- The classes of the lists after the replacement of one.
pub set_list-classes :
    (c : Config) (m : Memory) (lists : Lists) (fl sl : ℕ) (bs : List ℕ)
    → ((x y : ℕ) → All (λ b. map_floor c (m b) ≡ some (x, y)) (lists x y))
    → All (λ b. map_floor c (m b) ≡ some (fl, sl)) bs
    → (x y : ℕ) → All (λ b. map_floor c (m b) ≡ some (x, y)) (set_list lists fl sl bs x y)
set_list-classes c m lists fl sl bs h k x y = elim (Bool-cases (at fl sl x y)) [
  | inl here ↦
      rw here
        (subst (λ (t : ℕ × ℕ). All (λ b. map_floor c (m b) ≡ some t) bs) (at-true fl sl x y here) k)
  | inr there ↦ rw there (h x y)
]

pub set_list-Distinct :
    (lists : Lists) (fl sl : ℕ) (bs : List ℕ)
    → ((x y : ℕ) → Distinct (lists x y))
    → Distinct bs
    → (x y : ℕ) → Distinct (set_list lists fl sl bs x y)
set_list-Distinct lists fl sl bs h k x y = elim (Bool-cases (at fl sl x y)) [
  | inl here ↦ rw here k
  | inr there ↦ rw there (h x y)
]

-- The parts of the representation, over the memory and the heads of a state given by equations.
pub IsFree-of_parts :
    {c : Config} {s : State} {lists : Lists} {m : Memory} {heads : ℕ → ℕ → ℕ}
    → s.mem ≡ m
    → s.first_free ≡ heads
    → ((x y : ℕ) → IsList m 0 (heads x y) (lists x y))
    → ((x y : ℕ) → All (λ b. map_floor c (m b) ≡ some (x, y)) (lists x y))
    → ((x y : ℕ) → Distinct (lists x y))
    → IsIndexed c s
    → IsFree c s lists
IsFree-of_parts {c} {s} {lists} {m} mem_eq heads_eq linked classes distinct indexed = record {
  linked = λ x y.
      subst (λ t. IsList t 0 (s.first_free x y) (lists x y)) (sym mem_eq)
        (subst (λ (t : ℕ → ℕ → ℕ). IsList m 0 (t x y) (lists x y)) (sym heads_eq) (linked x y));
  classes = λ x y.
      subst (λ (t : Memory). All (λ b. map_floor c (t b) ≡ some (x, y)) (lists x y)) (sym mem_eq)
        (classes x y);
  distinct = distinct;
  indexed = indexed;
}
