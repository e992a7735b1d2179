-- ===== src/Tlsf/Links/Unlink.antt =====
-- `unlink_free_block` takes a block out of its list.
use rlsf.Base.{
  ℕ, ◌+◌, ◌%◌, ◌≡◌, ◌≢◌, inl, inr, refl, sym, ◌∙◌, subst, false, some, List, [], ◌∷◌, ◌++◌, arith,
  All, All-map, All-last_or, All-middle, All-append_left, All-append_right, NotIn, Distinct,
  Distinct-drop_middle, All-drop_middle, last_or, Bool-cases, ≢→==,
}
use rlsf.Tlsf.Config.{Config}
use rlsf.Tlsf.Class.{map_floor}
use rlsf.Tlsf.State.{State, Memory, set_entry, write}
use rlsf.Tlsf.Links.{unlink_free_block, set_first, set_prev_of, clear_bits}
use rlsf.Tlsf.Links.Heap.{IsBlock, IsList, cons, IsList-blocks, frame}
use rlsf.Tlsf.Links.Remove.{
  IsUnlinked, same-All, prev-eq-last_or, next-IsList, head_aligned, IsList-unlink_first,
  IsList-unlink_behind,
}
use rlsf.Tlsf.Links.Index.{IsIndexed, IsIndexed-mem, set_first-IsIndexed}
use rlsf.Tlsf.Links.Rep.{
  Lists, at-true, IsFree-of_parts, at, set_list, IsFree, SameHeaders, NotIn-of_classes,
  head-NotIn_other, classes_kept, at-false, set_list-classes, set_list-Distinct,
}

-- The writes to memory, at the head of a list and behind it.
module _ (m : Memory) (n : ℕ) where
  pub set_prev_of-IsUnlinked : IsUnlinked m (set_prev_of m n 0) n 0
  unfolding set_prev_of write
  set_prev_of-IsUnlinked = record {
    elsewhere = λ a p r. ground arith;
    back = λ p. ground arith;
    forth = λ p. absurd (p refl);
  }

  behind-IsUnlinked :
      (q : ℕ) → n % 32 ≡ 0 → q % 32 ≡ 0 → IsUnlinked m (write (set_prev_of m n q) (q + 16) n) n q
  unfolding set_prev_of write
  behind-IsUnlinked q al bl = record {
    elsewhere = λ a p r. ground arith;
    back = λ p. ground arith;
    forth = λ p. ground arith;
  }

-- A block `block` in the list (fl, sl), and any memory in which its neighbours are joined.
module _ {c : Config} {s : State} {lists : Lists} (free : IsFree c s lists) (fl sl block : ℕ)
    (xs ys : List ℕ) (here : lists fl sl ≡ xs ++ block ∷ ys) where
  list : IsList s.mem 0 (s.first_free fl sl) (xs ++ block ∷ ys)
  list = subst (IsList s.mem 0 (s.first_free fl sl)) here (free.linked fl sl)

  classes : All (λ b. map_floor c (s.mem b) ≡ some (fl, sl)) (xs ++ block ∷ ys)
  classes = subst (All (λ b. map_floor c (s.mem b) ≡ some (fl, sl))) here (free.classes fl sl)

  distinct : Distinct (xs ++ block ∷ ys)
  distinct = subst Distinct here (free.distinct fl sl)

  next_aligned : s.mem (block + 16) % 32 ≡ 0
  next_aligned = head_aligned (next-IsList block ys xs list)

  -- What holds at null and at the blocks before `block` holds at the previous block.
  pub prev_is : (P : ℕ → Type 0) → P 0 → All P xs → P (s.mem (block + 24))
  prev_is P z h = subst P (sym (prev-eq-last_or block ys xs list)) (at_last xs h)
    where
      at_last : (zs : List ℕ) → All P zs → P (last_or 0 zs)
      at_last [] k = z
      at_last (x ∷ zs) k = All-last_or P 0 x zs k

  before : All IsBlock xs
  before = All-append_left IsBlock xs (block ∷ ys) (IsList-blocks list)

  prev_aligned : s.mem (block + 24) % 32 ≡ 0
  prev_aligned =
      prev_is (λ z. z % 32 ≡ 0) refl
        (All-map IsBlock (λ z. z % 32 ≡ 0) (λ z isz. isz.aligned) xs before)

  rest-Distinct : (x y : ℕ) → Distinct (set_list lists fl sl (xs ++ ys) x y)
  rest-Distinct =
      set_list-Distinct lists fl sl (xs ++ ys) free.distinct
        (Distinct-drop_middle xs block ys distinct)

  module _ {m' : Memory} (u : IsUnlinked s.mem m' (s.mem (block + 16)) (s.mem (block + 24))) where
    pub unlinked-SameHeaders : SameHeaders s.mem m'
    unlinked-SameHeaders a h =
        u.elsewhere a (omega (arith, next_aligned)) (omega (arith, prev_aligned))

    -- The neighbours are in no other list.
    other_list : (x y : ℕ) → at fl sl x y ≡ false → IsList m' 0 (s.first_free x y) (lists x y)
    other_list x y there =
        let blocks = IsList-blocks (free.linked x y) in
        let ne = at-false fl sl x y there in
        let away =
          head-NotIn_other c s.mem (lists x y) (next-IsList block ys xs list)
            (All-append_right (λ b. map_floor c (s.mem b) ≡ some (fl, sl)) xs (block ∷ ys)
              classes).1
            blocks (free.classes x y) ne in
        let away' =
          prev_is (λ z. NotIn z (lists x y))
            (All-map IsBlock (λ z. z ≢ 0) (λ z isz. isz.ne_null) (lists x y) blocks)
            (All-map (λ b. map_floor c (s.mem b) ≡ some (fl, sl)) (λ z. NotIn z (lists x y))
              (λ z k. NotIn-of_classes c s.mem z (lists x y) k (free.classes x y) ne) xs
              (All-append_left (λ b. map_floor c (s.mem b) ≡ some (fl, sl)) xs (block ∷ ys)
                classes)) in
        frame (free.linked x y) (same-All u next_aligned prev_aligned (lists x y) blocks away away')

    kept : (x y : ℕ) → All (λ b. map_floor c (m' b) ≡ some (x, y)) (lists x y)
    kept x y =
        classes_kept c (x, y) (lists x y) unlinked-SameHeaders (IsList-blocks (free.linked x y))
          (free.classes x y)

    rest_classes :
        (x y : ℕ)
        → All (λ b. map_floor c (m' b) ≡ some (x, y)) (set_list lists fl sl (xs ++ ys) x y)
    rest_classes = set_list-classes c m' lists fl sl (xs ++ ys) kept (
        All-drop_middle (λ b. map_floor c (m' b) ≡ some (fl, sl)) xs block ys
          (subst (All (λ b. map_floor c (m' b) ≡ some (fl, sl))) here (kept fl sl)))

-- The head of a list is taken out: by `unlink_free_block`, or by `allocate`.
module _ {c : Config} {s : State} {lists : Lists} (free : IsFree c s lists) (fl sl block : ℕ)
    (ys : List ℕ) (here : lists fl sl ≡ block ∷ ys) where
  abbrev first_memory : Memory
  first_memory = set_prev_of s.mem (s.mem (block + 16)) 0

  abbrev pub popped : State
  popped = set_first c fl sl (s.mem (block + 16)) (record s { mem = first_memory })

  is_first : IsUnlinked s.mem first_memory (s.mem (block + 16)) (s.mem (block + 24))
  is_first =
      subst (IsUnlinked s.mem first_memory (s.mem (block + 16)))
        (sym (prev-eq-last_or block ys [] (list free fl sl block [] ys here)))
        (set_prev_of-IsUnlinked s.mem (s.mem (block + 16)))

  pub head_block : IsBlock block × (s.first_free fl sl ≡ block)
  head_block =
      let l = list free fl sl block [] ys here in
      (All-middle IsBlock [] block ys (IsList-blocks l), head_eq l)
    where
      head_eq : {p : ℕ} → IsList s.mem 0 p (block ∷ ys) → p ≡ block
      head_eq (cons e is back rest) = e

  popped-list :
      (x y : ℕ)
      → IsList first_memory 0
          (set_entry s.first_free fl sl (s.mem (block + 16)) x y)
          (set_list lists fl sl ys x y)
  unfolding set_entry
  popped-list x y = elim (Bool-cases (at fl sl x y)) [
    | inl this ↦ rw this (
        IsList-unlink_first block ys is_first (list free fl sl block [] ys here)
          (distinct free fl sl block [] ys here))
    | inr there ↦ rw there (other_list free fl sl block [] ys here is_first x y there)
  ]

  popped-IsIndexed : IsIndexed c popped
  popped-IsIndexed =
      let (is, e) = head_block in
      set_first-IsIndexed {s = record s { mem = first_memory }} (IsIndexed-mem free.indexed) fl sl
        (s.mem (block + 16)) (λ null. is.ne_null (sym e ∙ null))

  pub popped-mem : popped.mem ≡ first_memory
  unfolding set_first clear_bits
  popped-mem = ground arith

  popped-heads : popped.first_free ≡ set_entry s.first_free fl sl (s.mem (block + 16))
  unfolding set_first clear_bits
  popped-heads = ground arith

  -- What is left are the other blocks of the list.
  pub popped-IsFree : IsFree c popped (set_list lists fl sl ys)
  popped-IsFree =
      IsFree-of_parts popped-mem popped-heads popped-list
        (rest_classes free fl sl block [] ys here is_first)
        (rest-Distinct free fl sl block [] ys here) popped-IsIndexed

  pub popped-SameHeaders : SameHeaders s.mem popped.mem
  popped-SameHeaders =
      subst (SameHeaders s.mem) (sym popped-mem)
        (unlinked-SameHeaders free fl sl block [] ys here is_first)

-- A block behind the head is taken out: the header stays.
module _ {c : Config} {s : State} {lists : Lists} (free : IsFree c s lists) (fl sl block x : ℕ)
    (xs ys : List ℕ) (here : lists fl sl ≡ x ∷ (xs ++ block ∷ ys)) where
  abbrev behind_memory : Memory
  behind_memory =
      write (set_prev_of s.mem (s.mem (block + 16)) (s.mem (block + 24))) (s.mem (block + 24) + 16)
        (s.mem (block + 16))

  is_behind : IsUnlinked s.mem behind_memory (s.mem (block + 16)) (s.mem (block + 24))
  is_behind =
      behind-IsUnlinked s.mem (s.mem (block + 16)) (s.mem (block + 24))
        (next_aligned free fl sl block (x ∷ xs) ys here)
        (prev_aligned free fl sl block (x ∷ xs) ys here)

  behind-list :
      (a b : ℕ)
      → IsList behind_memory 0 (s.first_free a b) (set_list lists fl sl (x ∷ (xs ++ ys)) a b)
  behind-list a b = elim (Bool-cases (at fl sl a b)) [
    | inl this ↦ rw this (
        subst (λ (t : ℕ × ℕ). IsList behind_memory 0 (s.first_free t.0 t.1) (x ∷ (xs ++ ys)))
          (at-true fl sl a b this)
          (IsList-unlink_behind block ys is_behind xs (list free fl sl block (x ∷ xs) ys here)
            (distinct free fl sl block (x ∷ xs) ys here)))
    | inr there ↦ rw there (other_list free fl sl block (x ∷ xs) ys here is_behind a b there)
  ]

  behind-IsFree :
      IsFree c (record s { mem = behind_memory }) (set_list lists fl sl (x ∷ (xs ++ ys)))
  behind-IsFree = record {
    linked = behind-list;
    classes = rest_classes free fl sl block (x ∷ xs) ys here is_behind;
    distinct = rest-Distinct free fl sl block (x ∷ xs) ys here;
    indexed = IsIndexed-mem free.indexed;
  }

-- For well-formed free lists, `unlink_free_block` does not reach `unreachable_unchecked` for a
-- block that is in a list, at whatever place. It takes the block out and keeps the order of the
-- others; the lists are well-formed again, no other list changes, and no header is written.
pub unlink_free_block-IsFree :
    {c : Config} {s : State} {lists : Lists} (fl sl block : ℕ) (xs ys : List ℕ)
    → IsFree c s lists
    → lists fl sl ≡ xs ++ block ∷ ys
    → (s' : State) × (unlink_free_block c block (s.mem block) s ≡ some s')
      × IsFree c s' (set_list lists fl sl (xs ++ ys))
      × SameHeaders s.mem s'.mem
unfolding unlink_free_block
unlink_free_block-IsFree {c} {s} fl sl block [] ys free here =
    let prev : s.mem (block + 24) ≡ 0 =
      prev-eq-last_or block ys [] (list free fl sl block [] ys here) in
    let class : map_floor c (s.mem block) ≡ some (fl, sl) =
      All-middle (λ b. map_floor c (s.mem b) ≡ some (fl, sl)) [] block ys
        (classes free fl sl block [] ys here) in
    (
      popped free fl sl block ys here,
      rw (prev, class) refl,
      popped-IsFree free fl sl block ys here,
      popped-SameHeaders free fl sl block ys here,
    )
unlink_free_block-IsFree {c} {s} fl sl block (x ∷ xs) ys free here =
    let ne : s.mem (block + 24) ≢ 0 =
      subst (λ t. t ≢ 0)
        (sym (prev-eq-last_or block ys (x ∷ xs) (list free fl sl block (x ∷ xs) ys here)))
        (All-last_or (λ z. z ≢ 0) 0 x xs
          (All-map IsBlock (λ z. z ≢ 0) (λ z isz. isz.ne_null) (x ∷ xs)
            (before free fl sl block (x ∷ xs) ys here))) in
    (
      record s { mem = behind_memory free fl sl block x xs ys here },
      rw (≢→== (s.mem (block + 24)) 0 ne) refl,
      behind-IsFree free fl sl block x xs ys here,
      unlinked-SameHeaders free fl sl block (x ∷ xs) ys here
          (is_behind free fl sl block x xs ys here),
    )
