-- ===== src/Tlsf/Heap/Members.antt =====
-- The free lists as a set of addresses: what linking, unlinking and other writes make of it.
use rlsf.Base.{
  some_inj, ℕ, ◌+◌, ◌^◌, ◌<◌, ◌≡◌, ◌≢◌, ◌⊎◌, inl, inr, refl, sym, ap, ◌∙◌, subst, some, List, [],
  ◌∷◌, ◌++◌, arith, All, All-both, All-map, All-middle, All-drop_middle, NotIn, Distinct,
  Distinct-middle, Bool-cases, false, Option-cases,
}
use rlsf.Tlsf.Config.{Config, IsValid}
use rlsf.Tlsf.Class.{map_floor}
use rlsf.Tlsf.Class.Floor.{IsSize, map_floor_iff, map_floor-none_iff}
use rlsf.Tlsf.State.{State, Memory}
use rlsf.Tlsf.Links.{link_free_block, unlink_free_block}
use rlsf.Tlsf.Links.Heap.{IsBlock, SameLinks, frame}
use rlsf.Tlsf.Links.Index.{IsIndexed-mem}
use rlsf.Tlsf.Links.Rep.{
  Lists, at, at-true, at-false, set_list, IsFree, SameHeaders, NotIn-of_classes,
}
use rlsf.Tlsf.Links.Link.{link_free_block-IsFree}
use rlsf.Tlsf.Links.Unlink.{unlink_free_block-IsFree}
use rlsf.Tlsf.Heap.{IsIn, Holds}

pub split_at :
    (z : ℕ) (zs : List ℕ) → IsIn z zs → (xs : List ℕ) × (ys : List ℕ) × (zs ≡ xs ++ z ∷ ys)
split_at z [] i = absurd i
split_at z (x ∷ zs) (inl e) = ([], zs, ap (λ (t : ℕ). t ∷ zs) (sym e))
split_at z (x ∷ zs) (inr i) =
    let (xs, ys, e) = split_at z zs i in (x ∷ xs, ys, ap (λ (t : List ℕ). x ∷ t) e)

IsIn-drop : (z b : ℕ) (xs ys : List ℕ) → IsIn z (xs ++ b ∷ ys) → z ≢ b → IsIn z (xs ++ ys)
IsIn-drop z b [] ys (inl e) ne = absurd (ne e)
IsIn-drop z b [] ys (inr i) ne = i
IsIn-drop z b (x ∷ xs) ys (inl e) ne = inl e
IsIn-drop z b (x ∷ xs) ys (inr i) ne = inr (IsIn-drop z b xs ys i ne)

-- The lists with one of them replaced.
module _ (lists : Lists) (fl sl : ℕ) (bs : List ℕ) where
  set_list-All :
      (P : ℕ → Type 0)
      → All P bs
      → ((x y : ℕ) → at fl sl x y ≡ false → All P (lists x y))
      → (x y : ℕ) → All P (set_list lists fl sl bs x y)
  set_list-All P h k x y = elim (Bool-cases (at fl sl x y)) [
    | inl here ↦ rw here h
    | inr there ↦ rw there (k x y there)
  ]

  set_list-IsIn_here :
      (z : ℕ) → IsIn z bs → (x : ℕ) × (y : ℕ) × IsIn z (set_list lists fl sl bs x y)
  set_list-IsIn_here z i = (fl, sl, ground (arith, i))

  set_list-IsIn :
      (z x y : ℕ)
      → IsIn z (lists x y)
      → (IsIn z (lists fl sl) → IsIn z bs)
      → (x : ℕ) × (y : ℕ) × IsIn z (set_list lists fl sl bs x y)
  set_list-IsIn z x y i kept = elim (Bool-cases (at fl sl x y)) [
    | inl here ↦
        set_list-IsIn_here z
          (kept (subst (λ (t : ℕ × ℕ). IsIn z (lists t.0 t.1)) (sym (at-true fl sl x y here)) i))
    | inr there ↦ (x, y, rw there i)
  ]

-- Another description of the same set.
pub Holds-same :
    {lists : Lists} {P Q : ℕ → Type 0}
    → Holds lists P
    → ((z : ℕ) → P z → Q z)
    → ((z : ℕ) → Q z → P z)
    → Holds lists Q
Holds-same {lists} {P} {Q} h to from = record {
  only = λ x y. All-map P Q to (lists x y) (h.only x y);
  every = λ z q. h.every z (from z q);
}

module _ {c : Config} {s : State} {lists : Lists} {P : ℕ → Type 0} (free : IsFree c s lists)
    (h : Holds lists P) where
  -- Writes that spare the sizes and the links of the free blocks.
  pub spared-IsFree :
      (m' : Memory)
      → ((z : ℕ) → P z → (m' z ≡ s.mem z) × SameLinks s.mem m' z)
      → IsFree c (record s { mem = m' }) lists
  spared-IsFree m' spared = record {
    linked = λ x y.
        frame (free.linked x y)
          (All-map P (SameLinks s.mem m') (λ z p. (spared z p).1) (lists x y) (h.only x y));
    classes = λ x y.
        All-map (λ b. P b × (map_floor c (s.mem b) ≡ some (x, y)))
          (λ b. map_floor c (m' b) ≡ some (x, y)) (λ b k. ap (map_floor c) (spared b k.0).0 ∙ k.1)
          (lists x y)
          (All-both P (λ b. map_floor c (s.mem b) ≡ some (x, y)) (lists x y) (h.only x y)
            (free.classes x y));
    distinct = free.distinct;
    indexed = IsIndexed-mem free.indexed;
  }

  -- The lists without the block `b`, wherever it was in its list.
  module _ (b fl sl : ℕ) (xs ys : List ℕ) (e : lists fl sl ≡ xs ++ b ∷ ys) where
    others : (x y : ℕ) → at fl sl x y ≡ false → All (λ z. P z × (z ≢ b)) (lists x y)
    others x y ne =
        let class : map_floor c (s.mem b) ≡ some (fl, sl) =
          All-middle (λ z. map_floor c (s.mem z) ≡ some (fl, sl)) xs b ys
            (subst (All (λ z. map_floor c (s.mem z) ≡ some (fl, sl))) e (free.classes fl sl)) in
        All-both P (λ z. z ≢ b) (lists x y) (h.only x y)
          (NotIn-of_classes c s.mem b (lists x y) class (free.classes x y) (at-false fl sl x y ne))

    rest : All (λ z. P z × (z ≢ b)) (xs ++ ys)
    rest =
        All-both P (λ z. z ≢ b) (xs ++ ys)
          (All-drop_middle P xs b ys (subst (All P) e (h.only fl sl)))
          (Distinct-middle xs b ys (subst Distinct e (free.distinct fl sl)))

    pub drop-Holds : Holds (set_list lists fl sl (xs ++ ys)) (λ z. P z × (z ≢ b))
    drop-Holds = record {
      only = set_list-All lists fl sl (xs ++ ys) (λ z. P z × (z ≢ b)) rest others;
      every = λ z k.
          let (x, y, i) = h.every z k.0 in
          set_list-IsIn lists fl sl (xs ++ ys) z x y i
            (λ j. IsIn-drop z b xs ys (subst (IsIn z) e j) k.1);
    }

  pub link-Holds :
      (b size : ℕ)
      → IsValid c
      → IsBlock b
      → ¬ P b
      → IsSize size
      → size < 2 ^ (c.fllen + 5)
      → s.mem b ≡ size
      → (s' : State) × (lists' : Lists) × (link_free_block c b size s ≡ some s')
        × IsFree c s' lists'
        × SameHeaders s.mem s'.mem
        × Holds lists' (λ z. P z ⊎ (z ≡ b))
  link-Holds b size v is fresh size_is fits size_eq = elim (Option-cases (map_floor c size)) [
    | inl none_eq ↦ absurd (omega (arith, (map_floor-none_iff v size size_is).0 none_eq))
    | inr ((fl, sl), some_eq) ↦
        let class = (map_floor_iff v fl sl size size_is).0 some_eq in
        let (s', run, free', same) =
          link_free_block-IsFree fl sl b size v free is new size_is size_eq class in
        (s', set_list lists fl sl (b ∷ lists fl sl), run, free', same, joined fl sl)
  ]
    where
      new : (x y : ℕ) → NotIn b (lists x y)
      new x y = All-map P (λ z. z ≢ b) (λ z p e. fresh (subst P e p)) (lists x y) (h.only x y)

      joined : (fl sl : ℕ) → Holds (set_list lists fl sl (b ∷ lists fl sl)) (λ z. P z ⊎ (z ≡ b))
      joined fl sl = record {
        only =
            set_list-All lists fl sl (b ∷ lists fl sl) (λ z. P z ⊎ (z ≡ b))
              (inr refl, All-map P (λ z. P z ⊎ (z ≡ b)) (λ z p. inl p) (lists fl sl) (h.only fl sl))
              (λ x y ne. All-map P (λ z. P z ⊎ (z ≡ b)) (λ z p. inl p) (lists x y) (h.only x y));
        every = λ z k. elim k [
          | inl p ↦
              let (x, y, i) = h.every z p in
              set_list-IsIn lists fl sl (b ∷ lists fl sl) z x y i (λ j. inr j)
          | inr e ↦ set_list-IsIn_here lists fl sl (b ∷ lists fl sl) z (inl e)
        ];
      }

module _ {c : Config} {s : State} {lists : Lists} {P : ℕ → Type 0} (free : IsFree c s lists)
    (h : Holds lists P) where
  pub unlink-Holds :
      (b : ℕ)
      → P b
      → (s' : State) × (lists' : Lists) × (unlink_free_block c b (s.mem b) s ≡ some s')
        × IsFree c s' lists'
        × SameHeaders s.mem s'.mem
        × Holds lists' (λ z. P z × (z ≢ b))
  unlink-Holds b p =
      let (fl, sl, i) = h.every b p in
      let (xs, ys, e) = split_at b (lists fl sl) i in
      let (s', run, free', same) = unlink_free_block-IsFree fl sl b xs ys free e in
      (s', set_list lists fl sl (xs ++ ys), run, free', same, drop-Holds free h b fl sl xs ys e)

  pub unlink-SameHeaders :
      (b : ℕ) (s' : State)
      → P b
      → unlink_free_block c b (s.mem b) s ≡ some s'
      → SameHeaders s.mem s'.mem
  unlink-SameHeaders b s' p run =
      let (t, lists', run', free', same, holds') = unlink-Holds b p in
      subst (λ (t : State). SameHeaders s.mem t.mem) (some_inj (sym run' ∙ run)) same
