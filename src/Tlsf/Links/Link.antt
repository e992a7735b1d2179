-- ===== src/Tlsf/Links/Link.antt =====
-- `link_free_block` puts a block at the head of the list of its size.
use rlsf.Base.{
  ℕ, ◌<◌, ◌≡◌, ◌≢◌, inl, inr, refl, sym, ap, ◌∙◌, some, ◌∷◌, arith, All, NotIn, Bool-cases,
}
use rlsf.Tlsf.Config.{Config, IsValid}
use rlsf.Tlsf.Class.{map_floor}
use rlsf.Tlsf.Class.Floor.{InClass, IsSize, map_floor_iff}
use rlsf.Tlsf.State.{State, Memory, set_entry}
use rlsf.Tlsf.Links.{link_free_block, link_writes, linked}
use rlsf.Tlsf.Links.Heap.{
  IsBlock, IsList, IsList-blocks, frame, IsList-link, link_same-All, link_other,
}
use rlsf.Tlsf.Links.Remove.{head_aligned, head_ne}
use rlsf.Tlsf.Links.Index.{linked-IsIndexed}
use rlsf.Tlsf.Links.Rep.{
  Lists, at, set_list, IsFree, SameHeaders, head-NotIn_other, classes_kept, at-false,
  set_list-classes, set_list-Distinct,
}

module _ {c : Config} {s : State} {lists : Lists} (free : IsFree c s lists) (fl sl block : ℕ)
    (is : IsBlock block) (fresh : (x y : ℕ) → NotIn block (lists x y))
    (class : map_floor c (s.mem block) ≡ some (fl, sl)) where
  next_ne : s.first_free fl sl ≢ block
  next_ne e = head_ne (free.linked fl sl) is (fresh fl sl) (sym e)

  abbrev after : Memory
  after = link_writes s.mem block (s.first_free fl sl)

  pub after-SameHeaders : SameHeaders s.mem after
  after-SameHeaders a h =
      link_other s.mem block (s.first_free fl sl) is next_ne a (omega arith) (omega arith)
        (omega (arith, head_aligned (free.linked fl sl)))

  after-IsList :
      (x y : ℕ)
      → IsList after 0
          (set_entry s.first_free fl sl block x y)
          (set_list lists fl sl (block ∷ lists fl sl) x y)
  unfolding set_entry
  after-IsList x y = elim (Bool-cases (at fl sl x y)) [
    | inl here ↦ rw here (IsList-link (free.linked fl sl) is (fresh fl sl) (free.distinct fl sl))
    | inr there ↦
        let blocks = IsList-blocks (free.linked x y) in
        let away =
          head-NotIn_other c s.mem (lists x y) (free.linked fl sl) (free.classes fl sl) blocks
            (free.classes x y) (at-false fl sl x y there) in
        rw there (
          frame (free.linked x y) (
            link_same-All s.mem block (s.first_free fl sl) is next_ne (lists x y)
              (head_aligned (free.linked fl sl)) blocks (fresh x y) away))
  ]

  kept : (x y : ℕ) → All (λ b. map_floor c (after b) ≡ some (x, y)) (lists x y)
  kept x y =
      classes_kept c (x, y) (lists x y) after-SameHeaders (IsList-blocks (free.linked x y))
        (free.classes x y)

  -- The header with the new head, over the new memory.
  pub linked-IsFree :
      (fl_in : fl < c.fl_bits) (sl_in : sl < c.sl_bits)
      → IsFree c (linked c s fl sl block after) (set_list lists fl sl (block ∷ lists fl sl))
  unfolding linked
  linked-IsFree fl_in sl_in = record {
    linked = after-IsList;
    classes = set_list-classes c after lists fl sl (block ∷ lists fl sl) kept (
      ap (map_floor c) (after-SameHeaders block (omega (arith, is.aligned))) ∙ class,
      kept fl sl,
    );
    distinct =
        set_list-Distinct lists fl sl (block ∷ lists fl sl) free.distinct
          (fresh fl sl, free.distinct fl sl);
    indexed = linked-IsIndexed free.indexed fl sl fl_in sl_in block after is.ne_null;
  }

-- For valid constants and well-formed free lists, `link_free_block` does not reach
-- `unreachable_unchecked` for an aligned block that is not null, is in no list, and has its size,
-- at least 32 and in the class (fl, sl), in its header. The block becomes the first of the list
-- (fl, sl), the lists are well-formed again, no other list changes, and no header is written.
pub link_free_block-IsFree :
    {c : Config} {s : State} {lists : Lists} (fl sl block size : ℕ)
    → IsValid c
    → IsFree c s lists
    → IsBlock block
    → ((x y : ℕ) → NotIn block (lists x y))
    → IsSize size
    → s.mem block ≡ size
    → InClass c fl sl size
    → (s' : State) × (link_free_block c block size s ≡ some s')
      × IsFree c s' (set_list lists fl sl (block ∷ lists fl sl))
      × SameHeaders s.mem s'.mem
unfolding link_free_block
link_free_block-IsFree {c} {s} fl sl block size v free is fresh size_is size_eq k =
    let found = (map_floor_iff v fl sl size size_is).1 k in
    let class = ap (map_floor c) size_eq ∙ found in
    let fl_in : fl < c.fl_bits = omega (arith, k.level, v.first_fits) in
    let sl_in : sl < c.sl_bits = omega (arith, k.index, v.second_fits) in
    (
      linked c s fl sl block (after free fl sl block is fresh class),
      rw found refl,
      linked-IsFree free fl sl block is fresh class fl_in sl_in,
      after-SameHeaders free fl sl block is fresh class,
    )
