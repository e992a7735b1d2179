-- ===== src/Tlsf/Tests/Lists.antt =====
-- The theorems on the free lists at inputs that meet their hypotheses.
use rlsf.Base.{
  ℕ, ◌≡◌, refl, subst, sym, Option, some, [], ◌∷◌, arith, All, Bool-cases, inl, inr, ◌==◌,
  if◌then◌else◌,
}
use rlsf.Tlsf.State.{State, Memory, empty}
use rlsf.Tlsf.Class.Floor.{IsSize, InClass}
use rlsf.Tlsf.Links.{link_free_block, unlink_free_block}
use rlsf.Tlsf.Links.Heap.{IsBlock}
use rlsf.Tlsf.Links.Rep.{Lists, at, set_list, IsFree, SameHeaders, no_lists, empty-IsFree}
use rlsf.Tlsf.Links.Link.{link_free_block-IsFree}
use rlsf.Tlsf.Links.Unlink.{unlink_free_block-IsFree}
use rlsf.Tlsf.Search.{search_suitable_free_block_list_for_allocation}
use rlsf.Tlsf.Search.Fit.{IsFit, search-IsFit}
use rlsf.Tlsf.Allocate.{pop_first}
use rlsf.Tlsf.Allocate.Pop.{pop_first-IsFree}
use rlsf.Tlsf.Tests.{small}
use rlsf.Tlsf.Tests.Classes.{small-IsValid, size_of}

-- A header of a block of 960 bytes.
abbrev header : Memory
header a = if a == 4128 then 960 else 0

empty-IsFree_example : IsFree small (empty header) no_lists
empty-IsFree_example = empty-IsFree small header

block : IsBlock 4128
block = record { ne_null = omega arith; aligned = refl }

size : IsSize 960
size = size_of 960 (omega arith) (omega arith)

class : InClass small 4 7 960
class = record {
  level = omega arith;
  index = omega arith;
  from_min = omega arith;
  below_next = omega arith;
}

-- One free block.
abbrev one : Lists
one = set_list no_lists 4 7 (4128 ∷ [])

one-IsFree :
    (s' : State) × (link_free_block small 4128 960 (empty header) ≡ some s')
    × IsFree small s' one
    × SameHeaders header s'.mem
one-IsFree =
    link_free_block-IsFree 4 7 4128 960 small-IsValid (empty-IsFree small header) block (λ x y. tt)
      size refl class

abbrev state : State
state = one-IsFree.0

sizes : (x y : ℕ) → All (λ b. IsSize (state.mem b)) (one x y)
sizes x y =
    let same : state.mem 4128 ≡ 960 = one-IsFree.3 4128 (omega arith) in
    elim (Bool-cases (at 4 7 x y)) [
      | inl here ↦ rw here (subst IsSize (sym same) size, tt)
      | inr there ↦ rw there tt
    ]

link_free_block-IsFree_example :
    (s' : State) × (link_free_block small 4128 960 (empty header) ≡ some s')
    × IsFree small s' one
    × SameHeaders header s'.mem
link_free_block-IsFree_example =
    link_free_block-IsFree 4 7 4128 960 small-IsValid (empty-IsFree small header) block (λ x y. tt)
      size refl class

unlink_free_block-IsFree_example :
    (s' : State) × (unlink_free_block small 4128 (state.mem 4128) state ≡ some s')
    × IsFree small s' (set_list one 4 7 [])
    × SameHeaders state.mem s'.mem
unlink_free_block-IsFree_example = unlink_free_block-IsFree 4 7 4128 [] [] one-IsFree.2 refl

pop_first-IsFree_example :
    (state.first_free 4 7 ≡ 4128)
    × IsFree small (pop_first small 4 7 (state.first_free 4 7) state) (set_list one 4 7 [])
    × SameHeaders state.mem (pop_first small 4 7 (state.first_free 4 7) state).mem
pop_first-IsFree_example = pop_first-IsFree 4 7 4128 [] one-IsFree.2 refl

search-IsFit_example :
    (r : Option (ℕ × ℕ)) × (search_suitable_free_block_list_for_allocation small 100 state ≡ some r)
    × IsFit small state.mem one 100 r
search-IsFit_example =
    search-IsFit small-IsValid one-IsFree.2 sizes 100 (size_of 100 (omega arith) (omega arith))
