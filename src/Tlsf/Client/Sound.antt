-- ===== src/Tlsf/Client/Sound.antt =====
-- Every step of a client keeps the heap and the blocks of its allocations.
use rlsf.Base.{
  ℕ, ◌≡◌, ◌≢◌, refl, sym, ◌∙◌, subst, some, List, ◌∷◌, ◌++◌, All, All-map, All-drop_middle,
  All-both,
}
use mathlib.Core.Option.{none-ne-some}
use rlsf.Tlsf.Config.{Config}
use rlsf.Tlsf.State.{Memory}
use rlsf.Tlsf.Links.Rep.{Lists}
use rlsf.Tlsf.Heap.{vacant, Block, View, IsHeap}
use rlsf.Tlsf.Heap.Contents.{SameContents}
use rlsf.Tlsf.Heap.Placed.{occupied-ne-vacant}
use rlsf.Tlsf.Heap.Replace.{HasByte}
use rlsf.Tlsf.Heap.New.{no_blocks, empty-IsHeap}
use rlsf.Tlsf.Links.Rep.{no_lists}
use rlsf.Tlsf.Allocate.Take.{Stays}
use rlsf.Tlsf.Client.{Live, World, start}
use rlsf.Tlsf.Client.Pools.{InPools}
use rlsf.Tlsf.Client.Owned.{owner, IsOwned, header_kept, Pairs, Pairs-middle, Differ}

-- The state is a heap, in which each allocation has a used block of its own, and the blocks are in
-- the ranges that were handed over.
pub record IsSound (c : Config) (w : World) : Type 0 where
  pub lists : Lists
  pub view : View
  pub heap : IsHeap c w.state lists view
  pub owned : All (IsOwned view (w.state).mem) w.live
  pub distinct : Pairs (Differ (w.state).mem) w.live
  pub covered : (x : ℕ) → HasByte view x → InPools w.pools x

module _ {c : Config} {w : World} (sound : IsSound c w) where
  abbrev pub m₀ : Memory
  m₀ = (w.state).mem

  -- A change of memory that leaves the contents of used blocks.
  pub header_same :
      (m' : Memory)
      → SameContents sound.view m₀ m'
      → (x : Live) → IsOwned sound.view m₀ x
      → owner m' x ≡ owner m₀ x
  header_same m' same x o = header_kept o m₀ m' refl (λ a i. same (owner m₀ x) a i)

  pub used_Stays :
      {h' : View}
      → ((z : ℕ) (k : Block) → sound.view z ≡ some k → k.kind ≢ vacant → Stays sound.view h' z)
      → (x : Live) → IsOwned sound.view m₀ x
      → Stays sound.view h' (owner m₀ x)
  used_Stays stays x o = stays (owner m₀ x) o.block o.at (λ q. occupied-ne-vacant (sym o.used ∙ q))

  -- The allocation `x` among the others.
  pub split_sound :
      (xs : List Live) (x : Live) (ys : List Live)
      → w.live ≡ xs ++ x ∷ ys
      → All (IsOwned sound.view m₀) (xs ++ x ∷ ys) × Pairs (Differ m₀) (xs ++ x ∷ ys)
  split_sound xs x ys split = (
    subst (All (IsOwned sound.view m₀)) split sound.owned,
    subst (Pairs (Differ m₀)) split sound.distinct,
  )

  pub others_of :
      (xs : List Live) (x : Live) (ys : List Live)
      → All (IsOwned sound.view m₀) (xs ++ x ∷ ys)
      → Pairs (Differ m₀) (xs ++ x ∷ ys)
      → All (λ y. IsOwned sound.view m₀ y × (owner m₀ y ≢ owner m₀ x)) (xs ++ ys)
  others_of xs x ys all pairs =
      All-both (IsOwned sound.view m₀) (λ y. owner m₀ y ≢ owner m₀ x) (xs ++ ys)
        (All-drop_middle (IsOwned sound.view m₀) xs x ys all)
        (All-map (Differ m₀ x) (λ y. owner m₀ y ≢ owner m₀ x) (λ y ne e. ne (sym e)) (xs ++ ys)
          (Pairs-middle (Differ m₀) xs x ys (λ y z ne e. ne (sym e)) pairs))

pub start-IsSound : (c : Config) (m : Memory) → IsSound c (start m)
start-IsSound c m = record {
  lists = no_lists;
  view = no_blocks;
  heap = empty-IsHeap c m;
  owned = tt;
  distinct = tt;
  covered = λ x i. absurd (none-ne-some i.block i.at);
}
