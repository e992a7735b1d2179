-- ===== src/Tlsf/Allocate/Grant.antt =====
-- When `allocate` finds a block: a vacant block a little larger than the layout needs is enough.
use rlsf.Base.{
  ℕ, ◌+◌, ◌*◌, ◌^◌, ◌≤◌, ◌<◌, ◌≡◌, ◌≢◌, subst, Option, none, some, List, [], All, All-middle, arith,
  mul_le_mul,
}
use native.Mathlib.Decide.{dec_lt}
use rlsf.Tlsf.Config.{Config, IsValid}
use rlsf.Tlsf.Class.{map_floor}
use rlsf.Tlsf.Class.Floor.{InClass, map_floor_iff}
use rlsf.Tlsf.State.{State}
use rlsf.Tlsf.Links.Rep.{Lists}
use rlsf.Tlsf.Search.Fit.{IsFit, no_fit, Covers}
use rlsf.Tlsf.Request.{Layout, search_size}
use rlsf.Tlsf.Heap.{vacant, Block, View, IsIn, IsHeap}
use rlsf.Tlsf.Heap.Members.{split_at}
use rlsf.Tlsf.Allocate.{allocate}
use rlsf.Tlsf.Allocate.Take.{vacant_word, vacant_IsSize}
use rlsf.Tlsf.Allocate.Outcome.{Outcome, refused, granted, allocate-Outcome}

-- A list covers all sizes that are smaller by one part in `SLLEN` than a size in it.
Covers-of_InClass :
    {c : Config} {x y size : ℕ} (need : ℕ)
    → InClass c x y size
    → need * (c.sllen + 1) ≤ size * c.sllen
    → Covers c need x y
Covers-of_InClass {c} {x} {y} {size} need is slack =
    let unit = 2 ^ (x + 5) in
    elim (dec_lt need unit) [
      | yes below ↦ (
        is.index,
        omega (
          arith,
          mul_le_mul need unit c.sllen (omega arith),
          mul_le_mul c.sllen (c.sllen + y) unit (omega arith),
        ),
      )
      | no above ↦ (is.index, omega (arith, is.below_next, slack))
    ]

occupied_list : (z : ℕ) (zs : List ℕ) → IsIn z zs → zs ≢ []
occupied_list z zs i e = subst (IsIn z) e i

pub data IsGranted (c : Config) (l : Layout) (s : State) : Type 0 where
  grants : (p : ℕ) (s' : State) → allocate c l s ≡ some (some p, s') → IsGranted c l s

module _ {c : Config} {s : State} {lists : Lists} {h : View} (heap : IsHeap c s lists h)
    (v : IsValid c) (l : Layout) where
  -- The list of a vacant block.
  listed :
      (z : ℕ) (k : Block)
      → h z ≡ some k
      → k.kind ≡ vacant
      → (x : ℕ) × (y : ℕ) × (lists x y ≢ []) × InClass c x y k.size
  listed z k e vac =
      let (x, y, i) = heap.holds.every z (k, e, vac) in
      let (xs, ys, split) = split_at z (lists x y) i in
      let class : map_floor c (s.mem z) ≡ some (x, y) =
        All-middle (λ b. map_floor c (s.mem b) ≡ some (x, y)) xs z ys
          (subst (All (λ b. map_floor c (s.mem b) ≡ some (x, y))) split (heap.free.classes x y)) in
      (
        x,
        y,
        occupied_list z (lists x y) i,
        subst (InClass c x y) (vacant_word heap z k e vac)
            ((map_floor_iff v x y (s.mem z) (vacant_IsSize heap z (k, e, vac))).0 class),
      )

  -- No list is left out where one covers the size.
  not_refused :
      (t : Option ℕ × State) (need x y : ℕ)
      → search_size l ≡ some need
      → lists x y ≢ []
      → Covers c need x y
      → allocate c l s ≡ some t
      → Outcome c l s lists h t
      → IsGranted c l s
  not_refused _ need x y e ne covers run (refused none_fits) = absurd (unfit (none_fits need e))
    where
      unfit : ¬ IsFit c s.mem lists need none
      unfit (no_fit all) = all x y covers ne
  not_refused _ need x y e ne covers run (granted p s' lists' h' heap' is same) = grants p s' run

  -- For valid constants, a heap and an alignment that is a power of two of the word, `allocate`
  -- returns a pointer if some vacant block is larger by one part in `SLLEN` than the size that it
  -- searches for.
  pub allocate-IsGranted :
      (a need z : ℕ) (k : Block)
      → a < 64
      → l.align ≡ 2 ^ a
      → search_size l ≡ some need
      → h z ≡ some k
      → k.kind ≡ vacant
      → need * (c.sllen + 1) ≤ k.size * c.sllen
      → IsGranted c l s
  allocate-IsGranted a need z k lt power fits e vac slack =
      let (x, y, ne, class) = listed z k e vac in
      let (t, run, out) = allocate-Outcome heap v l a lt power in
      not_refused t need x y fits ne (Covers-of_InClass need class slack) run out
