-- ===== src/Tlsf/Client/Safety.antt =====
-- What every client can rely on, over any sequence of steps.
use native.Mathlib.Decide.{dec_lt}
use rlsf.Base.{
  ℕ, ◌+◌, ◌%◌, ◌^◌, ◌≤◌, ◌<◌, ◌≡◌, ◌≢◌, ◌⊎◌, inl, inr, refl, subst, Option, some, arith, List, ◌∷◌,
  ◌++◌, All, All-map, All-middle,
}
use rlsf.Tlsf.Config.{Config, IsValid}
use rlsf.Tlsf.State.{State, Memory}
use rlsf.Tlsf.Request.{Layout}
use rlsf.Tlsf.Allocate.{allocate}
use rlsf.Tlsf.Allocate.Outcome.{allocate-Outcome}
use rlsf.Tlsf.Deallocate.{deallocate}
use rlsf.Tlsf.Deallocate.Outcome.{deallocate-IsHeap}
use rlsf.Tlsf.Client.{Live, Range, World, Reach}
use rlsf.Tlsf.Client.Owned.{owner, IsOwned, Pairs, Pairs-map, Differ}
use rlsf.Tlsf.Client.Pools.{InPools}
use rlsf.Tlsf.Reallocate.{reallocate}
use rlsf.Tlsf.Reallocate.Whole.{reallocate-ReallocateOutcome}
use rlsf.Tlsf.Client.Resize.{own}
use rlsf.Tlsf.Client.Sound.{IsSound}
use rlsf.Tlsf.Client.Steps.{Reach-IsSound}

-- Two allocations have no byte in common.
abbrev pub AreDisjoint : Live → Live → Type 0
AreDisjoint x y = (x.ptr + (x.layout).size ≤ y.ptr) ⊎ (y.ptr + (y.layout).size ≤ x.ptr)

-- An allocation is aligned, not null, and all its bytes are in the ranges that were handed over.
pub record IsPlaced (pools : List Range) (x : Live) : Type 0 where
  pub ne_null : x.ptr ≢ 0
  pub aligned : x.ptr % (x.layout).align ≡ 0
  pub inside : (a : ℕ) → x.ptr ≤ a → a < x.ptr + (x.layout).size → InPools pools a

pub record IsSafe (w : World) : Type 0 where
  pub disjoint : Pairs AreDisjoint w.live
  pub placed : All (IsPlaced w.pools) w.live

module _ {c : Config} {w : World} (sound : IsSound c w) where
  disjoint_of_owners :
      (x y : Live)
      → IsOwned sound.view (w.state).mem x
      → IsOwned sound.view (w.state).mem y
      → Differ (w.state).mem x y
      → AreDisjoint x y
  disjoint_of_owners x y o q ne =
      let bx = owner (w.state).mem x in
      let by = owner (w.state).mem y in
      elim (dec_lt bx by) [
        | yes lt ↦ inl (
            omega (
              arith,
              (sound.heap).tiled.apart bx o.block by q.block o.at q.at lt,
              o.room,
              (q.payload).behind,
            ))
        | no ge ↦ inr (
            omega (
              arith,
              (sound.heap).tiled.apart by q.block bx o.block q.at o.at (omega arith),
              q.room,
              (o.payload).behind,
            ))
      ]

  owned-IsPlaced : (x : Live) → IsOwned sound.view (w.state).mem x → IsPlaced w.pools x
  owned-IsPlaced x o = record {
    ne_null = omega (arith, (o.payload).behind);
    aligned = (o.payload).aligned;
    inside = λ a from to. sound.covered a (record {
      base = owner (w.state).mem x;
      block = o.block;
      at = o.at;
      from = omega (arith, (o.payload).behind);
      to = omega (arith, o.room);
    });
  }

-- For valid constants, after any sequence of steps of a client that begins with `Tlsf::new`, no
-- two allocations that the client holds have a byte in common, and each is aligned, not null and
-- in the memory that was handed over.
pub Reach-IsSafe : {c : Config} {m : Memory} {w : World} → IsValid c → Reach c m w → IsSafe w
Reach-IsSafe {c} {m} {w} v r =
    let sound = Reach-IsSound v r in
    let P = IsOwned sound.view (w.state).mem in
    record {
      disjoint =
          Pairs-map (Differ (w.state).mem) AreDisjoint P w.live (disjoint_of_owners sound)
            sound.owned sound.distinct;
      placed = All-map P (IsPlaced w.pools) (owned-IsPlaced sound) w.live sound.owned;
    }

-- For valid constants, after any such sequence, `allocate` returns for every alignment that is a
-- power of two of the word, and `deallocate` returns for every allocation that the client holds:
-- neither reaches `unreachable_unchecked`.
pub Reach-returns :
    {c : Config} {m : Memory} {w : World} (l : Layout) (k : ℕ) (xs : List Live) (x : Live)
    (ys : List Live)
    → IsValid c
    → Reach c m w
    → k < 64
    → l.align ≡ 2 ^ k
    → w.live ≡ xs ++ x ∷ ys
    → ((t : Option ℕ × State) × (allocate c l w.state ≡ some t))
      × ((s' : State) × (deallocate c x.ptr (x.layout).align w.state ≡ some s'))
Reach-returns {c} {m} {w} l k xs x ys v r lt power split =
    let sound = Reach-IsSound v r in
    let (t, run, out) = allocate-Outcome sound.heap v l k lt power in
    let o : IsOwned sound.view (w.state).mem x =
      All-middle (IsOwned sound.view (w.state).mem) xs x ys
        (subst (All (IsOwned sound.view (w.state).mem)) split sound.owned) in
    let (s', lists', h', run', heap', is, same) =
      deallocate-IsHeap v sound.heap o.at o.used x.ptr (x.layout).align refl in
    ((t, run), (s', run'))

-- For valid constants, after any such sequence, `reallocate` returns for every allocation that the
-- client holds and every layout of its alignment, a power of two of the word.
pub Reach-reallocate :
    {c : Config} {m : Memory} {w : World} (l : Layout) (k : ℕ) (xs : List Live) (x : Live)
    (ys : List Live)
    → IsValid c
    → Reach c m w
    → k < 64
    → l.align ≡ 2 ^ k
    → (x.layout).align ≡ l.align
    → w.live ≡ xs ++ x ∷ ys
    → (t : Option ℕ × State) × (reallocate c x.ptr l w.state ≡ some t)
Reach-reallocate l k xs x ys v r lt power same split =
    let sound = Reach-IsSound v r in
    let (t, run, out) =
      reallocate-ReallocateOutcome v sound.heap x (own v sound xs x ys split) l same k lt power in
    (t, run)
