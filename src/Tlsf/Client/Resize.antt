-- ===== src/Tlsf/Client/Resize.antt =====
-- A client reallocates an allocation.
use rlsf.Base.{
  ℕ, ◌-◌, ◌^◌, ◌<◌, ◌≡◌, ◌≢◌, refl, sym, ◌∙◌, subst, Option, none, some, some_inj, List, ◌∷◌, ◌++◌,
  All, All-map, All-middle, min,
}
use rlsf.Tlsf.Config.{Config, IsValid}
use rlsf.Tlsf.State.{State, Memory}
use rlsf.Tlsf.Request.{Layout}
use rlsf.Tlsf.Heap.Contents.{SameOthers}
use rlsf.Tlsf.Heap.Placed.{occupied-ne-vacant}
use rlsf.Tlsf.Allocate.Take.{Stays}
use rlsf.Tlsf.Reallocate.{reallocate}
use rlsf.Tlsf.Reallocate.Outcome.{ReallocateOutcome, reallocated, not_moved}
use rlsf.Tlsf.Reallocate.Whole.{reallocate-ReallocateOutcome}
use rlsf.Tlsf.Client.{Live, World}
use rlsf.Tlsf.Client.Owned.{
  moved, moved-Pairs, owner, IsOwned, header_kept, Pairs-drop_middle, Differ,
}
use rlsf.Tlsf.Client.Sound.{IsSound, split_sound, others_of}

module _ {c : Config} (v : IsValid c) {w : World} (sound : IsSound c w) (xs : List Live) (x : Live)
    (ys : List Live) (split : w.live ≡ xs ++ x ∷ ys) where
  abbrev m₀ : Memory
  m₀ = (w.state).mem

  all-IsOwned : All (IsOwned sound.view m₀) (xs ++ x ∷ ys)
  all-IsOwned = (split_sound sound xs x ys split).0

  pub own : IsOwned sound.view m₀ x
  own = All-middle (IsOwned sound.view m₀) xs x ys all-IsOwned

  abbrev pub Resized : (l : Layout) → Option ℕ × State → Type 0
  Resized l t =
      ReallocateOutcome c w.state sound.view (owner m₀ x) x.ptr
        (min l.size ((own.block).size - (x.ptr - owner m₀ x))) l Unit t

  -- The outcome of a run.
  pub Resized-outcome :
      (l : Layout) (k : ℕ) (t : Option ℕ × State)
      → k < 64
      → l.align ≡ 2 ^ k
      → (x.layout).align ≡ l.align
      → reallocate c x.ptr l w.state ≡ some t
      → Resized l t
  Resized-outcome l k t lt power same run =
      let (t₁, run₁, out) = reallocate-ReallocateOutcome v sound.heap x own l same k lt power in
      subst (Resized l) (some_inj (sym run₁ ∙ run)) out

  pub others-IsOwned : All (λ y. IsOwned sound.view m₀ y × (owner m₀ y ≢ owner m₀ x)) (xs ++ ys)
  others-IsOwned = others_of sound xs x ys all-IsOwned (split_sound sound xs x ys split).1

  pub kept_state : (l : Layout) (s' : State) → Resized l (none, s') → s' ≡ w.state
  kept_state l _ (not_moved q) = refl

  pub resize-IsSound :
      (l : Layout) (p : ℕ) (s' : State)
      → Resized l (some p, s')
      → IsSound c (record w { state = s'; live = record { ptr = p; layout = l } ∷ xs ++ ys })
  resize-IsSound l _ _ (reallocated p s' lists' h' heap' is) =
      let P = λ (y : Live). IsOwned sound.view m₀ y × (owner m₀ y ≢ owner m₀ x) in
      let keep : (y : Live) → P y → owner s'.mem y ≡ owner m₀ y =
        λ y q. header_kept q.0 m₀ s'.mem refl (λ a i. is.contents (owner m₀ y) a q.1 i) in
      let stay : (y : Live) → P y → Stays sound.view h' (owner m₀ y) = λ y q.
        is.others (owner m₀ y) (q.0).block (q.0).at (λ e. occupied-ne-vacant (sym (q.0).used ∙ e))
          q.1 in
      let new : Live = record { ptr = p; layout = l } in
      let differ : (y : Live) → P y → Differ s'.mem new y = λ y q e.
        is.apart (owner m₀ y) (q.0).block (q.0).at (λ e. occupied-ne-vacant (sym (q.0).used ∙ e))
          q.1 (sym (keep y q) ∙ sym e) in
      record {
        lists = lists';
        view = h';
        heap = heap';
        owned = (
          is.owned,
          moved sound.view h' m₀ s'.mem P (λ y q. q.0) keep stay (xs ++ ys) others-IsOwned,
        );
        distinct = (
          All-map P (Differ s'.mem new) differ (xs ++ ys) others-IsOwned,
          moved-Pairs sound.view h' m₀ s'.mem P (λ y q. q.0) keep stay (xs ++ ys) others-IsOwned
              (Pairs-drop_middle (Differ m₀) xs x ys (split_sound sound xs x ys split).1),
        );
        covered = λ y i. sound.covered y (is.bytes y i);
      }

  -- The words of the other allocations.
  pub resize-SameOthers :
      (l : Layout) (p : ℕ) (s' : State)
      → Resized l (some p, s')
      → SameOthers sound.view (owner m₀ x) m₀ s'.mem
  resize-SameOthers l _ _ (reallocated p s' lists' h' heap' is) = is.contents
