-- ===== src/Tlsf/Client/Release.antt =====
-- A client releases an allocation.
use rlsf.Base.{◌≡◌, ◌≢◌, refl, sym, ◌∙◌, subst, some, some_inj, List, ◌∷◌, ◌++◌, All, All-middle}
use rlsf.Tlsf.Config.{Config, IsValid}
use rlsf.Tlsf.State.{State, Memory}
use rlsf.Tlsf.Heap.Placed.{occupied-ne-vacant}
use rlsf.Tlsf.Allocate.Take.{Stays}
use rlsf.Tlsf.Deallocate.{deallocate}
use rlsf.Tlsf.Deallocate.Outcome.{deallocate-IsHeap}
use rlsf.Tlsf.Client.{Live, World}
use rlsf.Tlsf.Client.Owned.{
  moved, moved-Pairs, owner, IsOwned, header_kept, Pairs-drop_middle, Differ,
}
use rlsf.Tlsf.Client.Sound.{IsSound, split_sound, others_of}

module _ {c : Config} (v : IsValid c) {w : World} (sound : IsSound c w) where
  abbrev m₀ : Memory
  m₀ = (w.state).mem

  pub release-IsSound :
      (xs : List Live) (x : Live) (ys : List Live) (s' : State)
      → w.live ≡ xs ++ x ∷ ys
      → deallocate c x.ptr (x.layout).align w.state ≡ some s'
      → IsSound c (record w { state = s'; live = xs ++ ys })
  release-IsSound xs x ys s' split run =
      let P = λ (y : Live). IsOwned sound.view m₀ y × (owner m₀ y ≢ owner m₀ x) in
      let (all, pairs) = split_sound sound xs x ys split in
      let o : IsOwned sound.view m₀ x = All-middle (IsOwned sound.view m₀) xs x ys all in
      let rest : All P (xs ++ ys) = others_of sound xs x ys all pairs in
      let (s₁, lists', h', run', heap', is, same) =
        deallocate-IsHeap v sound.heap o.at o.used x.ptr (x.layout).align refl in
      let keep : (y : Live) → P y → owner s₁.mem y ≡ owner m₀ y =
        λ y q. header_kept q.0 m₀ s₁.mem refl (λ a i. same (owner m₀ y) a q.1 i) in
      let stay : (y : Live) → P y → Stays sound.view h' (owner m₀ y) = λ y q.
        is.others (owner m₀ y) (q.0).block (q.0).at (λ e. occupied-ne-vacant (sym (q.0).used ∙ e))
          q.1 in
      subst (λ (t : State). IsSound c (record w { state = t; live = xs ++ ys }))
        (some_inj (sym run' ∙ run))
        (record {
          lists = lists';
          view = h';
          heap = heap';
          owned = moved sound.view h' m₀ s₁.mem P (λ y q. q.0) keep stay (xs ++ ys) rest;
          distinct =
              moved-Pairs sound.view h' m₀ s₁.mem P (λ y q. q.0) keep stay (xs ++ ys) rest
                (Pairs-drop_middle (Differ m₀) xs x ys pairs);
          covered = λ y i. sound.covered y (is.bytes y i);
        })
