-- ===== src/Tlsf/Client/Store.antt =====
-- A client writes to an allocation.
use rlsf.Base.{
  ◌-◌, ℕ, ◌+◌, ◌≤◌, ◌<◌, ◌≡◌, ◌≢◌, ◌⊎◌, inl, inr, refl, sym, ap, subst, arith, List, ◌∷◌, ◌++◌, All,
  All-map, All-middle, All-both, All-insert_middle,
}
use rlsf.Tlsf.Config.{Config, IsValid}
use rlsf.Tlsf.State.{Memory, write}
use rlsf.Tlsf.Heap.Contents.{inside-apart, IsInside}
use rlsf.Tlsf.Heap.Store.{write-IsHeap, write-other}
use rlsf.Tlsf.Allocate.Take.{Stays}
use rlsf.Tlsf.Client.{Live, World}
use rlsf.Tlsf.Client.Owned.{
  moved, moved-Pairs, owner, IsOwned, owned-IsInside, header_pad, pad-IsInside, Pairs-middle,
  Differ,
}
use rlsf.Tlsf.Client.Sound.{IsSound, split_sound}

module _ {c : Config} (v : IsValid c) {w : World} (sound : IsSound c w) where
  abbrev m₀ : Memory
  m₀ = (w.state).mem

  pub store-IsSound :
      (xs : List Live) (x : Live) (ys : List Live) (a val : ℕ)
      → w.live ≡ xs ++ x ∷ ys
      → x.ptr ≤ a
      → a < x.ptr + (x.layout).size
      → IsSound c (record w { state = record w.state { mem = write (w.state).mem a val } })
  store-IsSound xs x ys a val split from to =
      let P = λ (y : Live). IsOwned sound.view m₀ y × ((owner m₀ y ≢ owner m₀ x) ⊎ (y ≡ x)) in
      let (all, pairs) = split_sound sound xs x ys split in
      let o : IsOwned sound.view m₀ x = All-middle (IsOwned sound.view m₀) xs x ys all in
      let others : All (λ y. (owner m₀ y ≢ owner m₀ x) ⊎ (y ≡ x)) (xs ++ x ∷ ys) =
        All-insert_middle (λ y. (owner m₀ y ≢ owner m₀ x) ⊎ (y ≡ x)) xs x ys (inr refl)
          (All-map (Differ m₀ x) (λ y. (owner m₀ y ≢ owner m₀ x) ⊎ (y ≡ x))
            (λ y ne. inl (λ e. ne (sym e))) (xs ++ ys)
            (Pairs-middle (Differ m₀) xs x ys (λ y z ne e. ne (sym e)) pairs)) in
      let live : All P w.live = subst (All P) (sym split) (
        All-both (IsOwned sound.view m₀) (λ y. (owner m₀ y ≢ owner m₀ x) ⊎ (y ≡ x)) (xs ++ x ∷ ys)
          all others) in
      let i : IsInside sound.view (owner m₀ x) a = owned-IsInside o a from to in
      let keep : (y : Live) → P y → owner (write m₀ a val) y ≡ owner m₀ y = λ y q.
        header_pad q.0 m₀ (write m₀ a val) refl
          (λ large. write-other sound.heap _ val m₀ (y.ptr - 8) (off_pad o i y q large)) in
      let stay : (y : Live) → P y → Stays sound.view sound.view (owner m₀ y) =
        λ y q k e. (k, e, refl, refl) in
      record {
        lists = sound.lists;
        view = sound.view;
        heap = write-IsHeap sound.heap i val;
        owned =
            moved sound.view sound.view m₀ (write m₀ a val) P (λ y q. q.0) keep stay w.live live;
        distinct =
            moved-Pairs sound.view sound.view m₀ (write m₀ a val) P (λ y q. q.0) keep stay w.live
              live sound.distinct;
        covered = sound.covered;
      }
    where
      off_pad :
          (o : IsOwned sound.view m₀ x)
          → IsInside sound.view (owner m₀ x) a
          → (y : Live) → IsOwned sound.view m₀ y × ((owner m₀ y ≢ owner m₀ x) ⊎ (y ≡ x))
          → 32 ≤ (y.layout).align
          → y.ptr - 8 ≢ a
      off_pad o i y (oy, inr same) large e =
          let ptr : y.ptr ≡ x.ptr = ap (λ (t : Live). t.ptr) same in
          omega (arith, ptr, (o.payload).behind)
      off_pad o i y (oy, inl ne) large e =
          let pad = pad-IsInside oy large in
          elim (inside-apart (sound.heap).tiled i (owner m₀ y) pad.block pad.at ne) [
            | inl low ↦ omega (arith, pad.from)
            | inr high ↦ omega (arith, pad.to)
          ]
