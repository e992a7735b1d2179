-- ===== src/Tlsf/Client/Contents.antt =====
-- No call changes the contents of an allocation that the client holds on to.
use rlsf.Base.{
  ℕ, ◌+◌, ◌≤◌, ◌<◌, ◌≡◌, ◌≢◌, refl, sym, ap, ◌∙◌, Option, some, none, some_inj, arith, List, ◌∷◌,
  ◌++◌, All, All-map, All-middle,
}
use rlsf.Tlsf.Config.{Config, IsValid}
use rlsf.Tlsf.State.{State, Memory, write}
use rlsf.Tlsf.Heap.Contents.{SameContents}
use rlsf.Tlsf.Deallocate.{deallocate}
use rlsf.Tlsf.Deallocate.Outcome.{deallocate-IsHeap}
use rlsf.Tlsf.Pool.Range.{insert_free_block_ptr-IsHeap}
use rlsf.Tlsf.Client.{
  Live, World, Step, insert, grant, refuse, release, resize, keep_size, store, Reach,
}
use rlsf.Tlsf.Client.Pools.{apart-Spares}
use rlsf.Tlsf.Client.Owned.{owner, IsOwned, owned-IsInside}
use rlsf.Tlsf.Client.Sound.{IsSound, split_sound, others_of}
use rlsf.Tlsf.Client.Steps.{Reach-IsSound}
use rlsf.Tlsf.Client.Grant.{allocated}
use rlsf.Tlsf.Client.Resize.{Resized-outcome, kept_state, others-IsOwned, resize-SameOthers}
use rlsf.Tlsf.Client.Pools.{apart-Spares}

-- The allocations that the client holds before a step and after it.
abbrev pub survivors : {c : Config} {w w' : World} → Step c w w' → List Live
survivors {w = w} (insert x r s' ne pos fits apart run) = w.live
survivors {w = w} (grant l k p s' lt power run) = w.live
survivors {w = w} (refuse l k s' lt power run) = w.live
survivors (release xs x ys s' split run) = xs ++ ys
survivors (resize xs x ys l k p s' split lt power align run) = xs ++ ys
survivors {w = w} (keep_size xs x ys l k s' split lt power align run) = w.live
survivors {w = w} (store xs x ys a val split from to) = w.live

-- The word that the client itself writes.
abbrev pub IsStored : {c : Config} {w w' : World} → Step c w w' → ℕ → Type 0
IsStored (insert x r s' ne pos fits apart run) b = ⊥
IsStored (grant l k p s' lt power run) b = ⊥
IsStored (refuse l k s' lt power run) b = ⊥
IsStored (release xs x ys s' split run) b = ⊥
IsStored (resize xs x ys l k p s' split lt power align run) b = ⊥
IsStored (keep_size xs x ys l k s' split lt power align run) b = ⊥
IsStored (store xs x ys a val split from to) b = b ≡ a

-- The words of an allocation, but those that the client writes, are the same.
abbrev pub KeepsWords : (ℕ → Type 0) → Memory → Memory → Live → Type 0
KeepsWords Stored m m' x =
    (a : ℕ) → x.ptr ≤ a → a < x.ptr + (x.layout).size → ¬ Stored a → m' a ≡ m a

module _ {c : Config} (v : IsValid c) {w : World} (sound : IsSound c w) where
  abbrev m₀ : Memory
  m₀ = (w.state).mem

  kept_words :
      (Stored : ℕ → Type 0) (m' : Memory)
      → SameContents sound.view m₀ m'
      → (x : Live) → IsOwned sound.view m₀ x
      → KeepsWords Stored m₀ m' x
  kept_words Stored m' same x o a from to other = same (owner m₀ x) a (owned-IsInside o a from to)

  elsewhere : (m : Memory) (a val b : ℕ) → b ≢ a → write m a val b ≡ m b
  unfolding write
  elsewhere m a val b ne = ground arith

  released_words :
      (xs : List Live) (x : Live) (ys : List Live) (s' : State)
      → w.live ≡ xs ++ x ∷ ys
      → deallocate c x.ptr (x.layout).align w.state ≡ some s'
      → All (KeepsWords (λ b. ⊥) m₀ s'.mem) (xs ++ ys)
  released_words xs x ys s' split run =
      let (all, pairs) = split_sound sound xs x ys split in
      let o : IsOwned sound.view m₀ x = All-middle (IsOwned sound.view m₀) xs x ys all in
      let (s₁, lists', h', run', heap', is, same) =
        deallocate-IsHeap v sound.heap o.at o.used x.ptr (x.layout).align refl in
      let eq : s₁ ≡ s' = some_inj (sym run' ∙ run) in
      All-map (λ y. IsOwned sound.view m₀ y × (owner m₀ y ≢ owner m₀ x))
        (KeepsWords (λ b. ⊥) m₀ s'.mem)
        (λ y q a from to other.
          ap (λ (t : State). t.mem a) (sym eq)
          ∙ same (owner m₀ y) a q.1 (owned-IsInside q.0 a from to))
        (xs ++ ys) (others_of sound xs x ys all pairs)

  sound-contents :
      {w' : World} (st : Step c w w')
      → All (KeepsWords (IsStored st) m₀ (w'.state).mem) (survivors st)
  sound-contents (insert x r s' ne pos fits apart run) =
      let (r₁, s₁, lists', h', run', heap', ext, len, filled, same) =
        insert_free_block_ptr-IsHeap v sound.heap x.start x.len ne fits
          (apart-Spares w.pools (sound.heap).tiled sound.covered x pos apart) in
      let eq : ◌≡◌ {A = Option ℕ × State} (r₁, s₁) (r, s') = some_inj (sym run' ∙ run) in
      let same' : SameContents sound.view m₀ s'.mem =
        λ z a i. ap (λ (t : Option ℕ × State). (t.1).mem a) (sym eq) ∙ same z a i in
      All-map (IsOwned sound.view m₀) (KeepsWords (λ b. ⊥) m₀ s'.mem)
        (kept_words (λ b. ⊥) s'.mem same') w.live sound.owned
  sound-contents (grant l k p s' lt power run) =
      let (lists', h', heap', is, same) = allocated v sound l k (some p, s') lt power run in
      All-map (IsOwned sound.view m₀) (KeepsWords (λ b. ⊥) m₀ s'.mem)
        (kept_words (λ b. ⊥) s'.mem same) w.live sound.owned
  sound-contents (refuse l k s' lt power run) =
      let same : s' ≡ w.state = allocated v sound l k (none, s') lt power run in
      All-map (IsOwned sound.view m₀) (KeepsWords (λ b. ⊥) m₀ s'.mem)
        (kept_words (λ b. ⊥) s'.mem (λ z a i. ap (λ (t : State). t.mem a) same)) w.live sound.owned
  sound-contents (release xs x ys s' split run) = released_words xs x ys s' split run
  sound-contents (resize xs x ys l k p s' split lt power align run) =
      let out = Resized-outcome v sound xs x ys split l k (some p, s') lt power align run in
      let same = resize-SameOthers v sound xs x ys split l p s' out in
      All-map (λ y. IsOwned sound.view m₀ y × (owner m₀ y ≢ owner m₀ x))
        (KeepsWords (λ b. ⊥) m₀ s'.mem)
        (λ y q a from to other. same (owner m₀ y) a q.1 (owned-IsInside q.0 a from to)) (xs ++ ys)
        (others-IsOwned v sound xs x ys split)
  sound-contents (keep_size xs x ys l k s' split lt power align run) =
      let out = Resized-outcome v sound xs x ys split l k (none, s') lt power align run in
      let same : s' ≡ w.state = kept_state v sound xs x ys split l s' out in
      All-map (IsOwned sound.view m₀) (KeepsWords (λ b. ⊥) m₀ s'.mem)
        (kept_words (λ b. ⊥) s'.mem (λ z a i. ap (λ (t : State). t.mem a) same)) w.live sound.owned
  sound-contents (store xs x ys a val split from to) =
      All-map (IsOwned sound.view m₀) (KeepsWords (λ b. b ≡ a) m₀ (write m₀ a val))
        (λ y o b from to ne. elsewhere m₀ a val b ne) w.live sound.owned

-- For valid constants, after any sequence of steps of a client, a further step leaves all words of
-- all allocations that the client holds before and after it, except for a word that the client
-- writes itself.
pub step-contents :
    {c : Config} {m : Memory} {w w' : World}
    → IsValid c
    → Reach c m w
    → (st : Step c w w')
    → All (KeepsWords (IsStored st) (w.state).mem (w'.state).mem) (survivors st)
step-contents v r st = sound-contents v (Reach-IsSound v r) st
