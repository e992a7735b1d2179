-- ===== src/Tlsf/Client/Grant.antt =====
-- A client allocates.
use rlsf.Base.{
  ◌^◌, ℕ, ◌<◌, ◌≡◌, ◌≢◌, refl, sym, ap, ◌∙◌, subst, Option, some, none, some_inj, arith, ◌∷◌,
  All-map,
}
use rlsf.Tlsf.Config.{Config, IsValid}
use rlsf.Tlsf.State.{State, Memory}
use rlsf.Tlsf.Links.Rep.{Lists}
use rlsf.Tlsf.Request.{Layout}
use rlsf.Tlsf.Heap.{Block, View, IsHeap}
use rlsf.Tlsf.Heap.Contents.{SameContents}
use rlsf.Tlsf.Heap.Placed.{occupied-ne-vacant}
use rlsf.Tlsf.Allocate.{allocate}
use rlsf.Tlsf.Allocate.Take.{Stays, IsTaken}
use rlsf.Tlsf.Allocate.Outcome.{Outcome, refused, granted, allocate-Outcome}
use rlsf.Tlsf.Client.{Live, World}
use rlsf.Tlsf.Client.Owned.{moved, moved-Pairs, owner, IsOwnedBy, IsOwned, Differ}
use rlsf.Tlsf.Client.Sound.{IsSound, header_same}

-- What `allocate` returns, by its result.
abbrev pub GrantOf : Config → Layout → State → View → Option ℕ × State → Type 0
GrantOf c l s h (none, s') = s' ≡ s
GrantOf c l s h (some p, s') =
    (lists' : Lists) × (h' : View) × IsHeap c s' lists' h'
    × IsTaken l h h' s'.mem p
    × SameContents h s.mem s'.mem

grant_of :
    {c : Config} {l : Layout} {s : State} {lists : Lists} {h : View} (t : Option ℕ × State)
    → Outcome c l s lists h t
    → GrantOf c l s h t
grant_of _ (refused none_fits) = refl
grant_of _ (granted p s' lists' h' heap' is same) = (lists', h', heap', is, same)

module _ {c : Config} (v : IsValid c) {w : World} (sound : IsSound c w) where
  abbrev m₀ : Memory
  m₀ = (w.state).mem

  pub allocated :
      (l : Layout) (k : ℕ) (t : Option ℕ × State)
      → k < 64
      → l.align ≡ 2 ^ k
      → allocate c l w.state ≡ some t
      → GrantOf c l w.state sound.view t
  allocated l k t lt power run =
      let (t', run', out) = allocate-Outcome sound.heap v l k lt power in
      subst (GrantOf c l w.state sound.view) (some_inj (sym run' ∙ run)) (grant_of t' out)

  pub grant-IsSound :
      (l : Layout) (k p : ℕ) (s' : State)
      → k < 64
      → l.align ≡ 2 ^ k
      → allocate c l w.state ≡ some (some p, s')
      → IsSound c (record w { state = s'; live = record { ptr = p; layout = l } ∷ w.live })
  grant-IsSound l k p s' lt power run =
      let (lists', h', heap', is, same) = allocated l k (some p, s') lt power run in
      let new : Live = record { ptr = p; layout = l } in
      let header : owner s'.mem new ≡ is.b = is.header in
      let keep = header_same sound s'.mem same in
      let stay : (x : Live) → IsOwned sound.view m₀ x → Stays sound.view h' (owner m₀ x) =
        λ x o. is.others (owner m₀ x) (not_before is x o) in
      let P = IsOwned sound.view m₀ in
      record {
        lists = lists';
        view = h';
        heap = heap';
        owned = (
          subst (λ b. IsOwnedBy h' b new) (sym header)
              (record {
                block = is.after;
                at = is.at_after;
                used = is.now_used;
                payload = is.payload;
                room = omega (arith, is.room, is.after_size);
              }),
          moved sound.view h' m₀ s'.mem P (λ x o. o) keep stay w.live sound.owned,
        );
        distinct = (
          All-map P (Differ s'.mem new)
              (λ x o e. not_before is x o (sym (keep x o) ∙ (sym e ∙ header))) w.live sound.owned,
          moved-Pairs sound.view h' m₀ s'.mem P (λ x o. o) keep stay w.live sound.owned
              sound.distinct,
        );
        covered = λ x i. sound.covered x (is.bytes x i);
      }
    where
      not_before :
          {h' : View} {m : Memory} {q : ℕ} (is : IsTaken l sound.view h' m q) (x : Live)
          → IsOwned sound.view m₀ x
          → owner m₀ x ≢ is.b
      not_before is x o e =
          let same : o.block ≡ is.before = some_inj (sym o.at ∙ (ap sound.view e ∙ is.at_before)) in
          occupied-ne-vacant (sym o.used ∙ (ap (λ (t : Block). t.kind) same ∙ is.was_vacant))
