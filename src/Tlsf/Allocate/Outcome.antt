-- ===== src/Tlsf/Allocate/Outcome.antt =====
-- `allocate` on a heap: a vacant block becomes a used one that holds the layout, or nothing
-- changes.
use mathlib.Core.Option.{none-ne-some}
use rlsf.Base.{
  ℕ, ◌+◌, ◌^◌, ◌≤◌, ◌<◌, ◌≡◌, ◌≢◌, ◌⊎◌, inl, inr, refl, sym, ap, ◌∙◌, subst, Option, none, some,
  List, [], ◌∷◌, All, arith, some_inj, Option-cases,
}
use native.Mathlib.Decide.{dec_lt, ℕ_discrete}
use rlsf.Tlsf.Config.{Config, IsValid}
use rlsf.Tlsf.Class.Floor.{IsSize}
use rlsf.Tlsf.State.{State, Memory}
use rlsf.Tlsf.Links.Rep.{Lists}
use rlsf.Tlsf.Links.Unlink.{head_block}
use rlsf.Tlsf.Search.Fit.{IsFit, fit, no_fit, search-IsFit}
use rlsf.Tlsf.Request.{Layout, search_size}
use rlsf.Tlsf.Heap.{vacant, Block, View, IsVacant, IsHeap}
use rlsf.Tlsf.Allocate.{allocate_found, allocate}
use rlsf.Tlsf.Allocate.Payload.{search_size-eq}
use rlsf.Tlsf.Heap.Contents.{SameContents}
use rlsf.Tlsf.Allocate.Take.{IsTaken, vacant_word, listed_sizes, allocate_in-runs}

-- What `allocate` returns: null, where the state stays and no list has a block for the layout, or a
-- payload in a block of the new heap.
pub data Outcome (c : Config) (l : Layout) (s : State) (lists : Lists) (h : View)
    : Option ℕ × State → Type 0 where
  refused :
      ((need : ℕ) → search_size l ≡ some need → IsFit c s.mem lists need none)
      → Outcome c l s lists h (none, s)
  granted :
      (p : ℕ) (s' : State) (lists' : Lists) (h' : View)
      → IsHeap c s' lists' h'
      → IsTaken l h h' s'.mem p
      → SameContents h s.mem s'.mem
      → Outcome c l s lists h (some p, s')

-- The bytes at a pointer, if it is one, are outside of `n` bytes at `z`.
abbrev pub IsClear : ℕ → ℕ → ℕ → Option ℕ → Type 0
IsClear size z n none = Unit
IsClear size z n (some p) = (p + size ≤ z) ⊎ (z + n ≤ p)

module _ {c : Config} {s : State} {lists : Lists} {h : View} (heap : IsHeap c s lists h)
    (v : IsValid c) (l : Layout) (a : ℕ) (a_lt : a < 64) (power : l.align ≡ 2 ^ a) where
  -- The lists hold blocks of the view.
  head_of : (x y : ℕ) → lists x y ≢ [] → (ys : List ℕ) × (lists x y ≡ s.first_free x y ∷ ys)
  head_of x y ne = by (lists x y) refl
    where
      by : (zs : List ℕ) → lists x y ≡ zs → (ys : List ℕ) × (lists x y ≡ s.first_free x y ∷ ys)
      by [] e = absurd (ne e)
      by (z ∷ zs) e =
          let (is, head) = head_block heap.free x y z zs e in
          (zs, subst (λ t. lists x y ≡ t ∷ zs) (sym head) e)

  found_runs :
      (need : ℕ) (r : Option (ℕ × ℕ))
      → search_size l ≡ some need
      → IsFit c s.mem lists need r
      → (t : Option ℕ × State) × (allocate_found c l r s ≡ some t) × Outcome c l s lists h t
  unfolding allocate_found
  found_runs need _ e (no_fit none_fits) = (
    (none, s),
    refl,
    refused (λ need' e'.
        subst (λ t. IsFit c s.mem lists t none) (some_inj (sym e ∙ e')) (no_fit none_fits)),
  )
  found_runs need _ e (fit x y ne large first) =
      let (ys, here) = head_of x y ne in
      let (k, at, vac) : IsVacant h (s.first_free x y) =
        (subst (All (IsVacant h)) here (heap.holds.only x y)).0 in
      let enough : need ≤ s.mem (s.first_free x y) =
        (subst (All (λ b. need ≤ s.mem b)) here large).0 in
      let (q, s', lists', h', run, heap', is, same) =
        allocate_in-runs heap v l a a_lt power x y ys here k at vac need e
          (omega (arith, vacant_word heap (s.first_free x y) k at vac)) in
      ((some q, s'), run, granted q s' lists' h' heap' is same)

  need_IsSize : (need : ℕ) → search_size l ≡ some need → IsSize need
  need_IsSize need e =
      let (bound, eq) = search_size-eq l need e in
      record { at_least = omega (arith, eq); in_word = omega (arith, eq) }

  -- For valid constants, a heap and an alignment that is a power of two of the word, `allocate`
  -- returns. Either it returns null, the state stays, and no free block is in a list whose least
  -- size is what the layout needs; or it returns a payload, aligned and with room for the layout
  -- in a block that was vacant and is used after, all other blocks stay where they are with
  -- their sizes and kinds, the words of the used blocks behind their headers are as before, and
  -- the result is a heap.
  pub allocate-Outcome :
      (t : Option ℕ × State) × (allocate c l s ≡ some t) × Outcome c l s lists h t
  unfolding allocate
  allocate-Outcome = elim (Option-cases (search_size l)) [
    | inl too_large ↦ (
      (none, s),
      rw (allocate, too_large) refl,
      refused (λ need e. absurd (none-ne-some need (sym too_large ∙ e))),
    )
    | inr (need, e) ↦
        let (r, run, is) = search-IsFit v heap.free (listed_sizes heap) need (need_IsSize need e) in
        let (t, run', out) = found_runs need r e is in (t, rw (allocate, e, run) run', out)
  ]

  -- The payload is outside of a used block.
  apart :
      {p : ℕ} {h' : View} {m' : Memory}
      → IsTaken l h h' m' p
      → (z : ℕ) (k : Block) → h z ≡ some k
      → k.kind ≢ vacant
      → (p + l.size ≤ z) ⊎ (z + k.size ≤ p)
  apart {p} is z k e ne = elim (dec_lt z is.b) [
    | yes below ↦ inr (
        omega
          (arith, (heap.tiled).apart z k is.b is.before e is.at_before below, (is.payload).behind))
    | no above ↦ elim (ℕ_discrete z is.b) [
      | yes same ↦
          let eq : k ≡ is.before = some_inj (sym e ∙ (ap h same ∙ is.at_before)) in
          absurd (ne (ap (λ (t : Block). t.kind) eq ∙ is.was_vacant))
      | no other ↦ inl (
          omega (
            arith,
            (heap.tiled).apart is.b is.before z k is.at_before e (omega arith),
            is.room,
            is.smaller,
          ))
    ]
  ]

  IsClear-of_Outcome :
      (t : Option ℕ × State) (z : ℕ) (k : Block)
      → h z ≡ some k
      → k.kind ≢ vacant
      → Outcome c l s lists h t
      → IsClear l.size z k.size t.0
  IsClear-of_Outcome _ z k e ne (refused none_fits) = tt
  IsClear-of_Outcome _ z k e ne (granted p s' lists' h' heap' is same) = apart is z k e ne

  -- For valid constants, a heap, an alignment that is a power of two of the word, and a block that
  -- is in use, `allocate` returns, and if it returns a pointer, the bytes of the layout there are
  -- outside of that block.
  pub allocate-apart :
      (z : ℕ) (k : Block)
      → h z ≡ some k
      → k.kind ≢ vacant
      → (t : Option ℕ × State) × (allocate c l s ≡ some t) × IsClear l.size z k.size t.0
  allocate-apart z k e ne =
      let (t, run, out) = allocate-Outcome in (t, run, IsClear-of_Outcome t z k e ne out)
