-- ===== src/Tlsf/Allocate/Failure.antt =====
-- An allocation that fails.
use mathlib.Core.Option.{none-ne-some, some-ne-none}
use rlsf.Base.{
  ℕ, ◌-◌, ◌≡◌, ◌≢◌, inl, inr, sym, ap, Option, none, some, ◌>>=◌, ◌==◌, if◌then◌else◌, Bool-cases,
  Option-cases, some_inj,
}
use rlsf.Tlsf.Config.{Config}
use rlsf.Tlsf.State.{State, next_phys_block}
use rlsf.Tlsf.Search.{search_suitable_free_block_list_for_allocation}
use rlsf.Tlsf.Request.{Layout, search_size, payload}
use rlsf.Tlsf.Allocate.{
  pop_first, split_rest, place_used, used_size, allocate_in, allocate_found, allocate,
}

-- A bind that returns has run its first step.
bind_inv :
    {A B : Type 0} (o : Option A) (f : A → Option B) (b : B)
    → (o >>= f) ≡ some b
    → (a : A) × (f a ≡ some b)
bind_inv none f b e = absurd (none-ne-some b e)
bind_inv (some a) f b e = (a, e)

-- What ends in a pointer does not return null.
pointer_of :
    (o : Option State) (p : ℕ) (g : State → State) (s' : State)
    → ◌≢◌ {A = Option (Option ℕ × State)} (o >>= λ s2. some (some p, g s2)) (some (none, s'))
pointer_of none p g s' e = none-ne-some (none, s') e
pointer_of (some s2) p g s' e = some-ne-none p (ap (λ (t : Option ℕ × State). t.0) (some_inj e))

-- With a list at hand, a pointer is returned.
allocate_in-pointer :
    (c : Config) (l : Layout) (fl sl : ℕ) (s s' : State)
    → ◌≢◌ {A = Option (Option ℕ × State)} (allocate_in c l fl sl s) (some (none, s'))
unfolding allocate_in
allocate_in-pointer c l fl sl s s' e = elim (Bool-cases (s.first_free fl sl == 0)) [
  | inl null ↦ absurd (none-ne-some (none, s') (rw null at e))
  | inr occupied ↦
      let b = s.first_free fl sl in
      let p = payload l.align b in
      let n = used_size l (p - b) in
      let s1 = pop_first c fl sl b s in
      pointer_of
        (if n == s.mem b then some s1 else split_rest c b (s.mem b) n (next_phys_block s.mem b) s1)
        p (λ s2. record s2 { mem = place_used s2.mem l.align p b n }) s' (rw occupied at e)
]

allocate_found-unchanged :
    (c : Config) (l : Layout) (found : Option (ℕ × ℕ)) (s s' : State)
    → allocate_found c l found s ≡ some (none, s')
    → s' ≡ s
unfolding allocate_found
allocate_found-unchanged c l none s s' e = sym (ap (λ (t : Option ℕ × State). t.1) (some_inj e))
allocate_found-unchanged c l (some (fl, sl)) s s' e = absurd (allocate_in-pointer c l fl sl s s' e)

-- An allocation that returns null leaves the header and all memory as they were.
pub allocate-unchanged :
    (c : Config) (l : Layout) (s s' : State) → allocate c l s ≡ some (none, s') → s' ≡ s
unfolding allocate
allocate-unchanged c l s s' e = elim (Option-cases (search_size l)) [
  | inl too_large ↦
      sym (ap (λ (t : Option ℕ × State). t.1) (some_inj (rw (allocate, too_large) at e)))
  | inr (need, fits) ↦
      let (found, last) =
        bind_inv (search_suitable_free_block_list_for_allocation c need s)
          (λ found. allocate_found c l found s) (none, s') (rw (allocate, fits) at e) in
      allocate_found-unchanged c l found s s' last
]
