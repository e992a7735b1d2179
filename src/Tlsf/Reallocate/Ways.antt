-- ===== src/Tlsf/Reallocate/Ways.antt =====
-- The runs of `reallocate` and `grow_or_move`, by what they find.
use rlsf.Base.{ℕ, ◌+◌, ◌-◌, ◌≡◌, refl, ap, none, some, true, false, ltb}
use rlsf.Tlsf.Config.{Config}
use rlsf.Tlsf.State.{State, next_phys_block}
use rlsf.Tlsf.Request.{Layout}
use rlsf.Tlsf.Used.{is_free, used_block_hdr_for_allocation, size_of_allocation}
use rlsf.Tlsf.Reallocate.{reallocate, reallocate_by_copy}
use rlsf.Tlsf.Reallocate.InPlace.{grow, move, grow_or_move, reallocate_inplace}

-- The ways of `grow_or_move`, by the next block.
module _ (c : Config) (ptr b n old next : ℕ) (l : Layout) (s : State)
    (next_eq : next_phys_block s.mem b ≡ next) where
  pub next_used :
      is_free (s.mem next) ≡ false
      → grow_or_move c ptr b n old l s
        ≡ move c ptr b next old (record { bytes = old; end = next }) l s
  unfolding grow_or_move
  next_used test = rw (next_eq, test) refl

  pub next_small :
      (size e : ℕ)
      → s.mem next ≡ size
      → is_free size ≡ true
      → ltb size (n - old) ≡ true
      → next_phys_block s.mem next ≡ e
      → grow_or_move c ptr b n old l s
        ≡ move c ptr b next old (record { bytes = old + size; end = e }) l s
  unfolding grow_or_move
  next_small size e word test less behind = rw (next_eq, word, test, less, behind) refl

  pub next_large :
      (size : ℕ)
      → s.mem next ≡ size
      → is_free size ≡ true
      → ltb size (n - old) ≡ false
      → grow_or_move c ptr b n old l s ≡ grow c ptr b n (n - old) next s
  unfolding grow_or_move
  next_large size word test less = rw (next_eq, word, test, less) refl

-- `reallocate` after its way in place.
module _ (c : Config) (ptr b : ℕ) (l : Layout) (s : State)
    (found : used_block_hdr_for_allocation s.mem ptr l.align ≡ b) where
  pub reallocate-stays :
      (p : ℕ) (s' : State)
      → reallocate_inplace c ptr b l s ≡ some (some p, s')
      → reallocate c ptr l s ≡ some (some p, s')
  unfolding reallocate
  reallocate-stays p s' run = rw (found, run) refl

  pub reallocate-copies :
      (size : ℕ)
      → reallocate_inplace c ptr b l s ≡ some (none, s)
      → size_of_allocation s.mem ptr l.align ≡ size
      → reallocate c ptr l s ≡ reallocate_by_copy c ptr size l s
  unfolding reallocate
  reallocate-copies size run old =
      rw (found, run) (ap (λ (t : ℕ). reallocate_by_copy c ptr t l s) old)
