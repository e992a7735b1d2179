-- ===== src/Tlsf/Reallocate/Words.antt =====
-- What `ptr::copy` leaves, and what it writes.
use rlsf.Base.{ℕ, ◌+◌, ◌-◌, ◌≤◌, ◌<◌, ◌≡◌, ◌⊎◌, arith}
use rlsf.Tlsf.State.{Memory, copy}

module _ (m : Memory) (src dst count a : ℕ) where
  pub copy-other : (a < dst) ⊎ (dst + count ≤ a) → copy m src dst count a ≡ m a
  unfolding copy
  copy-other out = ground arith

  pub copy-word : dst ≤ a → a + 8 ≤ dst + count → copy m src dst count a ≡ m (src + (a - dst))
  unfolding copy
  copy-word from to = ground arith
