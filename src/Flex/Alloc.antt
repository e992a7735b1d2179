-- ===== src/Flex/Alloc.antt =====
-- The operations of `FlexTlsf`. The outer `none` stands for a panic or `unreachable_unchecked`.
use rlsf.Base.{ℕ, true, false, Option, none, some, ◌>>=◌}
use rlsf.Tlsf.Config.{Config}
use rlsf.Tlsf.State.{State, copy}
use rlsf.Tlsf.Request.{Layout}
use rlsf.Tlsf.Allocate as Tlsf_allocate
use rlsf.Tlsf.Deallocate as Tlsf_deallocate
use rlsf.Tlsf.Reallocate as Tlsf_reallocate
use rlsf.Tlsf.Used as Used
use rlsf.Tlsf.Used.{size_of_allocation}
use rlsf.Flex.Source.{FlexSource}
use rlsf.Flex.Grow.{FlexTlsf, increase_pool_to_contain_allocation}

module _ {W : Type 0} where
  unfoldable pub size_of_allocation_unknown_align : ℕ → FlexTlsf W → ℕ
  size_of_allocation_unknown_align ptr s = Used.size_of_allocation_unknown_align (s.tlsf).mem ptr

  unfoldable pub allocation_usable_size : ℕ → FlexTlsf W → ℕ
  allocation_usable_size ptr s = Used.size_of_allocation_unknown_align (s.tlsf).mem ptr

module _ {W : Type 0} (c : Config) (src : FlexSource W) where
  -- A call of `self.tlsf`.
  abbrev with_tlsf :
      {A : Type 0} → (State → Option (A × State)) → FlexTlsf W → Option (A × FlexTlsf W)
  with_tlsf f s = do (a, t) ← f s.tlsf; some (a, record s { tlsf = t })

  unfoldable pub allocate : Layout → FlexTlsf W → Option (Option ℕ × FlexTlsf W)
  allocate l s = do
    (r, s1) ← with_tlsf (Tlsf_allocate.allocate c l) s
    elim r [
      | some ptr ↦ some (some ptr, s1)
      | none ↦ do
        (grown, s2) ← increase_pool_to_contain_allocation c src l s1
        elim grown [ false ↦ some (none, s2) | true ↦ with_tlsf (Tlsf_allocate.allocate c l) s2 ]
    ]

  unfoldable pub deallocate : ℕ → ℕ → FlexTlsf W → Option (FlexTlsf W)
  deallocate ptr align s = do
    t ← Tlsf_deallocate.deallocate c ptr align s.tlsf
    some (record s { tlsf = t })

  unfoldable pub deallocate_unknown_align : ℕ → FlexTlsf W → Option (FlexTlsf W)
  deallocate_unknown_align ptr s = do
    t ← Tlsf_deallocate.deallocate_unknown_align c ptr s.tlsf
    some (record s { tlsf = t })

  -- `ptr::copy_nonoverlapping(ptr, new_ptr, count)`
  abbrev pub copy_payload : ℕ → ℕ → ℕ → FlexTlsf W → FlexTlsf W
  copy_payload ptr new_ptr count s =
      let t = s.tlsf in record s { tlsf = record t { mem = copy t.mem ptr new_ptr count } }

  unfoldable pub reallocate : ℕ → Layout → FlexTlsf W → Option (Option ℕ × FlexTlsf W)
  unfolding allocate deallocate
  reallocate ptr l s =
      let old_size = size_of_allocation (s.tlsf).mem ptr l.align in
      do
        (r, s1) ← with_tlsf (Tlsf_reallocate.reallocate c ptr l) s
        elim r [
          | some p ↦ some (some p, s1)
          | none ↦ do
            (q, s2) ← allocate l s1
            elim q [
              | none ↦ some (none, s2)
              | some new_ptr ↦ do
                s3 ← deallocate ptr l.align (copy_payload ptr new_ptr old_size s2)
                some (some new_ptr, s3)
            ]
        ]
