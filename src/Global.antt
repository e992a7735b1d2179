-- ===== src/Global.antt =====
-- crates/rlsf/src/global.rs: `GlobalTlsf`, an allocator behind a lock, and its options. The locks
-- and the sources of memory of its two targets are in child modules.
pub mod Unix
pub mod Wasm32
mod Tests
use rlsf.Base.{ℕ, Bool, true, false, min, Option, none, some, ◌>>=◌, if◌then◌else◌}
use rlsf.Tlsf.Config.{Config}
use rlsf.Tlsf.State.{Memory}
use rlsf.Tlsf.Request.{Layout}
use rlsf.Flex.Source.{FlexSource}
use rlsf.Flex.Grow.{FlexTlsf}
use rlsf.Flex.Grow as Grow
use rlsf.Flex.Alloc as Flex

pub record GlobalTlsfOptions : Type 0 where
  pub enable_reallocation : Bool
  pub coalesce_pools : Bool

abbrev pub default_options : GlobalTlsfOptions
default_options = record { enable_reallocation = true; coalesce_pools = true }

abbrev pub small_options : GlobalTlsfOptions
small_options = record { enable_reallocation = false; coalesce_pools = false }

-- The parameters of `TheTlsf`, where `usize` has 64 bits.
abbrev pub the_tlsf : Config
the_tlsf = record { fl_bits = 64; sl_bits = 64; fllen = 64; sllen = 64 }

pub record GlobalTlsf (W : Type 0) : Type 0 where
  pub inner : FlexTlsf W

-- `Mutex`, which the target's module has. Its state is a part of that of the target. A call of
-- `lock` that does not return is `none`.
pub record Mutex (W : Type 0) : Type 0 where
  pub lock : W → Option W
  pub unlock : W → W

-- The module `os` of a target: its mutex and its source of memory.
pub record Os (W : Type 0) : Type 0 where
  pub mutex : Mutex W
  pub source : FlexSource W

-- `NonNull::as_ptr` or `null_mut`
abbrev pub as_ptr : Option ℕ → ℕ
as_ptr none = 0
as_ptr (some p) = p

module _ {W : Type 0} where
  -- `GlobalTlsf::new`, over a source and the memory at that time
  abbrev pub new : W → Memory → GlobalTlsf W
  new source m = record { inner = Grow.new source m }

module _ {W : Type 0} (os : Os W) where
  -- `lock_inner`, a computation on what it guards, and the drop of the guard.
  unfoldable pub lock_inner {ℓ} :
      {A : Type ℓ}
      → (FlexTlsf W → Option (A × FlexTlsf W))
      → GlobalTlsf W
      → Option (A × GlobalTlsf W)
  lock_inner f g =
      let s = g.inner in
      let mutex : Mutex W = os.mutex in
      do
        w ← mutex.lock s.source
        (a, s') ← f (record s { source = w })
        some (a, record g { inner = record s' { source = mutex.unlock s'.source } })

  -- The bodies of the methods, in the lock.
  unfoldable pub alloc_locked : Layout → FlexTlsf W → Option (ℕ × FlexTlsf W)
  alloc_locked l s = do (r, s') ← Flex.allocate the_tlsf os.source l s; some (as_ptr r, s')

  unfoldable pub dealloc_locked : ℕ → Layout → FlexTlsf W → Option (Bool × FlexTlsf W)
  dealloc_locked ptr l s = do s' ← Flex.deallocate the_tlsf os.source ptr l.align s; some (true, s')

  unfoldable pub realloc_locked :
      GlobalTlsfOptions → ℕ → Layout → ℕ → FlexTlsf W → Option (ℕ × FlexTlsf W)
  realloc_locked options ptr l new_size s =
      let new_layout : Layout = record { size = new_size; align = l.align } in
      if options.enable_reallocation
      then (do (r, s') ← Flex.reallocate the_tlsf os.source ptr new_layout s; some (as_ptr r, s'))
      else do
        (r, s1) ← Flex.allocate the_tlsf os.source new_layout s
        elim r [
          | none ↦ some (0, s1)
          | some new_ptr ↦ do
            s2 ←
                Flex.deallocate the_tlsf os.source ptr l.align
                  (Flex.copy_payload the_tlsf os.source ptr new_ptr (min l.size new_size) s1)
            some (new_ptr, s2)
        ]

  -- `CAlloc::deallocate` and `CAlloc::reallocate`
  unfoldable pub c_deallocate_locked : ℕ → FlexTlsf W → Option (Bool × FlexTlsf W)
  c_deallocate_locked ptr s = do
    s' ← Flex.deallocate_unknown_align the_tlsf os.source ptr s
    some (true, s')

  unfoldable pub c_reallocate_locked : ℕ → Layout → FlexTlsf W → Option (Option ℕ × FlexTlsf W)
  c_reallocate_locked ptr new_layout s = do
    (r, s1) ← Flex.allocate the_tlsf os.source new_layout s
    elim r [
      | none ↦ some (none, s1)
      | some new_ptr ↦ do
        let old_size = Flex.size_of_allocation_unknown_align ptr s1
        s2 ←
            Flex.deallocate_unknown_align the_tlsf os.source ptr
              (Flex.copy_payload the_tlsf os.source ptr new_ptr (min new_layout.size old_size) s1)
        some (some new_ptr, s2)
    ]

  -- `GlobalAlloc for GlobalTlsf`
  unfoldable pub alloc : Layout → GlobalTlsf W → Option (ℕ × GlobalTlsf W)
  unfolding alloc_locked lock_inner
  alloc l = lock_inner (alloc_locked l)

  unfoldable pub dealloc : ℕ → Layout → GlobalTlsf W → Option (Bool × GlobalTlsf W)
  unfolding dealloc_locked lock_inner
  dealloc ptr l = lock_inner (dealloc_locked ptr l)

  unfoldable pub realloc :
      GlobalTlsfOptions → ℕ → Layout → ℕ → GlobalTlsf W → Option (ℕ × GlobalTlsf W)
  unfolding realloc_locked lock_inner
  realloc options ptr l new_size = lock_inner (realloc_locked options ptr l new_size)

  -- `CAlloc for GlobalTlsf`
  unfoldable pub c_allocate : Layout → GlobalTlsf W → Option (Option ℕ × GlobalTlsf W)
  unfolding lock_inner
  c_allocate l = lock_inner (Flex.allocate the_tlsf os.source l)

  unfoldable pub c_deallocate : ℕ → GlobalTlsf W → Option (Bool × GlobalTlsf W)
  unfolding c_deallocate_locked lock_inner
  c_deallocate ptr = lock_inner (c_deallocate_locked ptr)

  unfoldable pub c_reallocate : ℕ → Layout → GlobalTlsf W → Option (Option ℕ × GlobalTlsf W)
  unfolding c_reallocate_locked lock_inner
  c_reallocate ptr new_layout = lock_inner (c_reallocate_locked ptr new_layout)

  unfoldable pub allocation_usable_size : ℕ → GlobalTlsf W → ℕ
  unfolding Flex.size_of_allocation_unknown_align
  allocation_usable_size ptr g = Flex.size_of_allocation_unknown_align ptr g.inner
