-- ===== src/Flex/Grow.antt =====
-- `FlexTlsf`, and `increase_pool_to_contain_allocation`. The outer `none` stands for a panic or
-- `unreachable_unchecked`; the Boolean tells `Some(())` from `None`.
use rlsf.Base.{ℕ, ◌+◌, ◌-◌, Bool, true, false, Option, none, some, ◌>>=◌, ltb, leb, if◌then◌else◌}
use rlsf.Word.{wrapping_add, checked_add}
use rlsf.Tlsf.Config.{Config, granularity}
use rlsf.Tlsf.State.{State, Memory, empty}
use rlsf.Tlsf.Request.{Layout, pool_size_to_contain_allocation}
use rlsf.Tlsf.Pool.{insert_free_block_ptr, insert_free_block_ptr_aligned, append_free_block_ptr}
use rlsf.Flex.Source.{Slice, FlexSource, use_growable_pool}
use rlsf.Flex.Footer.{get_for_alloc, write_ftr, move_ftr}

pub record Pool : Type 0 where
  pub alloc_start : ℕ
  pub alloc_len : ℕ
  pub pool_len : ℕ

pub record FlexTlsf (W : Type 0) : Type 0 where
  pub growable_pool : Option Pool
  pub source : W
  pub tlsf : State

-- The allocation of a pool.
abbrev pub pool_slice : Pool → Slice
pool_slice p = record { start = p.alloc_start; len = p.alloc_len }

abbrev pub last_alloc : Option Pool → Option Slice
last_alloc none = none
last_alloc (some p) = some (pool_slice p)

module _ {W : Type 0} where
  -- `FlexTlsf::new`
  abbrev pub new : W → Memory → FlexTlsf W
  new source m = record { growable_pool = none; source = source; tlsf = empty m }

module _ {W : Type 0} (c : Config) (src : FlexSource W) where
  -- The footer moves to the end of the grown allocation.
  unfoldable pub moved_ftr : Pool → ℕ → Memory → Memory
  moved_ftr pool new_alloc_len m =
      if src.supports_dealloc
      then move_ftr m (get_for_alloc (pool_slice pool) src.min_align)
          (get_for_alloc (record { start = pool.alloc_start; len = new_alloc_len }) src.min_align)
      else m

  -- The source has grown the allocation of the last pool to `new_alloc_len` bytes.
  unfoldable pub extend_pool : Pool → ℕ → FlexTlsf W → Option (FlexTlsf W)
  unfolding moved_ftr
  extend_pool pool new_alloc_len s =
      let t = s.tlsf in
      do
        (num_appended_len, t') ←
            append_free_block_ptr c (wrapping_add pool.alloc_start pool.pool_len)
              (new_alloc_len - pool.pool_len)
              (record t { mem = moved_ftr pool new_alloc_len t.mem })
        some (record s {
          tlsf = t';
          growable_pool = some (record {
            alloc_start = pool.alloc_start;
            alloc_len = new_alloc_len;
            pool_len = pool.pool_len + num_appended_len;
          });
        })

  -- The footer of a new allocation, which links it to the last pool.
  unfoldable pub linked_ftr : Slice → Option Pool → Memory → Memory
  linked_ftr alloc last m =
      if src.supports_dealloc
      then write_ftr m (get_for_alloc alloc src.min_align) (last_alloc last)
      else m

  -- A pool on a new allocation.
  unfoldable pub insert_pool : Slice → FlexTlsf W → Option (FlexTlsf W)
  unfolding linked_ftr
  insert_pool alloc s = do
    (inserted, t) ←
        if leb granularity src.min_align
        then insert_free_block_ptr_aligned c alloc.start alloc.len s.tlsf
        else insert_free_block_ptr c alloc.start alloc.len s.tlsf
    pool_len ← inserted
    some (record s {
      tlsf = record t { mem = linked_ftr alloc s.growable_pool t.mem };
      growable_pool =
          if use_growable_pool src
          then some
              (record { alloc_start = alloc.start; alloc_len = alloc.len; pool_len = pool_len })
          else s.growable_pool;
    })

  abbrev pub extra_bytes : ℕ → Option ℕ
  extra_bytes well_aligned =
      if ltb src.min_align granularity
      then checked_add well_aligned granularity
      else some well_aligned

  unfoldable pub create_pool : ℕ → FlexTlsf W → Option (Bool × FlexTlsf W)
  unfolding insert_pool
  create_pool well_aligned s = elim (extra_bytes well_aligned) [
    | none ↦ some (false, s)
    | some extra ↦ do
      (alloc, w) ← src.alloc extra s.source
      elim alloc [
        | none ↦ some (false, record s { source = w })
        | some a ↦ do s' ← insert_pool a (record s { source = w }); some (true, s')
      ]
  ]

  -- The last pool is grown, or else a new one created.
  unfoldable pub grow_or_create : Pool → ℕ → FlexTlsf W → Option (Bool × FlexTlsf W)
  unfolding extend_pool create_pool
  grow_or_create pool well_aligned s = elim (checked_add pool.pool_len well_aligned) [
    | none ↦ some (false, s)
    | some desired ↦ do
      (grown, w) ← src.realloc_inplace_grow (pool_slice pool) desired s.source
      elim grown [
        | some n ↦ do s' ← extend_pool pool n (record s { source = w }); some (true, s')
        | none ↦
            if src.is_contiguous_growable
            then some (false, record s { source = w })
            else create_pool well_aligned (record s { source = w })
      ]
  ]

  unfoldable pub increase_pool_to_contain_allocation :
      Layout → FlexTlsf W → Option (Bool × FlexTlsf W)
  unfolding grow_or_create create_pool
  increase_pool_to_contain_allocation l s = elim (pool_size_to_contain_allocation c l) [
    | none ↦ some (false, s)
    | some extra ↦ elim (if use_growable_pool src then s.growable_pool else none) [
      | none ↦ create_pool extra s
      | some pool ↦ grow_or_create pool extra s
    ]
  ]
