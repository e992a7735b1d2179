-- ===== src/Flex/Footer.antt =====
-- `PoolFtr`, the two words at the end of an allocation that keep the allocation before it.
use rlsf.Base.{ℕ, ◌+◌, Option, none, some, ltb, ◌==◌, if◌then◌else◌}
use rlsf.Word.{wrapping_add, wrapping_sub, align_down}
use rlsf.Tlsf.State.{Memory, write}
use rlsf.Flex.Source.{Slice}

-- `nonnull_slice_end`
abbrev pub slice_end : Slice → ℕ
slice_end alloc = wrapping_add alloc.start alloc.len

-- `PoolFtr::get_for_alloc`
unfoldable pub get_for_alloc : Slice → ℕ → ℕ
get_for_alloc alloc alloc_align =
    let ptr = wrapping_sub (slice_end alloc) 16 in
    if ltb alloc_align 8 then align_down 8 ptr else ptr

-- `(*ftr).prev_alloc`: the start, 0 for `None`, and the length.
unfoldable pub read_ftr : Memory → ℕ → Option Slice
read_ftr m ftr = if m ftr == 0 then none else some (record { start = m ftr; len = m (ftr + 8) })

unfoldable pub write_ftr : Memory → ℕ → Option Slice → Memory
write_ftr m ftr none = write m ftr 0
write_ftr m ftr (some alloc) = write (write m ftr alloc.start) (ftr + 8) alloc.len

-- `*new_pool_ftr = *old_pool_ftr`
unfoldable pub move_ftr : Memory → (old new : ℕ) → Memory
move_ftr m old new = write (write m new (m old)) (new + 8) (m (old + 8))
