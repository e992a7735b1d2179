-- ===== src/Override.antt =====
-- crates/rlsf_override/os/lib.rs: the allocation functions of C and C++ on top of `ALLOC`.
pub mod Cpp
mod Tests
use rlsf.Base.{
  refl, lt→ltb, ge→ltb, ◌≤◌, ◌<◌, ◌≡◌, ◌⊎◌, inl, inr, arith, ℕ, ◌+◌, ◌-◌, ◌*◌, ◌/◌, ◌^◌, Bool, true,
  false, not, Option, none, some, ◌>>=◌, ltb, leb, ◌==◌, ◌&&◌, ◌||◌, if◌then◌else◌,
}
use rlsf.Word.{is_power_of_two, trailing_zeros, checked_add, checked_mul, align_down}
use rlsf.Tlsf.State.{Memory, write}
use rlsf.Tlsf.Request.{Layout, from_size_align}
use rlsf.Global.{
  Os, GlobalTlsf, as_ptr, c_allocate, c_deallocate, c_reallocate, allocation_usable_size,
}

-- The alignment guaranteed by `malloc` on x86_64.
abbrev pub min_align : ℕ
min_align = 16

-- `write_bytes(0, count)` on whole words, and the low bytes of the last word.
unfoldable pub write_zeros : Memory → (ptr count : ℕ) → Memory
write_zeros m ptr count x =
    if ltb x ptr || leb (ptr + count) x
    then m x
    else if leb (x + 8) (ptr + count)
    then 0
    else m x / 2 ^ (8 * (ptr + count - x)) * 2 ^ (8 * (ptr + count - x))

module _ {W : Type 0} where
  -- A change of the memory behind the pointers.
  abbrev pub on_memory : (Memory → Memory) → GlobalTlsf W → GlobalTlsf W
  on_memory f g =
      let s = g.inner in
      let t = s.tlsf in record g { inner = record s { tlsf = record t { mem = f t.mem } } }

unfoldable pub calloc_layout : (number size : ℕ) → Option Layout
calloc_layout number size = do len ← checked_mul size number; from_size_align len min_align

-- The pointer, its bytes cleared.
unfoldable pub cleared : {W : Type 0} → Layout → Option ℕ → GlobalTlsf W → ℕ × GlobalTlsf W
unfolding write_zeros
cleared l none g = (0, g)
cleared l (some ptr) g = (ptr, on_memory (λ m. write_zeros m ptr l.size) g)

module _ {W : Type 0} (os : Os W) where
  unfoldable pub aligned_alloc : (alignment size : ℕ) → GlobalTlsf W → Option (ℕ × GlobalTlsf W)
  aligned_alloc alignment size g = elim (from_size_align size alignment) [
    | none ↦ some (0, g)
    | some l ↦ do (r, g') ← c_allocate os l g; some (as_ptr r, g')
  ]

  unfoldable pub malloc : ℕ → GlobalTlsf W → Option (ℕ × GlobalTlsf W)
  unfolding aligned_alloc
  malloc size = aligned_alloc min_align size

  unfoldable pub malloc_usable_size : ℕ → GlobalTlsf W → ℕ
  malloc_usable_size p g = if p == 0 then 0 else allocation_usable_size os p g

  -- The size of a page is that of `sysconf(_SC_PAGESIZE)`.
  unfoldable pub valloc : (page_size size : ℕ) → GlobalTlsf W → Option (ℕ × GlobalTlsf W)
  unfolding aligned_alloc
  valloc page_size size = aligned_alloc page_size size

  unfoldable pub pvalloc : (page_size size : ℕ) → GlobalTlsf W → Option (ℕ × GlobalTlsf W)
  unfolding aligned_alloc
  pvalloc page_size size g = elim (checked_add size (page_size - 1)) [
    | none ↦ some (0, g)
    | some x ↦ aligned_alloc page_size (align_down page_size x) g
  ]

  unfoldable pub calloc_in : Option Layout → GlobalTlsf W → Option (ℕ × GlobalTlsf W)
  unfolding cleared
  calloc_in none g = some (0, g)
  calloc_in (some l) g = do (r, g') ← c_allocate os l g; some (cleared l r g')

  unfoldable pub calloc : (number size : ℕ) → GlobalTlsf W → Option (ℕ × GlobalTlsf W)
  unfolding calloc_layout calloc_in
  calloc number size = calloc_in (calloc_layout number size)

  -- The result is 0 or the error number, and the pointer is stored at `out_ptr`.
  unfoldable pub posix_memalign :
      (enomem out_ptr alignment size : ℕ) → GlobalTlsf W → Option (ℕ × GlobalTlsf W)
  unfolding aligned_alloc
  posix_memalign enomem out_ptr alignment size g = do
    (ptr, g') ← aligned_alloc alignment size g
    some (if ptr == 0 then enomem else 0, on_memory (λ m. write m out_ptr ptr) g')

  unfoldable pub memalign : (alignment size : ℕ) → GlobalTlsf W → Option (ℕ × GlobalTlsf W)
  unfolding aligned_alloc
  memalign alignment size = aligned_alloc alignment size

  unfoldable pub realloc : (ptr size : ℕ) → GlobalTlsf W → Option (ℕ × GlobalTlsf W)
  unfolding malloc
  realloc ptr size g = if ptr == 0 then malloc size g else elim (from_size_align size min_align) [
    | none ↦ some (0, g)
    | some l ↦ do (r, g') ← c_reallocate os ptr l g; some (as_ptr r, g')
  ]

  unfoldable pub free : ℕ → GlobalTlsf W → Option (GlobalTlsf W)
  free ptr g = if ptr == 0 then some g else do (done, g') ← c_deallocate os ptr g; some g'

  -- `none` is a panic if `is_noexcept` is false.
  unfoldable pub cpp_new_impl :
      (size align : ℕ) → (is_noexcept : Bool) → GlobalTlsf W → Option (ℕ × GlobalTlsf W)
  unfolding malloc aligned_alloc
  cpp_new_impl size align is_noexcept g = do
    (ptr, g') ← if align == 0 then malloc size g else aligned_alloc align size g
    if not is_noexcept && (ptr == 0) then none else some (ptr, g')

write_zeros-inside :
    (m : Memory) (ptr count x : ℕ) → ptr ≤ x → x + 8 ≤ ptr + count → write_zeros m ptr count x ≡ 0
unfolding write_zeros
write_zeros-inside m ptr count x from to = ground arith

write_zeros-outside :
    (m : Memory) (ptr count x : ℕ) → (x < ptr) ⊎ (ptr + count ≤ x) → write_zeros m ptr count x ≡ m x
unfolding write_zeros
write_zeros-outside m ptr count x (inl below) = ground arith
write_zeros-outside m ptr count x (inr above) = ground arith

-- The memory of a global allocator.
abbrev pub memory : {W : Type 0} → GlobalTlsf W → Memory
memory g = let s = g.inner in (s.tlsf).mem

calloc_layout-some :
    (number size : ℕ)
    → size * number < 2 ^ 63
    → calloc_layout number size ≡ some (record { size = size * number; align = min_align })
unfolding calloc_layout from_size_align is_power_of_two trailing_zeros
calloc_layout-some number size fits =
    rw
      (
        lt→ltb (size * number) (2 ^ 64) (omega arith),
        ge→ltb (2 ^ 64 - 16) (size * number) (omega arith),
      )
      refl

-- Where the product of the arguments is below 2 ^ 63 and the allocator returns a pointer for it,
-- `calloc` returns that pointer. Each word within the allocation is then 0, and each word outside
-- it is what the allocator left.
pub calloc-zeros :
    {W : Type 0} (os : Os W) (number size ptr : ℕ) (g g' : GlobalTlsf W)
    → size * number < 2 ^ 63
    → c_allocate os (record { size = size * number; align = min_align }) g ≡ some (some ptr, g')
    → (h : GlobalTlsf W) × (calloc os number size g ≡ some (ptr, h))
      × ((x : ℕ) → ptr ≤ x → x + 8 ≤ ptr + size * number → memory h x ≡ 0)
      × ((x : ℕ) → (x < ptr) ⊎ (ptr + size * number ≤ x) → memory h x ≡ memory g' x)
unfolding calloc calloc_in cleared
calloc-zeros os number size ptr g g' fits run = (
  on_memory (λ m. write_zeros m ptr (size * number)) g',
  rw (calloc_layout-some number size fits, run) refl,
  λ x. write_zeros-inside (memory g') ptr (size * number) x,
  λ x. write_zeros-outside (memory g') ptr (size * number) x,
)
