-- ===== src/Global/Wasm32.antt =====
-- crates/rlsf/src/global/wasm32.rs: the source of memory on WebAssembly, where `usize` has 32 bits.
-- The outer `none` stands for a trap. The instructions on the memory are parameters.
use rlsf.Base.{
  ◌<◌, ◌≤◌, ◌≡◌, refl, arith, Bool-cases, inl, inr, ℕ, ◌+◌, ◌-◌, ◌*◌, ◌/◌, ◌%◌, ◌^◌, false, not,
  Option, none, some, ◌>>=◌, ◌==◌, if◌then◌else◌,
}
use rlsf.Word.{checked_add_at}
use rlsf.Flex.Source.{Slice, FlexSource, default_source}
use rlsf.Global.{GlobalTlsfOptions, Mutex, Os}

-- `wasm32::memory_size(MEM)` and `wasm32::memory_grow(MEM, _)`
pub record Instructions (W : Type 0) : Type 0 where
  pub memory_size : W → ℕ
  pub memory_grow : ℕ → W → ℕ × W

abbrev pub page_size : ℕ
page_size = 2 ^ 16

abbrev pub failure : ℕ
failure = 2 ^ 32 - 1

-- `Mutex`, which does nothing where there is one thread.
abbrev pub no_mutex : {W : Type 0} → Mutex W
no_mutex = record { lock = λ w. some w; unlock = λ w. w }

module _ {W : Type 0} (wasm : Instructions W) where
  -- `n.checked_add(PAGE_SIZE - 1)? / PAGE_SIZE`
  unfoldable pub pages_for : ℕ → Option ℕ
  pages_for n = do x ← checked_add_at 32 n (page_size - 1); some (x / page_size)

  unfoldable pub grown_slice : (old_num_pages num_bytes : ℕ) → Option Slice
  grown_slice old_num_pages num_bytes =
      let start = old_num_pages * page_size % 2 ^ 32 in
      if start == 0 then none else some (record { start = start; len = num_bytes })

  unfoldable pub alloc : ℕ → W → Option (Option Slice × W)
  unfolding pages_for grown_slice
  alloc min_size w = elim (pages_for min_size) [
    | none ↦ some (none, w)
    | some num_pages ↦
        let (old_num_pages, w') = wasm.memory_grow num_pages w in
        if old_num_pages == failure
        then some (none, w')
        else do alloc ← grown_slice old_num_pages (num_pages * page_size); some (some alloc, w')
  ]

  unfoldable pub grow_from : (ptr_page new_num_pages : ℕ) → W → Option ℕ × W
  grow_from ptr_page new_num_pages w =
      let (old_num_pages, w') = wasm.memory_grow ((new_num_pages + 2 ^ 32 - ptr_page) % 2 ^ 32) w in
      (if old_num_pages == failure then none else some (new_num_pages * page_size), w')

  unfoldable pub realloc_inplace_grow : GlobalTlsfOptions → Slice → ℕ → W → Option ℕ × W
  unfolding pages_for grow_from
  realloc_inplace_grow options ptr min_new_len w =
      if not options.coalesce_pools
      then (none, w)
      else if not (ptr.start / page_size == wasm.memory_size w)
      then (none, w)
      else elim (pages_for min_new_len) [
        | none ↦ (none, w)
        | some new_num_pages ↦ grow_from (ptr.start / page_size) new_num_pages w
      ]

module _ {W : Type 0} (wasm : Instructions W) where
  -- `FlexSource for Source`
  abbrev pub source : GlobalTlsfOptions → FlexSource W
  source options = record default_source {
    alloc = alloc wasm;
    realloc_inplace_grow =
        λ ptr min_new_len w. some (realloc_inplace_grow wasm options ptr min_new_len w);
    supports_realloc_inplace_grow = options.coalesce_pools;
    min_align = page_size;
  }

  abbrev pub os : GlobalTlsfOptions → Os W
  os options = record { mutex = no_mutex; source = source options }

-- The growth in place of a live allocation, one that is not empty and ends within the memory,
-- always returns none and leaves the memory as it is: the page that the code compares with the size
-- of the memory is that of the start of the allocation.
pub realloc_inplace_grow-none :
    {W : Type 0} (wasm : Instructions W) (options : GlobalTlsfOptions) (ptr : Slice)
    (min_new_len : ℕ) (w : W)
    → 0 < ptr.len
    → ptr.start + ptr.len ≤ wasm.memory_size w * page_size
    → realloc_inplace_grow wasm options ptr min_new_len w ≡ (none, w)
unfolding realloc_inplace_grow
realloc_inplace_grow-none wasm options ptr min_new_len w pos live =
    let other : (ptr.start / page_size == wasm.memory_size w) ≡ false = ground arith in
    elim (Bool-cases options.coalesce_pools) [
      | inl on ↦ rw (on, other) refl
      | inr off ↦ rw off refl
    ]
