-- ===== src/Global/Unix.antt =====
-- crates/rlsf/src/global/unix.rs: the source of memory on Linux. The outer `none` stands for
-- `libc::abort`. The system calls are parameters.
pub mod Growth
use mathlib.Core.Option.{none-ne-some}
use native.Mathlib.Nat.{div-add-mod, mod-lt}
use rlsf.Word.Align.{align_down_lem}
use rlsf.Base.{
  Option-cases, Bool-cases, inl, inr, ==→≢, some_inj, ≢→==, ◌≢◌, two-pow_mono, ◌<◌, ◌≤◌, ◌≡◌, ◌*◌,
  ◌/◌, ◌%◌, refl, sym, ap, subst, arith, lt→ltb, ℕ, ◌+◌, ◌-◌, ◌^◌, Bool, true, false, not, max,
  Option, none, some, ◌>>=◌, ltb, ◌==◌, if◌then◌else◌,
}
use rlsf.Word.{wrapping_add, wrapping_sub, checked_add, align_down, is_power_of_two}
use rlsf.Tlsf.Config.{granularity}
use rlsf.Flex.Source.{Slice, FlexSource}
use rlsf.Global.{GlobalTlsfOptions, Mutex, Os}

-- The part of `libc` that the module calls, on a state `W` of the system. The object that
-- `pthread_mutex_lock` and `pthread_mutex_unlock` get is always the one static `MUTEX`, and in `W`;
-- a lock that does not return is `none`.
pub record Libc (W : Type 0) : Type 0 where
  pub sysconf_page_size : ℕ
  pub map_failed : ℕ
  pub mmap : (addr len : ℕ) → (fixed_noreplace : Bool) → W → ℕ × W
  pub munmap : (addr len : ℕ) → W → W
  pub pthread_mutex_lock : W → Option W
  pub pthread_mutex_unlock : W → W

-- `PAGE_SIZE_M1`, and the system.
pub record System (W : Type 0) : Type 0 where
  pub page_size_m1 : ℕ
  pub os : W

abbrev pub alloc_unit : ℕ
alloc_unit = 2 ^ 16

-- `n.checked_add(page_size_m1)? & !page_size_m1`
unfoldable pub whole_pages : (n page_size_m1 : ℕ) → Option ℕ
whole_pages n page_size_m1 = do
  x ← checked_add n page_size_m1
  some (align_down (page_size_m1 + 1) x)

module _ {W : Type 0} (libc : Libc W) where
  -- `Mutex`, whose methods are on the static `MUTEX`, whichever the instance.
  abbrev pub mutex : Mutex (System W)
  mutex = record {
    lock = λ s. (do os ← libc.pthread_mutex_lock s.os; some (record s { os = os }));
    unlock = λ s. record s { os = libc.pthread_mutex_unlock s.os };
  }

  unfoldable pub init_page_size : System W → Option (ℕ × System W)
  init_page_size s =
      let page_size = max libc.sysconf_page_size alloc_unit in
      if not (is_power_of_two page_size)
      then none
      else if ltb page_size granularity
      then none
      else some (page_size - 1, record s { page_size_m1 = page_size - 1 })

  unfoldable pub ensure_page_size_m1 : System W → Option (ℕ × System W)
  unfolding init_page_size
  ensure_page_size_m1 s = if s.page_size_m1 == 0 then init_page_size s else some (s.page_size_m1, s)

  -- `NonNull::new(slice_from_raw_parts_mut(ptr, len))`
  abbrev pub non_null_slice : (ptr len : ℕ) → Option Slice
  non_null_slice ptr len = if ptr == 0 then none else some (record { start = ptr; len = len })

  -- The anonymous mapping of `num_bytes` bytes at any address.
  unfoldable pub map_pages : ℕ → System W → Option Slice × System W
  map_pages num_bytes s =
      let (ptr, os) = libc.mmap 0 num_bytes false s.os in
      (if ptr == libc.map_failed then none else non_null_slice ptr num_bytes, record s { os = os })

  -- `?` on the length of the mapping.
  unfoldable pub alloc_pages : Option ℕ → System W → Option Slice × System W
  unfolding map_pages
  alloc_pages none s = (none, s)
  alloc_pages (some num_bytes) s = map_pages num_bytes s

  unfoldable pub alloc : ℕ → System W → Option (Option Slice × System W)
  unfolding ensure_page_size_m1 whole_pages alloc_pages
  alloc min_size s = do
    (page_size_m1, s1) ← ensure_page_size_m1 s
    some (alloc_pages (whole_pages min_size page_size_m1) s1)

  -- The mapping of the bytes behind `ptr` up to `num_bytes`.
  unfoldable pub map_behind : Slice → ℕ → System W → Option ℕ × System W
  map_behind ptr num_bytes s =
      let num_growth_bytes = wrapping_sub num_bytes ptr.len in
      let ptr_end = wrapping_add ptr.start ptr.len in
      let (ptr_growth_start, os) = libc.mmap ptr_end num_growth_bytes true s.os in
      if not (ptr_growth_start == ptr_end)
      then (none, record s { os = libc.munmap ptr_growth_start num_growth_bytes os })
      else (
        if ptr_growth_start == libc.map_failed then none else some num_bytes,
        record s { os = os },
      )

  -- `?` on the length of the grown allocation.
  unfoldable pub grow_pages : Slice → Option ℕ → System W → Option ℕ × System W
  unfolding map_behind
  grow_pages ptr none s = (none, s)
  grow_pages ptr (some num_bytes) s = map_behind ptr num_bytes s

  unfoldable pub realloc_inplace_grow :
      GlobalTlsfOptions → Slice → ℕ → System W → Option (Option ℕ × System W)
  unfolding ensure_page_size_m1 whole_pages grow_pages
  realloc_inplace_grow options ptr min_new_len s =
      if not options.coalesce_pools then some (none, s) else do
        (page_size_m1, s1) ← ensure_page_size_m1 s
        some (grow_pages ptr (whole_pages min_new_len page_size_m1) s1)

  -- `FlexSource for Source`. `dealloc` is the default method, which panics.
  abbrev pub source : GlobalTlsfOptions → FlexSource (System W)
  source options = record {
    alloc = alloc;
    realloc_inplace_grow = realloc_inplace_grow options;
    dealloc = λ ptr m s. none;
    supports_dealloc = false;
    supports_realloc_inplace_grow = options.coalesce_pools;
    is_contiguous_growable = false;
    min_align = granularity;
  }

  abbrev pub os : GlobalTlsfOptions → Os (System W)
  os options = record { mutex = mutex; source = source options }

-- Pages of a system: the size is a power of two, and at least `ALLOC_UNIT`.
pub record IsPageSize (page_size_m1 : ℕ) : Type 0 where
  pub log2 : ℕ
  pub power : page_size_m1 + 1 ≡ 2 ^ log2
  pub fits : log2 ≤ 63
  pub unit : 16 ≤ log2

-- A length is rounded up to whole pages, and not by a page or more. It returns none only where
-- there is no room for a page above.
pub whole_pages_lem :
    (n page_size_m1 : ℕ)
    → IsPageSize page_size_m1
    → n + page_size_m1 < 2 ^ 64
    → (q : ℕ) × (whole_pages n page_size_m1 ≡ some (q * (page_size_m1 + 1)))
      × (n ≤ q * (page_size_m1 + 1))
      × (q * (page_size_m1 + 1) ≤ n + page_size_m1)
unfolding whole_pages
whole_pages_lem n page_size_m1 is h =
    let x = n + page_size_m1 in
    let d = page_size_m1 + 1 in
    let down : align_down d x ≡ x / d * d =
      subst (λ t. align_down t x ≡ x / t * t) (sym is.power)
        (align_down_lem is.log2 x (omega (arith, is.fits)) h) in
    let whole : d * (x / d) + x % d ≡ x = div-add-mod x d in
    let rest : x % d < d = mod-lt x (omega arith) in
    let swap : x / d * d ≡ d * (x / d) = omega arith in
    (
      x / d,
      rw (lt→ltb x (2 ^ 64) h) (ap some down),
      omega (arith, whole, rest, swap),
      omega (arith, whole, rest, swap),
    )

module _ {W : Type 0} (libc : Libc W) where
  map_pages-slice :
      (n : ℕ) (s : System W) (a : Slice)
      → (map_pages libc n s).0 ≡ some a
      → (a.start ≢ 0) × (a.start ≢ libc.map_failed) × (a.len ≡ n)
  unfolding map_pages
  map_pages-slice n s a e =
      let ptr = (libc.mmap 0 n false s.os).0 in
      elim (Bool-cases (ptr == libc.map_failed)) [
        | inl failed ↦ absurd (none-ne-some a (rw failed at e))
        | inr mapped ↦ elim (Bool-cases (ptr == 0)) [
          | inl null ↦ absurd (none-ne-some a (rw (mapped, null) at e))
          | inr valid ↦
              let same : record { start = ptr; len = n } ≡ a = some_inj (rw (mapped, valid) at e) in
              (
                subst (λ (t : Slice). t.start ≢ 0) same (==→≢ ptr 0 valid),
                subst (λ (t : Slice). t.start ≢ libc.map_failed) same
                    (==→≢ ptr libc.map_failed mapped),
                sym (ap (λ (t : Slice). t.len) same),
              )
        ]
      ]

  pub ensure_known :
      (s : System W)
      → IsPageSize s.page_size_m1
      → ensure_page_size_m1 libc s ≡ some (s.page_size_m1, s)
  unfolding ensure_page_size_m1
  ensure_known s is =
      let known : (s.page_size_m1 == 0) ≡ false =
        ≢→== s.page_size_m1 0
          (λ e. omega (arith, is.power, two-pow_mono {a = 16} {b = is.log2} is.unit)) in
      rw known refl

-- What an allocation of `min_size` bytes returns: nothing, or whole pages that are neither null nor
-- the failure of `mmap`, hold `min_size` bytes, and less than a page more.
pub data IsPages (map_failed page_size_m1 min_size : ℕ) : Option Slice → Type 0 where
  no_pages : IsPages map_failed page_size_m1 min_size none
  pages :
      (a : Slice) (q : ℕ)
      → a.start ≢ 0
      → a.start ≢ map_failed
      → a.len ≡ q * (page_size_m1 + 1)
      → min_size ≤ a.len
      → a.len ≤ min_size + page_size_m1
      → IsPages map_failed page_size_m1 min_size (some a)

-- Where the size of a page is known and the request and a page fit the address space, an
-- allocation does not abort. A slice that it returns is neither null nor the failure of `mmap`, is
-- at least as long as the request, and consists of whole pages, less than one of them more than it
-- needs.
pub alloc-IsPages :
    {W : Type 0} (libc : Libc W) (min_size : ℕ) (s : System W)
    → IsPageSize s.page_size_m1
    → min_size + s.page_size_m1 < 2 ^ 64
    → (r : Option Slice) × (s' : System W) × (alloc libc min_size s ≡ some (r, s'))
      × IsPages libc.map_failed s.page_size_m1 min_size r
unfolding alloc alloc_pages
alloc-IsPages {W} libc min_size s is h =
    let (q, eq, enough, near) = whole_pages_lem min_size s.page_size_m1 is h in
    let len = q * (s.page_size_m1 + 1) in
    (
      (map_pages libc len s).0,
      (map_pages libc len s).1,
      rw (ensure_known libc s is, eq) refl,
      elim (Option-cases (map_pages libc len s).0) [
        | inl none_eq ↦
            subst (IsPages libc.map_failed s.page_size_m1 min_size) (sym none_eq) no_pages
        | inr (a, some_eq) ↦
            let (ne, ne_failed, same) = map_pages-slice libc len s a some_eq in
            subst (IsPages libc.map_failed s.page_size_m1 min_size) (sym some_eq) (
              pages a q ne ne_failed same (omega (arith, same, enough)) (omega (arith, same, near)))
      ],
    )
