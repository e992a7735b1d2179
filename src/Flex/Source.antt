-- ===== src/Flex/Source.antt =====
-- The trait `FlexSource`, its default methods, and `GlobalAllocAsFlexSource`. A source has a state
-- `W`. An outer `none` stands for a panic. A source that takes an allocation back may change the
-- memory, since the bytes of the allocation are its own then.
use rlsf.Base.{ℕ, Bool, true, false, Option, none, some, ltb, ◌==◌, ◌||◌, if◌then◌else◌}
use rlsf.Word.{is_power_of_two}
use rlsf.Tlsf.Config.{granularity}
use rlsf.Tlsf.State.{Memory}
use rlsf.Tlsf.Request.{Layout, from_size_align, pad_to_align}

-- `NonNull<[u8]>`, with `nonnull_slice_start` and `nonnull_slice_len`.
pub record Slice : Type 0 where
  pub start : ℕ
  pub len : ℕ

pub record FlexSource (W : Type 0) : Type 0 where
  pub alloc : ℕ → W → Option (Option Slice × W)
  pub realloc_inplace_grow : Slice → ℕ → W → Option (Option ℕ × W)
  pub dealloc : Slice → Memory → W → Option (Memory × W)
  pub supports_dealloc : Bool
  pub supports_realloc_inplace_grow : Bool
  pub is_contiguous_growable : Bool
  pub min_align : ℕ

module _ {W : Type 0} where
  -- The default methods: nothing is supported, and `dealloc` panics.
  abbrev pub default_source : FlexSource W
  default_source = record {
    alloc = λ min_size w. some (none, w);
    realloc_inplace_grow = λ ptr min_new_len w. some (none, w);
    dealloc = λ ptr m w. none;
    supports_dealloc = false;
    supports_realloc_inplace_grow = false;
    is_contiguous_growable = false;
    min_align = 1;
  }

  -- `FlexSourceExt::use_growable_pool`
  abbrev pub use_growable_pool : FlexSource W → Bool
  use_growable_pool src = src.supports_dealloc || src.supports_realloc_inplace_grow

-- `core::alloc::GlobalAlloc`
pub record GlobalAlloc (W : Type 0) : Type 0 where
  pub alloc : Layout → W → ℕ × W
  pub dealloc : ℕ → Layout → Memory → W → Memory × W

-- `GlobalAllocAsFlexSource::ALIGN`
unfoldable pub source_align : ℕ → Option ℕ
source_align align =
    if is_power_of_two align
    then some (if ltb align granularity then granularity else align)
    else none

module _ {W : Type 0} (global : GlobalAlloc W) (align : ℕ) where
  unfoldable pub global_alloc : ℕ → W → Option (Option Slice × W)
  global_alloc min_size w = elim (from_size_align min_size align) [
    | none ↦ some (none, w)
    | some l ↦
        let padded = pad_to_align l in
        let (start, w') = global.alloc padded w in
        some (if start == 0 then none else some (record { start = start; len = padded.size }), w')
  ]

  unfoldable pub global_dealloc : Slice → Memory → W → Option (Memory × W)
  global_dealloc ptr m w =
      some (global.dealloc ptr.start (record { size = ptr.len; align = align }) m w)

  -- The implementation of `FlexSource` where `Self::ALIGN` is `align`.
  abbrev pub global_alloc_as_flex_source : FlexSource W
  global_alloc_as_flex_source = record {
    alloc = global_alloc;
    realloc_inplace_grow = λ ptr min_new_len w. some (none, w);
    dealloc = global_dealloc;
    supports_dealloc = true;
    supports_realloc_inplace_grow = false;
    is_contiguous_growable = false;
    min_align = align;
  }
