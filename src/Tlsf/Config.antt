-- ===== src/Tlsf/Config.antt =====
-- The constants and the type parameters of `Tlsf`, on a 64-bit target.
use rlsf.Base.{
  ℕ, ◌+◌, ◌-◌, ◌*◌, ◌^◌, ◌≤◌, ◌<◌, ◌≡◌, Bool, not, ◌&&◌, Option, none, some, ltb, ◌==◌,
  if◌then◌else◌,
}
use rlsf.Word.{trailing_zeros, is_power_of_two, usize_bits}

-- `size_of::<usize>() * 4`
abbrev pub granularity : ℕ
granularity = 8 * 4

-- `GRANULARITY.trailing_zeros()`
abbrev pub granularity_log2 : ℕ
granularity_log2 = 5

abbrev pub size_used : ℕ
size_used = 1

abbrev pub size_sentinel : ℕ
size_sentinel = 2

-- `!((1 << GRANULARITY_LOG2) - 1)`
abbrev pub size_size_mask : ℕ
size_size_mask = 2 ^ 64 - 1 - (2 ^ granularity_log2 - 1)

-- `size_of::<UsedBlockHdr>()`
abbrev pub used_block_hdr_size : ℕ
used_block_hdr_size = 16

-- The generic parameters: the two lengths, and the widths of the two bitmap types.
pub record Config : Type 0 where
  pub fllen : ℕ
  pub sllen : ℕ
  pub fl_bits : ℕ
  pub sl_bits : ℕ

-- `Tlsf::VALID`, and the power-of-two test of `Tlsf::SLI`: false where the constants panic.
pub valid : Config → Bool
valid c =
    not (c.fllen == 0)
    && (not (c.sllen == 0)
        && (not (ltb c.fl_bits c.fllen)
            && (not (ltb c.sl_bits c.sllen) && is_power_of_two c.sllen)))

-- `Tlsf::SLI`, where `SLLEN` is a power of two
unfoldable pub sli : Config → ℕ
sli c = trailing_zeros 64 c.sllen

-- `Tlsf::MAX_POOL_SIZE`
unfoldable pub max_pool_size : Config → Option ℕ
max_pool_size c =
    let shift = granularity_log2 + c.fllen in
    if ltb shift usize_bits then some (2 ^ shift) else none

-- What `valid` ensures, for bitmaps of the widths that `BinInteger` is implemented for.
pub record IsValid (c : Config) : Type 0 where
  pub has_first : 0 < c.fllen
  pub first_fits : c.fllen ≤ c.fl_bits
  pub second_fits : c.sllen ≤ c.sl_bits
  pub width : c.sl_bits ≤ 128
  pub power : c.sllen ≡ 2 ^ sli c
