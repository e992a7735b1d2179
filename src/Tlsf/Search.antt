-- ===== src/Tlsf/Search.antt =====
-- `search_suitable_free_block_list_for_allocation`. The outer `none` stands for a panic or for
-- `unreachable_unchecked`, the inner one is the code's `None`.
pub mod Next
pub mod Fit
use rlsf.Base.{ℕ, ◌+◌, Option, none, some, ◌>>=◌, ltb, leb, if◌then◌else◌}
use rlsf.Word.{trailing_zeros}
use rlsf.Int.{bit_scan_forward}
use rlsf.Tlsf.Config.{Config}
use rlsf.Tlsf.Class.{map_ceil}
use rlsf.Tlsf.State.{State}

-- Search in the range `(fl + 1.., ..)`.
unfoldable pub search_above : Config → ℕ → State → Option (Option (ℕ × ℕ))
search_above c fl s = do
  fl' ← bit_scan_forward c.fl_bits s.fl_bitmap (fl + 1)
  let sl = trailing_zeros c.sl_bits (s.sl_bitmap fl')
  if ltb fl' c.fllen then if leb c.sllen sl then none else some (some (fl', sl)) else some none

-- Search in the range `(fl, sl..SLLEN)`, then above it.
unfoldable pub search_from : Config → ℕ → ℕ → State → Option (Option (ℕ × ℕ))
unfolding search_above
search_from c fl sl s = do
  sl' ← bit_scan_forward c.sl_bits (s.sl_bitmap fl) sl
  if ltb sl' c.sllen then some (some (fl, sl')) else search_above c fl s

unfoldable pub search_suitable_free_block_list_for_allocation :
    Config → ℕ → State → Option (Option (ℕ × ℕ))
unfolding search_from
search_suitable_free_block_list_for_allocation c min_size s = elim (map_ceil c min_size) [
  | none ↦ some none
  | some (fl, sl) ↦ search_from c fl sl s
]
