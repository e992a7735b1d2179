-- ===== src/Tlsf/Blocks.antt =====
-- `Tlsf::iter_blocks` and `BlockInfo`.
use rlsf.Base.{ℕ, zero, suc, ◌-◌, Bool, not, List, [], ◌∷◌, bit_and, ◌==◌, if◌then◌else◌}
use rlsf.Word.{saturating_sub, wrapping_add, wrapping_sub}
use rlsf.Tlsf.Config.{size_used, size_sentinel, size_size_mask}
use rlsf.Tlsf.State.{Memory, size_at}
use rlsf.Tlsf.Pool.{aligned_start}

-- The addresses of the blocks of a pool, from `start`. Sentinels are left out. Each block has at
-- least one byte, so `len` rounds are enough.
unfoldable pub blocks_from : ℕ → Memory → (start len : ℕ) → List ℕ
blocks_from zero m start len = []
blocks_from (suc fuel) m start len =
    let block_size = bit_and (m (size_at start)) size_size_mask in
    let rest = blocks_from fuel m (wrapping_add start block_size) (len - block_size) in
    if len == 0
    then []
    else if bit_and (m (size_at start)) size_sentinel == 0
    then start ∷ rest
    else rest

unfoldable pub iter_blocks : Memory → (unaligned_start slice_len : ℕ) → List ℕ
unfolding blocks_from aligned_start
iter_blocks m unaligned_start slice_len =
    let start = aligned_start unaligned_start in
    let len = saturating_sub slice_len (wrapping_sub start unaligned_start) in
    blocks_from len m start len

-- `BlockInfo::size`
unfoldable pub block_size : Memory → ℕ → ℕ
block_size m block = bit_and (m (size_at block)) size_size_mask

-- `BlockInfo::max_payload_size`
unfoldable pub max_payload_size : Memory → ℕ → ℕ
unfolding block_size
max_payload_size m block = block_size m block - 16

-- `BlockInfo::is_occupied`
unfoldable pub is_occupied : Memory → ℕ → Bool
is_occupied m block = not (bit_and (m (size_at block)) size_used == 0)
