-- ===== src/Tlsf/Used.antt =====
-- From the pointer of an allocation to the header of its block, and to its usable size.
use rlsf.Base.{ℕ, ◌+◌, ◌-◌, Bool, bit_and, ltb, leb, ◌==◌, if◌then◌else◌}
use rlsf.Tlsf.Config.{granularity, size_used}
use rlsf.Tlsf.State.{Memory, size_at, pad_at}

-- `(size & SIZE_USED) == 0`
abbrev pub is_free : ℕ → Bool
is_free size_and_flags = bit_and size_and_flags size_used == 0

unfoldable pub used_block_hdr_for_allocation : Memory → ℕ → ℕ → ℕ
used_block_hdr_for_allocation m ptr align =
    if leb granularity align then m (pad_at ptr) else ptr - 16

-- The pad of a large alignment and the `prev_phys_block` of a small one are the same word.
unfoldable pub used_block_hdr_for_allocation_unknown_align : Memory → ℕ → ℕ
used_block_hdr_for_allocation_unknown_align m ptr =
    let block_ptr = m (pad_at ptr) in
    let block_end = block_ptr + m (size_at block_ptr) in
    if block_ptr == 0 then ptr - 16 else if ltb block_end ptr then ptr - 16 else block_ptr

-- The bytes from the payload to the end of its block.
unfoldable pub payload_size : Memory → ℕ → ℕ → ℕ
payload_size m ptr block = block + (m (size_at block) - size_used) - ptr

unfoldable pub size_of_allocation : Memory → ℕ → ℕ → ℕ
unfolding used_block_hdr_for_allocation payload_size
size_of_allocation m ptr align = payload_size m ptr (used_block_hdr_for_allocation m ptr align)

unfoldable pub size_of_allocation_unknown_align : Memory → ℕ → ℕ
unfolding used_block_hdr_for_allocation_unknown_align payload_size
size_of_allocation_unknown_align m ptr =
    payload_size m ptr (used_block_hdr_for_allocation_unknown_align m ptr)

unfoldable pub allocation_usable_size : Memory → ℕ → ℕ
allocation_usable_size m ptr = size_of_allocation_unknown_align m ptr
