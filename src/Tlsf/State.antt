-- ===== src/Tlsf/State.antt =====
-- The allocator's header and the memory of its pools. Memory is a function from the addresses of
-- words, which are multiples of 8, to words; `Option<NonNull<_>>` is a word that is 0 for `None`.
-- A block at address `b` keeps the fields of `BlockHdr` and `FreeBlockHdr` at `b`, `b + 8`,
-- `b + 16` and `b + 24`. The arrays of the header are functions of their indices.
use rlsf.Base.{ℕ, ◌+◌, ◌-◌, ◌*◌, ◌/◌, ◌%◌, ◌^◌, ◌&&◌, ◌||◌, bit_and, ltb, leb, ◌==◌, if◌then◌else◌}
use rlsf.Tlsf.Config.{size_size_mask}

abbrev pub Memory : Type 0
Memory = ℕ → ℕ

unfoldable pub write : Memory → ℕ → ℕ → Memory
write m a v x = if x == a then v else m x

-- `Tlsf`, and the memory that it owns.
pub record State : Type 0 where
  pub fl_bitmap : ℕ
  pub sl_bitmap : ℕ → ℕ
  pub first_free : ℕ → ℕ → ℕ
  pub mem : Memory

-- `Tlsf::new`
abbrev pub empty : Memory → State
empty m = record { fl_bitmap = 0; sl_bitmap = λ fl. 0; first_free = λ fl sl. 0; mem = m }

-- The addresses of the fields of `BlockHdr` and `FreeBlockHdr`.
abbrev pub size_at : ℕ → ℕ
size_at block = block

abbrev pub prev_phys_at : ℕ → ℕ
prev_phys_at block = block + 8

abbrev pub next_free_at : ℕ → ℕ
next_free_at block = block + 16

abbrev pub prev_free_at : ℕ → ℕ
prev_free_at block = block + 24

-- `UsedBlockPad::get_for_allocation`
abbrev pub pad_at : ℕ → ℕ
pad_at ptr = ptr - 8

-- `BlockHdr::next_phys_block`
unfoldable pub next_phys_block : Memory → ℕ → ℕ
next_phys_block m block = block + bit_and (m (size_at block)) size_size_mask

-- A header `BlockHdr { size, prev_phys_block }` written to `block`.
unfoldable pub write_hdr : Memory → ℕ → ℕ → ℕ → Memory
write_hdr m block size prev = write (write m (size_at block) size) (prev_phys_at block) prev

-- One entry of `sl_bitmap`, and of `first_free`.
unfoldable pub set_row : (ℕ → ℕ) → ℕ → ℕ → ℕ → ℕ
set_row f i v x = if x == i then v else f x

unfoldable pub set_entry : (ℕ → ℕ → ℕ) → ℕ → ℕ → ℕ → ℕ → ℕ → ℕ
set_entry f i j v x y = if (x == i) && (y == j) then v else f x y

-- `ptr::copy(src, dst, count)` of `count` bytes between addresses of words, of a little-endian
-- machine: the last word is copied in part. It reads the memory from before the copy, so it serves
-- for `copy_nonoverlapping` too.
unfoldable pub copy : Memory → ℕ → ℕ → ℕ → Memory
copy m src dst count x =
    if ltb x dst || leb (dst + count) x
    then m x
    else if leb (x + 8) (dst + count)
    then m (src + (x - dst))
    else let part = 2 ^ (8 * (dst + count - x)) in m x / part * part + m (src + (x - dst)) % part
