-- ===== src/Tlsf/Allocate.antt =====
-- `Tlsf::allocate`. The outer `none` stands for `unreachable_unchecked` or a panic; the result is
-- the pointer, if any, and the state after the call.
pub mod Payload
pub mod Lookup
pub mod Pop
pub mod Failure
pub mod Place
pub mod Fresh
pub mod Contents
pub mod Take
pub mod Outcome
pub mod Grant
use rlsf.Base.{ℕ, ◌+◌, ◌-◌, Option, none, some, ◌>>=◌, bit_or, leb, ◌==◌, if◌then◌else◌}
use rlsf.Word.{align_down}
use rlsf.Tlsf.Config.{Config, granularity, size_used}
use rlsf.Tlsf.State.{
  State, Memory, write, write_hdr, next_phys_block, size_at, prev_phys_at, next_free_at,
  prev_free_at, pad_at,
}
use rlsf.Tlsf.Links.{link_free_block, set_first, set_prev_of}
use rlsf.Tlsf.Search.{search_suitable_free_block_list_for_allocation}
use rlsf.Tlsf.Request.{Layout, search_size, payload}

-- Unlinking of the first block of a list whose indices are known.
unfoldable pub pop_first : Config → ℕ → ℕ → ℕ → State → State
pop_first c fl sl block s =
    let next = s.mem (next_free_at block) in
    set_first c fl sl next (record s { mem = set_prev_of s.mem next 0 })

-- The rest of a block of `size` bytes whose first `new_size` are used becomes a free block.
unfoldable pub split_rest : Config → ℕ → ℕ → ℕ → ℕ → State → Option State
split_rest c block size new_size next_phys s =
    let new_free_block = block + new_size in
    let new_free_block_size = size - new_size in
    let m = write s.mem (prev_phys_at next_phys) new_free_block in
    link_free_block c new_free_block new_free_block_size
      (record s { mem = write_hdr m new_free_block new_free_block_size block })

-- `UsedBlockPad`, only where the alignment is large.
unfoldable pub place_pad : Memory → ℕ → ℕ → ℕ → Memory
place_pad m align ptr block = if leb granularity align then write m (pad_at ptr) block else m

-- The header of the used block, and the pad.
unfoldable pub place_used : Memory → ℕ → ℕ → ℕ → ℕ → Memory
unfolding place_pad
place_used m align ptr block new_size =
    place_pad (write m (size_at block) (bit_or new_size size_used)) align ptr block

-- `(overhead + layout.size() + GRANULARITY - 1) & !(GRANULARITY - 1)`
unfoldable pub used_size : Layout → ℕ → ℕ
used_size l overhead = align_down granularity (overhead + l.size + granularity - 1)

-- What `allocate` does once it has found the list `(fl, sl)`.
unfoldable pub allocate_in : Config → Layout → ℕ → ℕ → State → Option (Option ℕ × State)
unfolding pop_first split_rest place_used used_size
allocate_in c l fl sl s =
    let block = s.first_free fl sl in
    let next_phys = next_phys_block s.mem block in
    let size = s.mem (size_at block) in
    let s1 = pop_first c fl sl block s in
    let ptr = payload l.align block in
    let new_size = used_size l (ptr - block) in
    if block == 0 then none else do
      s2 ← if new_size == size then some s1 else split_rest c block size new_size next_phys s1
      some (some ptr, record s2 { mem = place_used s2.mem l.align ptr block new_size })

-- What it does with the result of the search.
unfoldable pub allocate_found : Config → Layout → Option (ℕ × ℕ) → State → Option (Option ℕ × State)
unfolding allocate_in
allocate_found c l none s = some (none, s)
allocate_found c l (some (fl, sl)) s = allocate_in c l fl sl s

unfoldable pub allocate : Config → Layout → State → Option (Option ℕ × State)
unfolding allocate_found
allocate c l s = elim (search_size l) [
  | none ↦ some (none, s)
  | some need ↦ do
    found ← search_suitable_free_block_list_for_allocation c need s
    allocate_found c l found s
]
