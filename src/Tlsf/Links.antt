-- ===== src/Tlsf/Links.antt =====
-- `link_free_block` and `unlink_free_block`. `none` stands for `unreachable_unchecked`.
pub mod Heap
pub mod Remove
pub mod Index
pub mod Rep
pub mod Link
pub mod Unlink
pub mod Frame
use rlsf.Base.{ℕ, ◌+◌, Option, none, some, ◌>>=◌, ◌==◌, if◌then◌else◌}
use rlsf.Int.{set_bit, clear_bit}
use rlsf.Tlsf.Config.{Config}
use rlsf.Tlsf.Class.{map_floor}
use rlsf.Tlsf.State.{State, Memory, write, next_free_at, prev_free_at, set_row, set_entry}

-- The writes of `link_free_block` to memory: `next` is the old head of the list.
unfoldable pub link_writes : Memory → ℕ → ℕ → Memory
link_writes m block next =
    let m' = write (write m (next_free_at block) next) (prev_free_at block) 0 in
    if next == 0 then m' else write m' (prev_free_at next) block

-- The header with `block` as the head of list (fl, sl).
unfoldable pub linked : Config → State → (fl sl block : ℕ) → Memory → State
linked c s fl sl block m = record {
  fl_bitmap = set_bit c.fl_bits s.fl_bitmap fl;
  sl_bitmap = set_row s.sl_bitmap fl (set_bit c.sl_bits (s.sl_bitmap fl) sl);
  first_free = set_entry s.first_free fl sl block;
  mem = m;
}

unfoldable pub link_free_block : Config → ℕ → ℕ → State → Option State
unfolding linked link_writes
link_free_block c block size s = do
  (fl, sl) ← map_floor c size
  some (linked c s fl sl block (link_writes s.mem block (s.first_free fl sl)))

-- The list of (fl, sl) is empty: clear its bit, and that of the level if it was the last one.
unfoldable pub clear_bits : Config → ℕ → ℕ → State → State
clear_bits c fl sl s =
    let row = clear_bit c.sl_bits (s.sl_bitmap fl) sl in
    record s {
      sl_bitmap = set_row s.sl_bitmap fl row;
      fl_bitmap = if row == 0 then clear_bit c.fl_bits s.fl_bitmap fl else s.fl_bitmap;
    }

-- `*first_free = next`, and the bitmaps if that empties the list.
unfoldable pub set_first : Config → ℕ → ℕ → ℕ → State → State
unfolding clear_bits
set_first c fl sl next s =
    let s' = record s { first_free = set_entry s.first_free fl sl next } in
    if next == 0 then clear_bits c fl sl s' else s'

-- `if let Some(next_free) = next_free { next_free.prev_free = prev_free }`
unfoldable pub set_prev_of : Memory → ℕ → ℕ → Memory
set_prev_of m next prev = if next == 0 then m else write m (prev_free_at next) prev

unfoldable pub unlink_free_block : Config → ℕ → ℕ → State → Option State
unfolding set_first set_prev_of
unlink_free_block c block size s =
    let next = s.mem (next_free_at block) in
    let prev = s.mem (prev_free_at block) in
    let m = set_prev_of s.mem next prev in
    if prev == 0
    then (do (fl, sl) ← map_floor c size; some (set_first c fl sl next (record s { mem = m })))
    else some (record s { mem = write m (next_free_at prev) next })
