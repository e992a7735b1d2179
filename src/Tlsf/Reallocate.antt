-- ===== src/Tlsf/Reallocate.antt =====
-- `Tlsf::reallocate`: in place where the block or its free neighbours have the room, by a new
-- block otherwise. The outer `none` stands for `unreachable_unchecked` or a panic.
mod InPlace
pub mod Copy
pub mod Words
pub mod Moved
pub mod Move
pub mod MoveInto
pub mod MoveOutcome
pub mod Rounded
pub mod Outcome
pub mod Whole
pub mod Ways
pub mod Part
pub mod Rest
pub mod Resized
pub mod Shrink
pub mod Grow
pub use InPlace.*
use rlsf.Base.{ℕ, ◌+◌, ◌-◌, Option, none, some, ◌>>=◌}
use rlsf.Tlsf.Config.{Config}
use rlsf.Tlsf.State.{State, copy}
use rlsf.Tlsf.Request.{Layout}
use rlsf.Tlsf.Allocate.{allocate}
use rlsf.Tlsf.Used.{used_block_hdr_for_allocation, size_of_allocation}
use rlsf.Tlsf.Deallocate.{deallocate}

-- A new block, with the contents of the old one, which is freed.
unfoldable pub reallocate_by_copy : Config → ℕ → ℕ → Layout → State → Option (Option ℕ × State)
reallocate_by_copy c ptr old_size l s = do
  (r, s1) ← allocate c l s
  elim r [
    | none ↦ some (none, s1)
    | some new_ptr ↦ do
      s2 ← deallocate c ptr l.align (record s1 { mem = copy s1.mem ptr new_ptr old_size })
      some (some new_ptr, s2)
  ]

unfoldable pub reallocate : Config → ℕ → Layout → State → Option (Option ℕ × State)
unfolding reallocate_by_copy
reallocate c ptr l s = do
  (r, s1) ← reallocate_inplace c ptr (used_block_hdr_for_allocation s.mem ptr l.align) l s
  elim r [
    | some p ↦ some (some p, s1)
    | none ↦ reallocate_by_copy c ptr (size_of_allocation s.mem ptr l.align) l s1
  ]
