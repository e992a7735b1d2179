-- ===== src/Tlsf/Reallocate/InPlace.antt =====
-- `Tlsf::reallocate_inplace`: its three ways, in the order in which the code tries them.
use rlsf.Base.{ℕ, ◌+◌, ◌-◌, min, Option, none, some, ◌>>=◌, bit_or, ltb, leb, ◌==◌, if◌then◌else◌}
use rlsf.Word.{checked_add}
use rlsf.Tlsf.Config.{Config, size_used}
use rlsf.Tlsf.State.{State, write, write_hdr, next_phys_block, size_at, prev_phys_at, copy}
use rlsf.Tlsf.Links.{link_free_block, unlink_free_block}
use rlsf.Tlsf.Request.{Layout, checked_round_up, payload}
use rlsf.Tlsf.Allocate.{place_used}
use rlsf.Tlsf.Used.{is_free}

-- A free block of `size` bytes at `block + new_size`, merged with the block `next` behind it if
-- that is free. `block` is the used block before it.
unfoldable pub free_rest : Config → ℕ → ℕ → ℕ → ℕ → State → Option State
free_rest c block new_size size next s =
    let rest = block + new_size in
    let next_size = s.mem (size_at next) in
    do
      (rest_size, s1) ←
          if is_free next_size
          then (do
            s' ← unlink_free_block c next next_size s
            let next_next = next_phys_block s'.mem next
            some (size + next_size, record s' { mem = write s'.mem (prev_phys_at next_next) rest }))
          else some (size, record s { mem = write s.mem (prev_phys_at next) rest })
      link_free_block c rest rest_size (record s1 { mem = write_hdr s1.mem rest rest_size block })

-- `new_size <= old_size`
unfoldable pub shrink : Config → ℕ → ℕ → ℕ → ℕ → State → Option (Option ℕ × State)
unfolding free_rest
shrink c ptr block new_size old_size s = if new_size == old_size then some (some ptr, s) else do
  s1 ← free_rest c block new_size (old_size - new_size) (next_phys_block s.mem block) s
  some (some ptr, record s1 { mem = write s1.mem (size_at block) (bit_or new_size size_used) })

-- The next block is free and has the `grow_by` bytes that are missing.
unfoldable pub grow : Config → ℕ → ℕ → ℕ → ℕ → ℕ → State → Option (Option ℕ × State)
grow c ptr block new_size grow_by next s =
    let next_size = s.mem (size_at next) in
    let next_next = next_phys_block s.mem next in
    let slack = block + new_size in
    do
      s1 ← unlink_free_block c next next_size s
      s2 ←
          if ltb grow_by next_size
          then (do
            s' ←
                link_free_block c slack (next_size - grow_by)
                  (record s1 { mem = write_hdr s1.mem slack (next_size - grow_by) block })
            some (record s' { mem = write s'.mem (prev_phys_at next_next) slack }))
          else some (record s1 { mem = write s1.mem (prev_phys_at next_next) block })
      some (some ptr, record s2 { mem = write s2.mem (size_at block) (bit_or new_size size_used) })

-- The room around a block if it were removed: the bytes, and the block behind them.
pub record Clearance : Type 0 where
  pub bytes : ℕ
  pub end : ℕ

-- The blocks `prev`, `block` and, if it is free, `next` become one used block at `prev`, and a
-- free block if there is a rest.
unfoldable pub move_into :
    Config
    → (ptr new_ptr prev next new_size count : ℕ) → Clearance
    → ℕ
    → State
    → Option (Option ℕ × State)
unfolding free_rest
move_into c ptr new_ptr prev next new_size count room align s = do
  s1 ← unlink_free_block c prev (s.mem (size_at prev)) s
  let next_size = s1.mem (size_at next)
  s2 ← if is_free next_size then unlink_free_block c next next_size s1 else some s1
  let s3 = record s2 { mem = copy s2.mem ptr new_ptr count }
  s4 ←
      if new_size == room.bytes
      then some (record s3 { mem = write s3.mem (prev_phys_at room.end) prev })
      else free_rest c prev new_size (room.bytes - new_size) room.end s3
  some (some new_ptr, record s4 { mem = place_used s4.mem align new_ptr prev new_size })

-- The moving approach once the new size is known: it has to fit the room.
unfoldable pub move_sized :
    Config
    → (ptr new_ptr prev next count : ℕ) → Clearance
    → ℕ
    → Option ℕ
    → State
    → Option (Option ℕ × State)
unfolding move_into
move_sized c ptr new_ptr prev next count room align none s = some (none, s)
move_sized c ptr new_ptr prev next count room align (some new_size) s =
    if ltb room.bytes new_size
    then some (none, s)
    else move_into c ptr new_ptr prev next new_size count room align s

-- The moving approach: the previous block has to be free as well.
unfoldable pub move :
    Config → (ptr block next old_size : ℕ) → Clearance → Layout → State → Option (Option ℕ × State)
unfolding move_sized
move c ptr block next old_size room l s =
    let prev = s.mem (prev_phys_at block) in
    let prev_size = s.mem (size_at prev) in
    let bytes = room.bytes + prev_size in
    let new_ptr = payload l.align prev in
    let count = min l.size (old_size - (ptr - block)) in
    if prev == 0
    then some (none, s)
    else if is_free prev_size
    then move_sized c ptr new_ptr prev next count (record { bytes = bytes; end = room.end }) l.align
        (checked_add (new_ptr - prev) l.size >>= checked_round_up) s
    else some (none, s)

-- Growing: into the next block if it is free and large enough, else by moving.
unfoldable pub grow_or_move :
    Config → (ptr block new_size old_size : ℕ) → Layout → State → Option (Option ℕ × State)
unfolding grow move
grow_or_move c ptr block new_size old_size l s =
    let next = next_phys_block s.mem block in
    let next_size = s.mem (size_at next) in
    if is_free next_size
    then if ltb next_size (new_size - old_size)
      then move c ptr block next old_size
          (record { bytes = old_size + next_size; end = next_phys_block s.mem next }) l s
      else grow c ptr block new_size (new_size - old_size) next s
    else move c ptr block next old_size (record { bytes = old_size; end = next }) l s

-- The three ways, once the new size is known.
unfoldable pub reallocate_sized :
    Config → (ptr block old_size : ℕ) → Layout → Option ℕ → State → Option (Option ℕ × State)
unfolding shrink grow_or_move
reallocate_sized c ptr block old_size l none s = some (none, s)
reallocate_sized c ptr block old_size l (some new_size) s =
    if leb new_size old_size
    then shrink c ptr block new_size old_size s
    else grow_or_move c ptr block new_size old_size l s

unfoldable pub reallocate_inplace : Config → ℕ → ℕ → Layout → State → Option (Option ℕ × State)
unfolding reallocate_sized
reallocate_inplace c ptr block l s =
    reallocate_sized c ptr block (s.mem (size_at block) - size_used) l
      (checked_add (ptr - block) l.size >>= checked_round_up) s
