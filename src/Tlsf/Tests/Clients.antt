-- ===== src/Tlsf/Tests/Clients.antt =====
-- The theorems on clients at a sequence of steps.
use rlsf.Base.{ℕ, ◌≡◌, refl, Option, some, none, [], ◌∷◌, All, arith, min, ◌-◌}
use rlsf.Tlsf.State.{State, empty, Memory}
use rlsf.Tlsf.Request.{Layout}
use rlsf.Tlsf.Allocate.{allocate}
use rlsf.Tlsf.Deallocate.{deallocate}
use rlsf.Tlsf.Pool.{insert_free_block_ptr}
use rlsf.Tlsf.Client.{Live, Range, World, Step, insert, grant, Reach, here, next}
use rlsf.Tlsf.Client.Safety.{IsSafe, Reach-IsSafe, Reach-returns, Reach-reallocate}
use rlsf.Tlsf.Client.Sound.{IsSound}
use rlsf.Tlsf.Client.Steps.{Reach-IsSound}
use rlsf.Tlsf.Client.Owned.{owner}
use rlsf.Tlsf.Reallocate.{reallocate_by_copy, reallocate}
use rlsf.Tlsf.Reallocate.Outcome.{ReallocateOutcome}
use rlsf.Tlsf.Reallocate.Whole.{reallocate-ReallocateOutcome}
use rlsf.Tlsf.Reallocate.Copy.{CopyOutcome, reallocate_by_copy-CopyOutcome}
use rlsf.Tlsf.Client.Contents.{KeepsWords, IsStored, survivors, step-contents}
use rlsf.Word
use rlsf.Int
use rlsf.Tlsf.Config
use rlsf.Tlsf.Class
use rlsf.Tlsf.State
use rlsf.Tlsf.Links
use rlsf.Tlsf.Search
use rlsf.Tlsf.Request
use rlsf.Tlsf.Allocate
use rlsf.Tlsf.Pool
use rlsf.Tlsf.Tests.{small, zeros}
use rlsf.Tlsf.Tests.Classes.{small-IsValid}

abbrev zero_memory : Memory
zero_memory a = 0

abbrev state_of : Option (Option ℕ × State) → State
state_of none = zeros
state_of (some t) = t.1

abbrev layout : Layout
layout = record { size = 16; align = 8 }

abbrev pooled : State
pooled = state_of (insert_free_block_ptr small 4128 128 zeros)

abbrev held : State
held = state_of (allocate small layout pooled)

insert_run : insert_free_block_ptr small 4128 128 zeros ≡ some (some 128, pooled)
unfolding Word.align_down Word.trailing_zeros Word.leading_zeros Word.rotate_right
    Int.bit_scan_forward Int.ones Int.ones_truncated Int.set_bit Int.clear_bit Config.sli
    Config.max_pool_size Class.map_floor Class.map_ceil Class.first_level Class.rounded_up
    Class.rotated State.next_phys_block State.set_entry State.set_row State.write State.write_hdr
    Links.clear_bits Links.link_free_block Links.link_writes Links.linked Links.set_first
    Pool.sentinel_size Pool.chunk_size Pool.insert_chunk Pool.insert_chunks Pool.non_zero
    Pool.insert_free_block_ptr_aligned Pool.aligned_start Pool.usable_len Pool.insert_free_block_ptr
insert_run = refl

grant_run : allocate small layout pooled ≡ some (some 4144, held)
unfolding Word.align_down Word.trailing_zeros Word.leading_zeros Word.rotate_right
    Int.bit_scan_forward Int.ones Int.ones_truncated Int.set_bit Int.clear_bit Config.sli
    Config.max_pool_size Class.map_floor Class.map_ceil Class.first_level Class.rounded_up
    Class.rotated State.next_phys_block State.set_entry State.set_row State.write State.write_hdr
    Links.clear_bits Links.link_free_block Links.link_writes Links.linked Links.set_first
    Links.set_prev_of Links.unlink_free_block Search.search_suitable_free_block_list_for_allocation
    Search.search_above Search.search_from Request.search_size Request.checked_round_up
    Request.max_overhead Request.payload Allocate.allocate Allocate.allocate_found
    Allocate.allocate_in Allocate.place_pad Allocate.place_used Allocate.pop_first
    Allocate.split_rest Allocate.used_size Pool.sentinel_size Pool.chunk_size Pool.insert_chunk
    Pool.insert_chunks Pool.non_zero Pool.insert_free_block_ptr_aligned Pool.aligned_start
    Pool.usable_len Pool.insert_free_block_ptr
grant_run = refl

abbrev twice : State
twice = state_of (allocate small layout held)

grant_again : allocate small layout held ≡ some (some 4176, twice)
unfolding Word.align_down Word.trailing_zeros Word.leading_zeros Word.rotate_right
    Int.bit_scan_forward Int.ones Int.ones_truncated Int.set_bit Int.clear_bit Config.sli
    Config.max_pool_size Class.map_floor Class.map_ceil Class.first_level Class.rounded_up
    Class.rotated State.next_phys_block State.set_entry State.set_row State.write State.write_hdr
    Links.clear_bits Links.link_free_block Links.link_writes Links.linked Links.set_first
    Links.set_prev_of Links.unlink_free_block Search.search_suitable_free_block_list_for_allocation
    Search.search_above Search.search_from Request.search_size Request.checked_round_up
    Request.max_overhead Request.payload Allocate.allocate Allocate.allocate_found
    Allocate.allocate_in Allocate.place_pad Allocate.place_used Allocate.pop_first
    Allocate.split_rest Allocate.used_size Pool.sentinel_size Pool.chunk_size Pool.insert_chunk
    Pool.insert_chunks Pool.non_zero Pool.insert_free_block_ptr_aligned Pool.aligned_start
    Pool.usable_len Pool.insert_free_block_ptr
grant_again = refl

abbrev block : Live
block = record { ptr = 4144; layout = layout }

abbrev pool : Range
pool = record { start = 4128; len = 128 }

abbrev world : World
world = record { state = held; live = block ∷ []; pools = pool ∷ [] }

-- A pool is handed over, and a block is allocated.
reached : Reach small zero_memory world
reached =
    next
      (next here
        (insert pool (some 128) pooled (omega arith) (omega arith) (omega arith) tt insert_run))
      (grant layout 3 4144 held (omega arith) refl grant_run)

Reach-IsSafe_example : IsSafe world
Reach-IsSafe_example = Reach-IsSafe small-IsValid reached

Reach-returns_example :
    ((t : Option ℕ × State) × (allocate small layout held ≡ some t))
    × ((s' : State) × (deallocate small 4144 8 held ≡ some s'))
Reach-returns_example =
    Reach-returns layout 3 [] block [] small-IsValid reached (omega arith) refl refl

abbrev again :
    Step small world
      (record world { state = twice; live = record { ptr = 4176; layout = layout } ∷ block ∷ [] })
again = grant layout 3 4176 twice (omega arith) refl grant_again

step-contents_example : All (KeepsWords (IsStored again) held.mem twice.mem) (survivors again)
step-contents_example = step-contents small-IsValid reached again

sound : IsSound small world
sound = Reach-IsSound small-IsValid reached

abbrev larger : Layout
larger = record { size = 24; align = 8 }

reallocate_by_copy-CopyOutcome_example :
    (t : Option ℕ × State) × (reallocate_by_copy small 4144 16 larger held ≡ some t)
    × CopyOutcome small held sound.view (owner held.mem block) 4144 16 larger t
reallocate_by_copy-CopyOutcome_example =
    reallocate_by_copy-CopyOutcome small-IsValid sound.heap block (sound.owned).0 larger refl 16
      (omega arith) ((sound.owned).0).room 3 (omega arith) refl

reallocate-ReallocateOutcome_example :
    (t : Option ℕ × State) × (reallocate small 4144 larger held ≡ some t)
    × ReallocateOutcome small held sound.view
        (owner held.mem block)
        4144
        (min 24 (((sound.owned).0).block.size - (4144 - owner held.mem block)))
        larger
        Unit
        t
reallocate-ReallocateOutcome_example =
    reallocate-ReallocateOutcome small-IsValid sound.heap block (sound.owned).0 larger refl 3
      (omega arith) refl

Reach-reallocate_example : (t : Option ℕ × State) × (reallocate small 4144 larger held ≡ some t)
Reach-reallocate_example =
    Reach-reallocate larger 3 [] block [] small-IsValid reached (omega arith) refl refl refl
