-- ===== src/Override/Tests.antt =====
-- The theorem on `calloc` at an allocator whose source has one allocation to give.
use mathlib.Core.Option.{none-ne-some}
use rlsf.Base.{some_inj, ap, ℕ, ◌+◌, ◌*◌, ◌<◌, ◌≤◌, ◌≡◌, ◌⊎◌, refl, Option, none, some, arith}
use rlsf.Word
use rlsf.Int
use rlsf.Tlsf.Config
use rlsf.Tlsf.Class
use rlsf.Tlsf.State.{empty}
use rlsf.Tlsf.State
use rlsf.Tlsf.Links
use rlsf.Tlsf.Search
use rlsf.Tlsf.Request
use rlsf.Tlsf.Request.{Layout}
use rlsf.Tlsf.Allocate
use rlsf.Tlsf.Pool
use rlsf.Flex.Source.{FlexSource, default_source}
use rlsf.Flex.Grow
use rlsf.Flex.Footer
use rlsf.Flex.Alloc
use rlsf.Global
use rlsf.Global.Wasm32.{no_mutex}
use rlsf.Global.{Os, GlobalTlsf, new, c_allocate}
use rlsf.Override.{calloc, calloc-zeros, memory}

abbrev source : FlexSource ℕ
source = record default_source {
  alloc = λ min_size w. (some (some (record { start = 65536; len = min_size }), w));
  min_align = 32;
}

abbrev os : Os ℕ
os = record { mutex = no_mutex; source = source }

abbrev global : GlobalTlsf ℕ
global = new 0 (λ a. 7)

abbrev layout : Layout
layout = record { size = 8 * 5; align = 16 }

state_after : Option (Option ℕ × GlobalTlsf ℕ) → GlobalTlsf ℕ
state_after none = global
state_after (some (r, g)) = g

pointer_after : Option (Option ℕ × GlobalTlsf ℕ) → Option (Option ℕ)
pointer_after none = none
pointer_after (some (r, g)) = some r

run_of :
    (o : Option (Option ℕ × GlobalTlsf ℕ)) (p : Option ℕ)
    → pointer_after o ≡ some p
    → o ≡ some (p, state_after o)
unfolding pointer_after state_after
run_of none p e = absurd (none-ne-some p e)
run_of (some (r, g)) p e = ap (λ (t : Option ℕ). some (t, g)) (some_inj e)

pointer : pointer_after (c_allocate os layout global) ≡ some (some 65552)
unfolding pointer_after Global.c_allocate Global.lock_inner Alloc.allocate Allocate.allocate
    Request.search_size Search.search_suitable_free_block_list_for_allocation Class.map_ceil
    Class.first_level Word.leading_zeros Word.align_down Class.rounded_up Class.rotated
    Word.rotate_right Config.sli Word.trailing_zeros Int.bit_scan_forward Int.ones
    Grow.increase_pool_to_contain_allocation Request.pool_size_to_contain_allocation
    Class.map_ceil_and_unmap Footer.get_for_alloc Footer.move_ftr Footer.write_ftr Grow.create_pool
    Grow.extend_pool Grow.grow_or_create Grow.insert_pool Grow.linked_ftr Grow.moved_ftr
    Int.clear_bit Int.ones_truncated Int.set_bit Allocate.allocate_in Allocate.place_pad
    Allocate.place_used Allocate.pop_first Allocate.split_rest Allocate.used_size Class.map_floor
    Class.max_map_ceil_and_unmap_input Config.max_pool_size Links.clear_bits Links.link_free_block
    Links.link_writes Links.linked Links.set_first Links.set_prev_of Links.unlink_free_block
    Pool.aligned_start Pool.append_free_block_ptr Pool.assimilate Pool.chunk_size Pool.coalesce
    Pool.insert_chunk Pool.insert_chunks Pool.insert_free_block_ptr
    Pool.insert_free_block_ptr_aligned Pool.non_zero Pool.sentinel_size Pool.usable_len
    Request.checked_round_up Request.max_overhead Request.payload Search.search_above
    Search.search_from State.next_phys_block State.set_entry State.set_row State.write
    State.write_hdr
pointer = refl

calloc-zeros_example :
    (h : GlobalTlsf ℕ) × (calloc os 5 8 global ≡ some (65552, h))
    × ((x : ℕ) → 65552 ≤ x → x + 8 ≤ 65552 + 8 * 5 → memory h x ≡ 0)
    × ((x : ℕ)
        → (x < 65552) ⊎ (65552 + 8 * 5 ≤ x)
        → memory h x ≡ memory (state_after (c_allocate os layout global)) x)
calloc-zeros_example =
    calloc-zeros os 5 8 65552 global (state_after (c_allocate os layout global)) (omega arith)
      (run_of (c_allocate os layout global) (some 65552) pointer)
