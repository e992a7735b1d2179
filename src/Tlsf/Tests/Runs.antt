-- ===== src/Tlsf/Tests/Runs.antt =====
-- Runs of the allocator core: after two allocations and their release one block is left.
use rlsf.Base.{◌∷◌, [], ◌≡◌, refl, ℕ, Option, some, ◌>>=◌, List}
use rlsf.Tlsf.Allocate.{allocate}
use rlsf.Tlsf.Deallocate.{deallocate}
use rlsf.Tlsf.Pool.{insert_free_block_ptr}
use rlsf.Tlsf.Blocks.{iter_blocks}
use rlsf.Word
use rlsf.Int
use rlsf.Tlsf.Config
use rlsf.Tlsf.Class
use rlsf.Tlsf.State
use rlsf.Tlsf.Links
use rlsf.Tlsf.Search
use rlsf.Tlsf.Request
use rlsf.Tlsf.Allocate
use rlsf.Tlsf.Used
use rlsf.Tlsf.Deallocate
use rlsf.Tlsf.Pool
use rlsf.Tlsf.Blocks
use rlsf.Tlsf.Tests.{small, zeros}

-- Two allocations in a pool of 1000 bytes at address 4100.
abbrev run_alloc : Option (Option ℕ × Option ℕ × List ℕ)
run_alloc = do
  (r, s) ← insert_free_block_ptr small 4100 1000 zeros
  (p, s1) ← allocate small (record { size = 40; align = 8 }) s
  (q, s2) ← allocate small (record { size = 40; align = 64 }) s1
  some (p, q, iter_blocks s2.mem 4128 960)

abbrev run_free : Option (List ℕ)
run_free = do
  (r, s) ← insert_free_block_ptr small 4100 1000 zeros
  (p, s1) ← allocate small (record { size = 40; align = 8 }) s
  (q, s2) ← allocate small (record { size = 40; align = 64 }) s1
  s3 ← deallocate small 4144 8 s2
  s4 ← deallocate small 4224 64 s3
  some (iter_blocks s4.mem 4128 960)

run_free_eq : run_free ≡ some (4128 ∷ [])
unfolding Word.align_down Word.trailing_zeros Word.leading_zeros Word.rotate_right
    Int.bit_scan_forward Int.ones Int.ones_truncated Int.set_bit Int.clear_bit Config.sli
    Config.max_pool_size Class.map_floor Class.map_ceil Class.first_level Class.rounded_up
    Class.rotated State.next_phys_block State.set_entry State.set_row State.write State.write_hdr
    Links.clear_bits Links.link_free_block Links.link_writes Links.linked Links.set_first
    Links.set_prev_of Links.unlink_free_block Search.search_suitable_free_block_list_for_allocation
    Search.search_above Search.search_from Request.search_size Request.checked_round_up
    Request.max_overhead Request.payload Allocate.allocate Allocate.allocate_found
    Allocate.allocate_in Allocate.place_pad Allocate.place_used Allocate.pop_first
    Allocate.split_rest Allocate.used_size Used.used_block_hdr_for_allocation Deallocate.deallocate
    Deallocate.deallocate_block Deallocate.merge_next Deallocate.merge_prev Deallocate.fill_hole
    Pool.sentinel_size Pool.chunk_size Pool.insert_chunk Pool.insert_chunks Pool.non_zero
    Pool.insert_free_block_ptr_aligned Pool.aligned_start Pool.usable_len Pool.insert_free_block_ptr
    Blocks.blocks_from Blocks.iter_blocks
run_free_eq = refl

run_alloc_eq : run_alloc ≡ some (some 4144, some 4224, 4128 ∷ 4192 ∷ 4288 ∷ [])
unfolding Word.align_down Word.trailing_zeros Word.leading_zeros Word.rotate_right
    Int.bit_scan_forward Int.ones Int.ones_truncated Int.set_bit Int.clear_bit Config.sli
    Config.max_pool_size Class.map_floor Class.map_ceil Class.first_level Class.rounded_up
    Class.rotated State.next_phys_block State.set_entry State.set_row State.write State.write_hdr
    Links.clear_bits Links.link_free_block Links.link_writes Links.linked Links.set_first
    Links.set_prev_of Links.unlink_free_block Search.search_suitable_free_block_list_for_allocation
    Search.search_above Search.search_from Request.search_size Request.checked_round_up
    Request.max_overhead Request.payload Allocate.allocate Allocate.allocate_found
    Allocate.allocate_in Allocate.place_pad Allocate.place_used Allocate.pop_first
    Allocate.split_rest Allocate.used_size Used.used_block_hdr_for_allocation Deallocate.deallocate
    Deallocate.deallocate_block Deallocate.merge_next Deallocate.merge_prev Deallocate.fill_hole
    Pool.sentinel_size Pool.chunk_size Pool.insert_chunk Pool.insert_chunks Pool.non_zero
    Pool.insert_free_block_ptr_aligned Pool.aligned_start Pool.usable_len Pool.insert_free_block_ptr
    Blocks.blocks_from Blocks.iter_blocks
run_alloc_eq = refl
