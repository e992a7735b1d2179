-- ===== src/Tlsf/Tests/Payloads.antt =====
-- The theorems on the payload of a block at inputs that meet their hypotheses.
use rlsf.Base.{none, ◌+◌, ◌-◌, ◌%◌, ◌≤◌, ◌≡◌, refl, some, arith, inl}
use rlsf.Word
use rlsf.Int
use rlsf.Tlsf.Config
use rlsf.Tlsf.Class
use rlsf.Tlsf.Search
use rlsf.Tlsf.Allocate
use rlsf.Tlsf.Allocate.{allocate}
use rlsf.Tlsf.Allocate.Failure.{allocate-unchanged}
use rlsf.Tlsf.Tests.{small, zeros}
use rlsf.Tlsf.State.{Memory}
use rlsf.Tlsf.Request
use rlsf.Tlsf.Request.{Layout, payload, search_size}
use rlsf.Tlsf.Allocate.{place_used, used_size}
use rlsf.Tlsf.Allocate.Payload.{IsPayload, payload-IsPayload, used_size-fits}
use rlsf.Tlsf.Allocate.Lookup.{size_of_allocation-place_used, hdr_for_allocation_unknown_align}
use rlsf.Tlsf.Used.{used_block_hdr_for_allocation_unknown_align, size_of_allocation}

abbrev layout : Layout
layout = record { size = 40; align = 64 }

abbrev zero_memory : Memory
zero_memory a = 0

payload_4160 : IsPayload 64 4128 4160
payload_4160 = record {
  aligned = refl;
  behind = omega arith;
  near = omega arith;
  padded = λ h. omega arith;
  plain = λ h. absurd (omega arith);
  granular = λ h. refl;
}

need_128 : search_size layout ≡ some 128
unfolding Request.search_size Request.checked_round_up Request.max_overhead Word.align_down
need_128 = refl

payload-IsPayload_example : IsPayload 64 4128 (payload 64 4128)
payload-IsPayload_example = payload-IsPayload 6 4128 (omega arith) refl (omega arith)

used_size-fits_example :
    (4160 + 40 ≤ 4128 + used_size layout (4160 - 4128))
    × (used_size layout (4160 - 4128) % 32 ≡ 0)
    × (used_size layout (4160 - 4128) ≤ 128)
used_size-fits_example = used_size-fits layout 128 4128 4160 need_128 payload_4160

size_of_allocation-place_used_example :
    size_of_allocation (place_used zero_memory 64 4160 4128 96) 4160 64 ≡ 4128 + 96 - 4160
size_of_allocation-place_used_example =
    size_of_allocation-place_used zero_memory 64 4128 4160 96 payload_4160 refl (omega arith)

hdr_for_allocation_unknown_align_example :
    used_block_hdr_for_allocation_unknown_align (place_used zero_memory 64 4160 4128 96) 4160 ≡ 4128
hdr_for_allocation_unknown_align_example =
    hdr_for_allocation_unknown_align zero_memory 64 4128 4160 96 payload_4160 refl (omega arith)
      (omega arith) (inl refl)

-- No pool, no allocation.
fails : allocate small layout zeros ≡ some (none, zeros)
unfolding Allocate.allocate Allocate.allocate_found Request.search_size Request.checked_round_up
    Request.max_overhead Search.search_suitable_free_block_list_for_allocation Search.search_from
    Search.search_above Class.map_ceil Class.first_level Class.rounded_up Class.rotated Config.sli
    Word.align_down Word.trailing_zeros Word.leading_zeros Word.rotate_right Int.bit_scan_forward
    Int.ones Int.ones_truncated
fails = refl

allocate-unchanged_example : zeros ≡ zeros
allocate-unchanged_example = allocate-unchanged small layout zeros zeros fails
