-- ===== src/Tlsf/Tests/Heaps.antt =====
-- The theorems on the heap at inputs that meet their hypotheses.
use mathlib.Core.Option.{none-ne-some}
use rlsf.Base.{ℕ, ◌≡◌, ◌≢◌, refl, sym, Option, some, arith, ◌+◌, ◌≤◌, ◌<◌}
use rlsf.Tlsf.State.{State, Memory, empty}
use rlsf.Tlsf.Links.Rep.{Lists}
use rlsf.Word
use rlsf.Tlsf.Request
use rlsf.Tlsf.Request.{Layout, search_size}
use rlsf.Tlsf.Allocate.Grant.{IsGranted, allocate-IsGranted}
use rlsf.Tlsf.Heap.{vacant, occupied, Block, View, IsHeap}
use rlsf.Tlsf.Heap.Contents.{SameContents, SameOthers}
use rlsf.Tlsf.Heap.New.{no_blocks, empty-IsHeap}
use rlsf.Tlsf.Heap.Members.{unlink-Holds}
use rlsf.Tlsf.Heap.Region.{region_of}
use rlsf.Tlsf.Heap.Replace.{IsRegion, first_tile, rest_tile, replace-first, replace-second}
use rlsf.Tlsf.Heap.Placed.{vacant-ne-sentinel}
use rlsf.Tlsf.Used.{used_block_hdr_for_allocation}
use rlsf.Tlsf.Allocate.{allocate, place_used}
use rlsf.Tlsf.Allocate.Payload.{IsPayload}
use rlsf.Tlsf.Allocate.Fresh.{take_part, taken, take_whole, region}
use rlsf.Tlsf.Allocate.Outcome.{Outcome, allocate-Outcome, IsClear, allocate-apart}
use rlsf.Tlsf.Deallocate.{deallocate, deallocate_unknown_align}
use rlsf.Tlsf.Deallocate.Outcome.{IsReleased, deallocate-IsHeap, deallocate_unknown_align-eq}
use rlsf.Tlsf.Deallocate.RoundTrip.{IsTakenBack, deallocate-allocate}
use rlsf.Tlsf.Reallocate.{shrink, grow}
use rlsf.Tlsf.Reallocate.Resized.{IsResized}
use rlsf.Tlsf.Reallocate.Shrink.{shrink-IsResized}
use rlsf.Tlsf.Reallocate.Grow.{grow-IsResized}
use rlsf.Tlsf.Pool.{insert_free_block_ptr}
use rlsf.Tlsf.Pool.Added.{Spares, IsChunk, free_of, cap_of, added-free, added-cap}
use rlsf.Tlsf.Pool.Chunk.{insert_chunk-IsHeap, with_chunk}
use rlsf.Tlsf.Pool.Insert.{IsFilled, IsExtended}
use rlsf.Tlsf.Pool.Range.{IsPoolLength, length_of, insert_free_block_ptr-IsHeap}
use rlsf.Tlsf.Tests.{small}
use rlsf.Tlsf.Tests.Classes.{small-IsValid}

abbrev zero_memory : Memory
zero_memory a = 0

no_blocks-Spares : (a n : ℕ) → Spares no_blocks a n
no_blocks-Spares a n z k e = absurd (none-ne-some k e)

insert_free_block_ptr-IsHeap_example :
    (r : Option ℕ) × (s' : State) × (lists' : Lists) × (h' : View) × (insert_free_block_ptr small
        4100 1000
        (empty zero_memory)
      ≡ some (r, s'))
    × IsHeap small s' lists' h'
    × IsExtended no_blocks h' 4100 (length_of r)
    × IsPoolLength 1000 r
    × ((x : ℕ) → 4100 + 31 ≤ x → x < 4100 + length_of r → IsFilled h' x)
    × SameContents no_blocks zero_memory s'.mem
insert_free_block_ptr-IsHeap_example =
    insert_free_block_ptr-IsHeap small-IsValid (empty-IsHeap small zero_memory) 4100 1000
      (omega arith) (omega arith) (no_blocks-Spares 4100 1000)

-- A heap of one vacant block of 32 bytes.
chunk : IsChunk small 4128 64
chunk = record {
  ne_null = omega arith;
  aligned = refl;
  whole = refl;
  at_least = omega arith;
  in_word = omega arith;
  at_most = omega arith;
}

abbrev one_block : View
one_block = with_chunk (empty-IsHeap small zero_memory) chunk (no_blocks-Spares 4128 64)

inserted : (s : State) × (lists : Lists) × IsHeap small s lists one_block
inserted =
    let (s, lists, run, heap, same) =
      insert_chunk-IsHeap (empty-IsHeap small zero_memory) chunk (no_blocks-Spares 4128 64)
        small-IsValid in
    (s, lists, heap)

abbrev layout : Layout
layout = record { size = 16; align = 8 }

allocate-Outcome_example :
    (t : Option ℕ × State) × (allocate small layout inserted.0 ≡ some t)
    × Outcome small layout inserted.0 inserted.1 one_block t
allocate-Outcome_example = allocate-Outcome inserted.2 small-IsValid layout 3 (omega arith) refl

cap_here : one_block 4160 ≡ some (cap_of 4128)
cap_here = added-cap (empty-IsHeap small zero_memory).tiled chunk (no_blocks-Spares 4128 64)

cap_used : (cap_of 4128).kind ≢ vacant
cap_used e = vacant-ne-sentinel (sym e)

allocate-apart_example :
    (t : Option ℕ × State) × (allocate small layout inserted.0 ≡ some t) × IsClear 16 4160 32 t.0
allocate-apart_example =
    allocate-apart inserted.2 small-IsValid layout 3 (omega arith) refl 4160 (cap_of 4128) cap_here
      cap_used

deallocate-allocate_example :
    (t : Option ℕ × State) × (allocate small layout inserted.0 ≡ some t)
    × IsTakenBack small layout inserted.0 one_block t
deallocate-allocate_example =
    deallocate-allocate inserted.2 small-IsValid layout 3 (omega arith) refl

-- A heap of one vacant block of 96 bytes.
chunk_128 : IsChunk small 4128 128
chunk_128 = record {
  ne_null = omega arith;
  aligned = refl;
  whole = refl;
  at_least = omega arith;
  in_word = omega arith;
  at_most = omega arith;
}

abbrev large_block : View
large_block = with_chunk (empty-IsHeap small zero_memory) chunk_128 (no_blocks-Spares 4128 128)

inserted_128 : (s : State) × (lists : Lists) × IsHeap small s lists large_block
inserted_128 =
    let (s, lists, run, heap, same) =
      insert_chunk-IsHeap (empty-IsHeap small zero_memory) chunk_128 (no_blocks-Spares 4128 128)
        small-IsValid in
    (s, lists, heap)

need_32 : search_size layout ≡ some 32
unfolding Request.search_size Request.checked_round_up Request.max_overhead Word.align_down
need_32 = refl

allocate-IsGranted_example : IsGranted small layout inserted_128.0
allocate-IsGranted_example =
    allocate-IsGranted inserted_128.2 small-IsValid layout 3 32 4128 (free_of 4128 128)
      (omega arith) refl need_32
      (added-free (empty-IsHeap small zero_memory).tiled chunk_128 (no_blocks-Spares 4128 128)) refl
      (omega arith)

-- The block becomes a used one.
here : one_block 4128 ≡ some (free_of 4128 64)
here = added-free (empty-IsHeap small zero_memory).tiled chunk (no_blocks-Spares 4128 64)

payload_4144 : IsPayload 8 4128 4144
payload_4144 = record {
  aligned = refl;
  behind = omega arith;
  near = omega arith;
  padded = λ h. absurd (omega arith);
  plain = λ h. refl;
  granular = λ h. absurd (omega arith);
}

abbrev one_used : View
one_used = taken inserted.2 here refl 32 (omega arith) (omega arith) refl payload_4144 (omega arith)

used : (s : State) × (lists : Lists) × IsHeap small s lists one_used
used =
    let (s1, lists1, run, free, same, holds) =
      unlink-Holds (inserted.2).free (inserted.2).holds 4128 (free_of 4128 64, here, refl) in
    (
      record s1 { mem = place_used s1.mem 8 4144 4128 32 },
      lists1,
      take_whole inserted.2 here refl 32 (omega arith) (omega arith) refl payload_4144 (omega arith)
          free holds same refl,
    )

abbrev used_block : Block
used_block = first_tile (region_of 4128 (free_of 4128 64)) 32 occupied

used_here : one_used 4128 ≡ some used_block
used_here =
    replace-first
      (region inserted.2 here refl 32 (omega arith) (omega arith) refl payload_4144 (omega arith))
      32 (omega arith) (omega arith) occupied vacant

found : used_block_hdr_for_allocation used.0.mem 4144 8 ≡ 4128
unfolding used_block_hdr_for_allocation
found = refl

deallocate-IsHeap_example :
    (s' : State) × (lists' : Lists) × (h' : View) × (deallocate small 4144 8 used.0 ≡ some s')
    × IsHeap small s' lists' h'
    × IsReleased one_used h' 4128 used_block
    × SameOthers one_used 4128 used.0.mem s'.mem
deallocate-IsHeap_example = deallocate-IsHeap small-IsValid used.2 used_here refl 4144 8 found

deallocate_unknown_align-eq_example :
    deallocate_unknown_align small 4144 used.0 ≡ deallocate small 4144 8 used.0
deallocate_unknown_align-eq_example =
    deallocate_unknown_align-eq small-IsValid used.2 used_here refl 4144 8 payload_4144
      (omega arith) found

-- A used block of 96 bytes, and one of 32 bytes with a vacant one behind it.
here_96 : large_block 4128 ≡ some (free_of 4128 128)
here_96 = added-free (empty-IsHeap small zero_memory).tiled chunk_128 (no_blocks-Spares 4128 128)

abbrev all_used : View
all_used =
    taken inserted_128.2 here_96 refl 96 (omega arith) (omega arith) refl payload_4144 (omega arith)

used_96 : (s : State) × (lists : Lists) × IsHeap small s lists all_used
used_96 =
    let (s1, lists1, run, free, same, holds) =
      unlink-Holds (inserted_128.2).free (inserted_128.2).holds 4128
        (free_of 4128 128, here_96, refl) in
    (
      record s1 { mem = place_used s1.mem 8 4144 4128 96 },
      lists1,
      take_whole inserted_128.2 here_96 refl 96 (omega arith) (omega arith) refl payload_4144
          (omega arith) free holds same refl,
    )

abbrev block_96 : Block
block_96 = first_tile (region_of 4128 (free_of 4128 128)) 96 occupied

at_96 : all_used 4128 ≡ some block_96
at_96 =
    replace-first
      (region inserted_128.2 here_96 refl 96 (omega arith) (omega arith) refl payload_4144
        (omega arith))
      96 (omega arith) (omega arith) occupied vacant

shrink-IsResized_example :
    (s' : State) × (lists' : Lists) × (h' : View) × (shrink small 4144 4128 32 96 used_96.0
      ≡ some (some 4144, s'))
    × IsHeap small s' lists' h'
    × IsResized all_used h' used_96.0.mem s'.mem 4128 block_96 32 (4128 + block_96.size)
shrink-IsResized_example =
    shrink-IsResized small-IsValid used_96.2 at_96 refl 32 (omega arith) refl 4144 (omega arith)

abbrev part_used : View
part_used =
    taken inserted_128.2 here_96 refl 32 (omega arith) (omega arith) refl payload_4144 (omega arith)

used_32 : (s : State) × (lists : Lists) × IsHeap small s lists part_used
used_32 =
    let (s1, lists1, run, free, same, holds) =
      unlink-Holds (inserted_128.2).free (inserted_128.2).holds 4128
        (free_of 4128 128, here_96, refl) in
    let (s2, lists2, split, heap) =
      take_part inserted_128.2 here_96 refl 32 (omega arith) (omega arith) refl payload_4144
        (omega arith) free holds same (omega arith) small-IsValid in
    (record s2 { mem = place_used s2.mem 8 4144 4128 32 }, lists2, heap)

abbrev part_region : IsRegion large_block (region_of 4128 (free_of 4128 128))
part_region =
    region inserted_128.2 here_96 refl 32 (omega arith) (omega arith) refl payload_4144
      (omega arith)

abbrev block_32 : Block
block_32 = first_tile (region_of 4128 (free_of 4128 128)) 32 occupied

at_32 : part_used 4128 ≡ some block_32
at_32 = replace-first part_region 32 (omega arith) (omega arith) occupied vacant

behind_32 : part_used 4160 ≡ some (rest_tile (region_of 4128 (free_of 4128 128)) 32 vacant)
behind_32 = replace-second part_region 32 (omega arith) (omega arith) occupied vacant (omega arith)

grow-IsResized_example :
    (s' : State) × (lists' : Lists) × (h' : View) × (grow small 4144 4128 64 32 4160 used_32.0
      ≡ some (some 4144, s'))
    × IsHeap small s' lists' h'
    × IsResized part_used h' used_32.0.mem s'.mem 4128 block_32 64
        (4128 + block_32.size + (rest_tile (region_of 4128 (free_of 4128 128)) 32 vacant).size)
grow-IsResized_example =
    grow-IsResized small-IsValid used_32.2 at_32 refl 64 (omega arith) refl (omega arith) behind_32
      refl 4144 (omega arith)
