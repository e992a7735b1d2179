-- ===== src/Tlsf/Allocate/Lookup.antt =====
-- What `allocate` writes into a used block is what the other operations read there.
use native.Mathlib.Decide.{dec_lt}
use rlsf.Base.{ℕ, ◌+◌, ◌-◌, ◌%◌, ◌≤◌, ◌<◌, ◌≡◌, ◌≢◌, ◌⊎◌, inl, inr, sym, ap, ◌∙◌, arith}
use rlsf.Word.Align.{bit_or-one}
use rlsf.Tlsf.State.{Memory, write}
use rlsf.Tlsf.Allocate.{place_used, place_pad}
use rlsf.Tlsf.Allocate.Payload.{IsPayload}
use rlsf.Tlsf.Used.{
  used_block_hdr_for_allocation, used_block_hdr_for_allocation_unknown_align, payload_size,
  size_of_allocation,
}

module _ (m : Memory) (align block p new_size : ℕ) (is : IsPayload align block p)
    (whole : new_size % 32 ≡ 0) (ne_null : block ≢ 0) where
  abbrev used : Memory
  used = place_used m align p block new_size

  hdr : used block ≡ new_size + 1
  unfolding place_used place_pad write
  hdr = ground (arith, is.padded, bit_or-one new_size (omega arith))

  -- The header of the block is found from the payload and its alignment.
  pub hdr_for_allocation : used_block_hdr_for_allocation used p align ≡ block
  unfolding place_used place_pad write used_block_hdr_for_allocation
  hdr_for_allocation = ground (arith, is.plain)

  -- After `allocate` has written the header of a used block that is not null, of a multiple of 32
  -- bytes, the usable size of its payload is what is left from the payload to the end of the
  -- block.
  pub size_of_allocation-place_used : size_of_allocation used p align ≡ block + new_size - p
  unfolding size_of_allocation payload_size
  size_of_allocation-place_used =
      ap (λ t. t + (used t - 1) - p) hdr_for_allocation ∙ omega (arith, hdr)

  -- The word before the payload.
  pad_large : 32 ≤ align → used (p - 8) ≡ block
  unfolding place_used place_pad write
  pad_large h = ground arith

  unwritten : align < 32 → (a : ℕ) → a ≢ block → used a ≡ m a
  unfolding place_used place_pad write
  unwritten h a ne = ground arith

  pad_small : align < 32 → used (p - 8) ≡ m (block + 8)
  pad_small h =
      let e : p - 8 ≡ block + 8 = omega (arith, is.plain h) in
      ap used e ∙ unwritten h (block + 8) (omega arith)

  -- After `allocate` has written the header of a used block that is not null, of a multiple of 32
  -- bytes, in which its payload lies, that header is found without the alignment, provided that
  -- the block before it, if there is one, is another one and ends before the payload.
  pub hdr_for_allocation_unknown_align :
      p ≤ block + new_size
      → (m (block + 8) ≡ 0) ⊎ (m (block + 8) ≢ block) × (m (block + 8) + m (m (block + 8)) < p)
      → used_block_hdr_for_allocation_unknown_align used p ≡ block
  unfolding used_block_hdr_for_allocation_unknown_align
  hdr_for_allocation_unknown_align inside prev = elim (dec_lt align 32) [
    | no large ↦ let pad = pad_large (omega arith) in rw pad (ground (arith, hdr))
    | yes low ↦
        let pad = pad_small low in
        let before : block ≡ p - 16 = omega (arith, is.plain low) in
        rw pad (elim prev [
          | inl first ↦ rw first (sym before)
          | inr (ne, ends) ↦ rw (unwritten low (m (block + 8)) ne) (ground arith)
        ])
  ]
