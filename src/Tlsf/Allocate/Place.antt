-- ===== src/Tlsf/Allocate/Place.antt =====
-- What the writes of `allocate` do to headers and links.
use rlsf.Base.{ℕ, ◌+◌, ◌%◌, ◌≤◌, ◌<◌, ◌≡◌, ◌≢◌, ◌⊎◌, inl, inr, arith}
use rlsf.Word.Align.{bit_or-one}
use rlsf.Tlsf.State.{Memory, write, write_hdr}
use rlsf.Tlsf.Allocate.{place_used, place_pad}
use rlsf.Tlsf.Allocate.Payload.{IsPayload}

-- The word at `a` after the used block is placed, unless it is the pad.
module _ (m : Memory) (align block p new_size : ℕ) (is : IsPayload align block p)
    (whole : new_size % 32 ≡ 0) where
  pub place_used-size : place_used m align p block new_size block ≡ new_size + 1
  unfolding place_used place_pad write
  place_used-size = ground (arith, is.padded, bit_or-one new_size (omega arith))

  -- A header is not the pad.
  pub place_used-header :
      (a : ℕ) → a % 32 < 16 → a ≢ block → place_used m align p block new_size a ≡ m a
  unfolding place_used place_pad write
  place_used-header a low ne = ground (arith, is.granular, is.padded)

  -- The pad is inside the block.
  pub place_used-outside :
      (a : ℕ) → a ≢ block → (a < block + 16) ⊎ (p ≤ a) → place_used m align p block new_size a ≡ m a
  unfolding place_used place_pad write
  place_used-outside a ne (inl low) = ground (arith, is.padded)
  place_used-outside a ne (inr high) = ground (arith, is.padded, is.behind)

-- The header of the rest, and the link back from the block behind it.
module _ (m : Memory) (block rest size next : ℕ) where
  abbrev pub with_rest : Memory
  with_rest = write_hdr (write m (next + 8) rest) rest size block

  pub with_rest-size : with_rest rest ≡ size
  unfolding write_hdr write
  with_rest-size = ground arith

  pub with_rest-prev : with_rest (rest + 8) ≡ block
  unfolding write_hdr write
  with_rest-prev = ground arith

  pub with_rest-next : rest < next → next % 32 ≡ 0 → rest % 32 ≡ 0 → with_rest (next + 8) ≡ rest
  unfolding write_hdr write
  with_rest-next lt al al' = ground arith

  pub with_rest-other : (a : ℕ) → a ≢ next + 8 → a ≢ rest → a ≢ rest + 8 → with_rest a ≡ m a
  unfolding write_hdr write
  with_rest-other a p q r = ground arith
