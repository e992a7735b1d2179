-- ===== src/Tlsf/Links/Index.antt =====
-- The two levels of bitmaps agree with the table of list heads.
use Prim.Native.Nat.{bit_and, bit_and-bitwise}
use mathlib.Core.Bool.{false≢true}
use rlsf.Base.{
  two-pow-pos, ℕ, ◌^◌, ◌<◌, ◌≡◌, ◌≢◌, sym, ap, ◌∙◌, true, false, not, arith, Bool-cases, inl, inr,
  ◌==◌, lt→ltb, ≢→==,
}
use rlsf.Word.{bit_not}
use rlsf.Int.{get_bit, set_bit, clear_bit}
use rlsf.Int.Laws.{get_bit-set_bit, get_bit-clear_bit, set_bit-lt, clear_bit-lt}
use rlsf.Tlsf.Config.{Config}
use rlsf.Tlsf.State.{State, Memory, set_row, set_entry, empty}
use rlsf.Tlsf.Links.{linked, set_first, clear_bits}

-- `sl_bitmap[fl].get_bit(sl)` is set iff `first_free[fl][sl].is_some()`, and the bit of a level in
-- `fl_bitmap` iff its word in `sl_bitmap` is not zero.
pub record IsIndexed (c : Config) (s : State) : Type 0 where
  pub second : (fl sl : ℕ) → get_bit c.sl_bits (s.sl_bitmap fl) sl ≡ not (s.first_free fl sl == 0)
  pub first : (fl : ℕ) → get_bit c.fl_bits s.fl_bitmap fl ≡ not (s.sl_bitmap fl == 0)
  pub fl_width : s.fl_bitmap < 2 ^ c.fl_bits
  pub sl_width : (fl : ℕ) → s.sl_bitmap fl < 2 ^ c.sl_bits

-- Writes to memory are no matter.
pub IsIndexed-mem :
    {c : Config} {s : State} {m : Memory} → IsIndexed c s → IsIndexed c (record s { mem = m })
IsIndexed-mem is = record {
  second = is.second;
  first = is.first;
  fl_width = is.fl_width;
  sl_width = is.sl_width;
}

get_bit-zero : (w i : ℕ) → get_bit w 0 i ≡ false
unfolding get_bit
get_bit-zero w i = let e : bit_and 0 (2 ^ i) ≡ 0 = bit_and-bitwise 0 (2 ^ i) in ground (arith, e)

pub empty-IsIndexed : (c : Config) (m : Memory) → IsIndexed c (empty m)
empty-IsIndexed c m = record {
  second = λ fl sl. get_bit-zero c.sl_bits sl;
  first = λ fl. get_bit-zero c.fl_bits fl;
  fl_width = two-pow-pos c.fl_bits;
  sl_width = λ fl. two-pow-pos c.sl_bits;
}

pub ne-zero_of_get_bit : (w x i : ℕ) → get_bit w x i ≡ true → (x == 0) ≡ false
ne-zero_of_get_bit w x i h =
    ≢→== x 0
      (λ e. false≢true (sym (get_bit-zero w i) ∙ (ap (λ (t : ℕ). get_bit w t i) (sym e) ∙ h)))

clear_bit-zero : (w i : ℕ) → clear_bit w 0 i ≡ 0
unfolding clear_bit
clear_bit-zero w i =
    let e : bit_and 0 (bit_not w (2 ^ i)) ≡ 0 = bit_and-bitwise 0 _ in ground (arith, e)

-- `link_free_block` puts a block that is not null at the head of the list (fl, sl).
module _ {c : Config} {s : State} (is : IsIndexed c s) (fl sl : ℕ) (fl_in : fl < c.fl_bits)
    (sl_in : sl < c.sl_bits) where
  pub linked-IsIndexed :
      (block : ℕ) (m : Memory) → block ≢ 0 → IsIndexed c (linked c s fl sl block m)
  unfolding linked set_row set_entry
  linked-IsIndexed block m ne = record {
    second = λ x y. ground (
      arith,
      get_bit-set_bit c.sl_bits (s.sl_bitmap fl) sl y (is.sl_width fl),
      lt→ltb sl c.sl_bits sl_in,
      is.second x y,
    );
    first = λ x. ground (
      arith,
      get_bit-set_bit c.fl_bits s.fl_bitmap fl x is.fl_width,
      lt→ltb fl c.fl_bits fl_in,
      is.first x,
      row_ne,
    );
    fl_width = set_bit-lt c.fl_bits s.fl_bitmap fl is.fl_width;
    sl_width = λ x.
        ground (arith, is.sl_width x, set_bit-lt c.sl_bits (s.sl_bitmap fl) sl (is.sl_width fl));
  }
    where
      row_ne : (set_bit c.sl_bits (s.sl_bitmap fl) sl == 0) ≡ false
      row_ne = ne-zero_of_get_bit c.sl_bits _ sl (
          ground (
            arith,
            get_bit-set_bit c.sl_bits (s.sl_bitmap fl) sl sl (is.sl_width fl),
            lt→ltb sl c.sl_bits sl_in,
          ))

-- A new head for a list that is not empty; null empties it.
pub set_first-IsIndexed :
    {c : Config} {s : State} (is : IsIndexed c s) (fl sl next : ℕ)
    → s.first_free fl sl ≢ 0
    → IsIndexed c (set_first c fl sl next s)
unfolding set_first clear_bits set_row set_entry
set_first-IsIndexed {c} {s} is fl sl next occupied = elim (Bool-cases (next == 0)) [
  | inl empties ↦ rw empties (record {
    second = λ x y.
        ground (
          arith,
          get_bit-clear_bit c.sl_bits (s.sl_bitmap fl) sl y (is.sl_width fl),
          is.second x y,
        );
    first = λ x. ground (
      arith,
      get_bit-clear_bit c.fl_bits s.fl_bitmap fl x is.fl_width,
      is.first x,
      clear_bit-zero c.sl_bits sl,
    );
    fl_width = ground (arith, is.fl_width, clear_bit-lt c.fl_bits s.fl_bitmap fl is.fl_width);
    sl_width = λ x.
        ground (arith, is.sl_width x, clear_bit-lt c.sl_bits (s.sl_bitmap fl) sl (is.sl_width fl));
  })
  | inr stays ↦ rw stays (record {
    second = λ x y. ground (arith, is.second x y);
    first = is.first;
    fl_width = is.fl_width;
    sl_width = is.sl_width;
  })
]
