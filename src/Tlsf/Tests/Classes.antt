-- ===== src/Tlsf/Tests/Classes.antt =====
-- The theorems on size classes at inputs that meet their hypotheses.
use rlsf.Base.{ℕ, ◌+◌, ◌^◌, ◌<◌, ◌≤◌, ◌≡◌, ◌↔◌, refl, none, some, arith}
use rlsf.Word
use rlsf.Tlsf.Config
use rlsf.Tlsf.Config.{IsValid}
use rlsf.Tlsf.Class
use rlsf.Tlsf.Class.{map_floor, map_ceil}
use rlsf.Tlsf.Class.Floor.{IsSize, InClass, map_floor_iff, map_floor-none_iff}
use rlsf.Tlsf.Class.Ceil.{IsCeiling, map_ceil-IsCeiling, map_ceil-none}
use rlsf.Tlsf.Tests.{small}

pub small-IsValid : IsValid small
unfolding Config.sli Word.trailing_zeros
small-IsValid = record {
  has_first = omega arith;
  first_fits = omega arith;
  second_fits = omega arith;
  width = omega arith;
  power = refl;
}

pub size_of : (n : ℕ) → 32 ≤ n → n < 2 ^ 64 → IsSize n
size_of n h k = record { at_least = h; in_word = k }

map_floor_iff_example : (map_floor small 1000 ≡ some (4, 7)) ↔ InClass small 4 7 1000
map_floor_iff_example =
    map_floor_iff small-IsValid 4 7 1000 (size_of 1000 (omega arith) (omega arith))

map_floor-none_iff_example : (map_floor small 8192 ≡ none) ↔ (2 ^ (8 + 5) ≤ 8192)
map_floor-none_iff_example =
    map_floor-none_iff small-IsValid 8192 (size_of 8192 (omega arith) (omega arith))

ceil_1000 : map_ceil small 1000 ≡ some (5, 0)
unfolding Class.map_ceil Class.first_level Class.rounded_up Class.rotated Config.sli
    Word.trailing_zeros Word.leading_zeros Word.rotate_right
ceil_1000 = refl

map_ceil-IsCeiling_example : (5 < 8) × IsCeiling small 1000 5 0
map_ceil-IsCeiling_example =
    map_ceil-IsCeiling small-IsValid 1000 (size_of 1000 (omega arith) (omega arith)) ceil_1000

ceil_8191 : map_ceil small 8191 ≡ none
unfolding Class.map_ceil Class.first_level Class.rounded_up Class.rotated Config.sli
    Word.trailing_zeros Word.leading_zeros Word.rotate_right
ceil_8191 = refl

map_ceil-none_example : 8 ≤ 8
map_ceil-none_example =
    map_ceil-none small-IsValid 8191 (size_of 8191 (omega arith) (omega arith)) ceil_8191 8 0
      (omega arith) (omega arith)
