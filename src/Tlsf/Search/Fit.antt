-- ===== src/Tlsf/Search/Fit.antt =====
-- The search finds the first list whose blocks are all large enough.
use rlsf.Base.{
  ℕ, ◌+◌, ◌*◌, ◌^◌, ◌≤◌, ◌<◌, ◌≡◌, ◌≢◌, inl, inr, refl, Option, none, some, List, [], ◌∷◌, arith,
  All, le_of_mul-le, mul_le_mul, two-pow_mono, two-pow-suc, suc, subst, Option-cases,
}
use rlsf.Tlsf.Config.{Config, IsValid}
use rlsf.Tlsf.Class.{map_floor, map_ceil}
use rlsf.Tlsf.Class.Floor.{IsSize, map_floor_iff, sllen_pos}
use rlsf.Tlsf.Class.Ceil.{IsCeiling, map_ceil-IsCeiling, map_ceil-none}
use rlsf.Tlsf.State.{State, Memory}
use rlsf.Tlsf.Links.Rep.{Lists, IsFree}
use rlsf.Tlsf.Search.{search_suitable_free_block_list_for_allocation}
use rlsf.Tlsf.Search.Next.{IsBefore, IsNext, found, nowhere, InTable, search_from-IsNext}

-- The free blocks have sizes that a block can have.
abbrev pub AllSizes : Memory → Lists → Type 0
AllSizes m lists = (x y : ℕ) → All (λ b. IsSize (m b)) (lists x y)

-- The least size of list (x, y) is at least `size`.
abbrev pub Covers : Config → (size x y : ℕ) → Type 0
Covers c size x y = (y < c.sllen) × (size * c.sllen ≤ (c.sllen + y) * 2 ^ (x + 5))

-- The first list that covers the size and is not empty. All its blocks have the size.
pub data IsFit (c : Config) (m : Memory) (lists : Lists) (size : ℕ) : Option (ℕ × ℕ) → Type 0 where
  fit :
      (x y : ℕ)
      → lists x y ≢ []
      → All (λ b. size ≤ m b) (lists x y)
      → ((i j : ℕ) → lists i j ≢ [] → Covers c size i j → IsBefore x y i j)
      → IsFit c m lists size (some (x, y))
  no_fit : ((i j : ℕ) → Covers c size i j → ¬ (lists i j ≢ [])) → IsFit c m lists size none

module _ {c : Config} {s : State} {lists : Lists} (v : IsValid c) (free : IsFree c s lists)
    (sizes : AllSizes s.mem lists) where
  pub table : InTable c lists
  table x y ne = at_head (lists x y) (free.classes x y) (sizes x y) ne
    where
      at_head :
          (bs : List ℕ)
          → All (λ b. map_floor c (s.mem b) ≡ some (x, y)) bs
          → All (λ b. IsSize (s.mem b)) bs
          → bs ≢ []
          → (x < c.fllen) × (y < c.sllen)
      at_head [] k is h = absurd (h refl)
      at_head (b ∷ bs) k is h =
          let class = (map_floor_iff v x y (s.mem b) is.0).0 k.0 in (class.level, class.index)

  -- The blocks of a list that covers the size are large enough.
  covered :
      (size x y : ℕ)
      → size * c.sllen ≤ (c.sllen + y) * 2 ^ (x + 5)
      → All (λ b. size ≤ s.mem b) (lists x y)
  covered size x y h = each (lists x y) (free.classes x y) (sizes x y)
    where
      each :
          (bs : List ℕ)
          → All (λ b. map_floor c (s.mem b) ≡ some (x, y)) bs
          → All (λ b. IsSize (s.mem b)) bs
          → All (λ b. size ≤ s.mem b) bs
      each [] k is = tt
      each (b ∷ bs) k is =
          let class = (map_floor_iff v x y (s.mem b) is.0).0 k.0 in
          (
            le_of_mul-le size (s.mem b) c.sllen (sllen_pos v) (omega (arith, h, class.from_min)),
            each bs k.1 is.1,
          )

  module _ {size fl sl : ℕ} (ceil : IsCeiling c size fl sl) where
    -- A list from the first one that covers the size on covers it too.
    covers_after : (x y : ℕ) → IsBefore fl sl x y → size * c.sllen ≤ (c.sllen + y) * 2 ^ (x + 5)
    covers_after x y (inl up) =
        let next : 2 * 2 ^ (fl + 5) ≤ 2 ^ (x + 5) = omega (
          arith,
          two-pow-suc (fl + 5),
          two-pow_mono {a = suc (fl + 5)} {b = x + 5} (omega arith),
        ) in
        omega (
          arith,
          ceil.covers,
          mul_le_mul (c.sllen + sl) (c.sllen + c.sllen) (2 ^ (fl + 5)) (omega (arith, ceil.index)),
          mul_le_mul (2 * 2 ^ (fl + 5)) (2 ^ (x + 5)) c.sllen next,
          mul_le_mul c.sllen (c.sllen + y) (2 ^ (x + 5)) (omega arith),
        )
    covers_after x y (inr (same, index)) =
        subst (λ t. size * c.sllen ≤ (c.sllen + y) * 2 ^ (t + 5)) same
          (omega (
            arith,
            ceil.covers,
            mul_le_mul (c.sllen + sl) (c.sllen + y) (2 ^ (fl + 5)) (omega arith),
          ))

    next-IsFit : (r : Option (ℕ × ℕ)) → IsNext lists fl sl r → IsFit c s.mem lists size r
    next-IsFit r (found x y ne after least) =
        fit x y ne (covered size x y (covers_after x y after))
          (λ i j occupied k. least i j occupied (ceil.first i j k.0 k.1))
    next-IsFit r (nowhere h) = no_fit (λ i j k. h i j (ceil.first i j k.0 k.1))

  -- For valid constants and well-formed free lists of blocks of at least 32 bytes, the search for
  -- a size of at least 32 does not reach `unreachable_unchecked`. It finds the first list that is
  -- not empty and whose least size is at least `size`, so that each of its blocks is large enough,
  -- and it returns none only if all such lists are empty.
  pub search-IsFit :
      (size : ℕ)
      → IsSize size
      → (r : Option (ℕ × ℕ)) × (search_suitable_free_block_list_for_allocation c size s ≡ some r)
        × IsFit c s.mem lists size r
  unfolding search_suitable_free_block_list_for_allocation
  search-IsFit size is = elim (Option-cases (map_ceil c size)) [
    | inl e ↦ (
      none,
      rw (search_suitable_free_block_list_for_allocation, e) refl,
      no_fit (λ i j k occupied.
          let (inside, index) = table i j occupied in
          absurd (omega (arith, map_ceil-none v size is e i j k.0 k.1))),
    )
    | inr ((fl, sl), e) ↦
        let (inside, ceil) = map_ceil-IsCeiling v size is e in
        let (r, run, next) = search_from-IsNext v free table fl sl in
        (r, rw (search_suitable_free_block_list_for_allocation, e) run, next-IsFit ceil r next)
  ]
