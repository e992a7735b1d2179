-- ===== src/Tlsf/Heap/Replace.antt =====
-- A region of blocks is tiled anew, by one block or by two.
use rlsf.Base.{
  ℕ, ◌+◌, ◌-◌, ◌≤◌, ◌<◌, ◌≡◌, ◌≢◌, ◌⊎◌, inl, inr, sym, ap, ◌∙◌, ◌||◌, Option, none, some, arith,
  ltb, ◌==◌, if◌then◌else◌, some_inj,
}
use native.Mathlib.Decide.{dec_lt, ℕ_discrete}
use mathlib.Core.Option.{none-ne-some}
use rlsf.Tlsf.Heap.{Kind, vacant, sentinel, Block, View}

abbrev pub set_prev : ℕ → Option Block → Option Block
set_prev p none = none
set_prev p (some k) = some (record k { prev = p })

-- The blocks from `b` to `e`, with `p` before them, become one of `n` bytes, and one of the rest
-- if there is a rest.
pub record Region : Type 0 where
  pub b : ℕ
  pub e : ℕ
  pub p : ℕ
  pub pool : ℕ

abbrev pub first_tile : Region → ℕ → Kind → Block
first_tile r n kind = record { size = n; prev = r.p; kind = kind; pool = r.pool }

abbrev pub rest_tile : Region → ℕ → Kind → Block
rest_tile r n kind = record { size = r.e - (r.b + n); prev = r.b; kind = kind; pool = r.pool }

-- The address of the last tile.
abbrev pub last_tile : Region → ℕ → ℕ
last_tile r n = if r.b + n == r.e then r.b else r.b + n

unfoldable pub replace : View → Region → ℕ → Kind → Kind → View
replace h r n kind rest x =
    if x == r.b
    then some (first_tile r n kind)
    else if ltb x r.b || ltb r.e x
    then h x
    else if x == r.e
    then set_prev (last_tile r n) (h r.e)
    else if x == r.b + n
    then some (rest_tile r n rest)
    else none

-- An address in one of the blocks.
pub record HasByte (h : View) (x : ℕ) : Type 0 where
  pub base : ℕ
  pub block : Block
  pub at : h base ≡ some block
  pub from : base ≤ x
  pub to : x < base + block.size

-- An address in the block at `b`.
pub record IsByteOf (h : View) (b x : ℕ) : Type 0 where
  pub block : Block
  pub at : h b ≡ some block
  pub from : b ≤ x
  pub to : x < b + block.size

-- An address in one of the vacant blocks.
pub record InVacant (h : View) (x : ℕ) : Type 0 where
  pub base : ℕ
  pub block : Block
  pub at : h base ≡ some block
  pub is_vacant : block.kind ≡ vacant
  pub from : base ≤ x
  pub to : x < base + block.size

-- What the region is in `h`: it begins with a block behind `p`, ends where a block begins, no block
-- reaches over its ends, and no sentinel is in it. Its blocks fill it.
pub record IsRegion (h : View) (r : Region) : Type 0 where
  pub start : Block
  pub end : Block
  pub at_start : h r.b ≡ some start
  pub at_end : h r.e ≡ some end
  pub start_prev : start.prev ≡ r.p
  pub start_pool : start.pool ≡ r.pool
  pub end_pool : end.pool ≡ r.pool
  pub forward : r.b < r.e
  pub inside :
      (x : ℕ) (k : Block)
      → h x ≡ some k
      → r.b ≤ x
      → x < r.e
      → (x + k.size ≤ r.e) × (k.kind ≢ sentinel)
  pub filled : (x : ℕ) → r.b ≤ x → x < r.e → HasByte h x

-- A block of the new view.
pub data Found (h : View) (r : Region) (n : ℕ) (kind rest : Kind) (end : Block) (x : ℕ) (k : Block)
    : Type 0 where
  first : x ≡ r.b → first_tile r n kind ≡ k → Found h r n kind rest end x k
  second : r.b + n < r.e → x ≡ r.b + n → rest_tile r n rest ≡ k → Found h r n kind rest end x k
  behind : x ≡ r.e → record end { prev = last_tile r n } ≡ k → Found h r n kind rest end x k
  outside : (x < r.b) ⊎ (r.e < x) → h x ≡ some k → Found h r n kind rest end x k

module _ {h : View} {r : Region} (is : IsRegion h r) (n : ℕ) (pos : 0 < n) (fits : r.b + n ≤ r.e)
    (kind rest : Kind) where
  pub replace-first : replace h r n kind rest r.b ≡ some (first_tile r n kind)
  unfolding replace
  replace-first = ground arith

  pub replace-second : r.b + n < r.e → replace h r n kind rest (r.b + n) ≡ some (rest_tile r n rest)
  unfolding replace
  replace-second more = ground arith

  pub replace-end : replace h r n kind rest r.e ≡ some (record is.end { prev = last_tile r n })
  unfolding replace
  replace-end = ground (arith, is.at_end, is.forward)

  pub replace-outside : (x : ℕ) → (x < r.b) ⊎ (r.e < x) → replace h r n kind rest x ≡ h x
  unfolding replace
  replace-outside x (inl below) = ground arith
  replace-outside x (inr above) = ground (arith, is.forward)

  replace-none : (x : ℕ) → r.b < x → x < r.e → x ≢ r.b + n → replace h r n kind rest x ≡ none
  unfolding replace
  replace-none x above below ne = ground arith

  -- A block of the new view at an address that is known.
  at_address :
      {x y : ℕ} {k k' : Block}
      → replace h r n kind rest y ≡ some k'
      → x ≡ y
      → replace h r n kind rest x ≡ some k
      → k' ≡ k
  at_address known same e =
      some_inj (sym known ∙ (ap (λ (t : ℕ). replace h r n kind rest t) (sym same) ∙ e))

  pub Found-cases :
      (x : ℕ) (k : Block) → replace h r n kind rest x ≡ some k → Found h r n kind rest is.end x k
  Found-cases x k e = elim (dec_lt x r.b) [
    | yes q ↦ outside (inl q) (sym (replace-outside x (inl q)) ∙ e)
    | no q ↦ elim (dec_lt r.e x) [
      | yes s ↦ outside (inr s) (sym (replace-outside x (inr s)) ∙ e)
      | no s ↦ within x k e (omega arith) (omega arith)
    ]
  ]
    where
      within :
          (x : ℕ) (k : Block)
          → replace h r n kind rest x ≡ some k
          → r.b ≤ x
          → x ≤ r.e
          → Found h r n kind rest is.end x k
      within x k e from to = elim (ℕ_discrete x r.b) [
        | yes p ↦ first p (at_address replace-first p e)
        | no p ↦ elim (ℕ_discrete x r.e) [
          | yes t ↦ behind t (at_address replace-end t e)
          | no t ↦ elim (ℕ_discrete x (r.b + n)) [
            | yes u ↦ second (omega arith) u (at_address (replace-second (omega arith)) u e)
            | no u ↦
                absurd (none-ne-some k (sym (replace-none x (omega arith) (omega arith) u) ∙ e))
          ]
        ]
      ]
