-- ===== src/Tlsf/Reallocate/Rounded.antt =====
-- The arithmetic of `reallocate_inplace`.
use mathlib.Core.Option.{none-ne-some}
use native.Mathlib.Nat.{div-add-mod}
use native.Mathlib.Decide.{dec_lt}
use rlsf.Base.{
  ℕ, ◌+◌, ◌-◌, ◌*◌, ◌/◌, ◌%◌, ◌^◌, ◌≤◌, ◌<◌, ◌≡◌, inl, inr, sym, ◌∙◌, none, some, ◌>>=◌, arith,
  some_inj, ltb, ltb→lt, Bool-cases, mul_le_mul, two-pow-sub,
}
use rlsf.Word.{align_down, checked_add}
use rlsf.Word.Align.{align_down_lem}
use rlsf.Tlsf.Request.{checked_round_up}

-- A multiple of a power of two that is a word is a power below the end of the words.
pub multiple_room : (a x : ℕ) → a < 64 → x % 2 ^ a ≡ 0 → x < 2 ^ 64 → x + 2 ^ a ≤ 2 ^ 64
multiple_room a x lt multiple fits =
    let d = 2 ^ a in
    let top = 2 ^ (64 - a) in
    let whole : 2 ^ 64 ≡ d * top = two-pow-sub 64 a (omega arith) in
    let parts : d * (x / d) + x % d ≡ x = div-add-mod x d in
    elim (dec_lt (x / d) top) [
      | yes below ↦ omega (arith, multiple, parts, mul_le_mul (x / d + 1) top d (omega arith))
      | no above ↦ absurd (omega (arith, multiple, parts, mul_le_mul top (x / d) d (omega arith)))
    ]

-- The sum rounded up to a multiple of 32.
pub rounded :
    (x y n : ℕ)
    → (checked_add x y >>= checked_round_up) ≡ some n
    → (n % 32 ≡ 0) × (x + y ≤ n) × (n ≤ x + y + 31)
unfolding checked_round_up
rounded x y n e = elim (Bool-cases (ltb (x + y) (2 ^ 64))) [
  | inr over ↦ absurd (none-ne-some n (rw over at e))
  | inl fits ↦ elim (Bool-cases (ltb (x + y + 31) (2 ^ 64))) [
    | inr over ↦ absurd (none-ne-some n (rw (fits, over) at e))
    | inl fits' ↦
        let bound : x + y + 31 < 2 ^ 64 = ltb→lt _ _ fits' in
        let eq : align_down 32 (x + y + 31) ≡ n = some_inj (rw (fits, fits') at e) in
        let down : n ≡ (x + y + 31) / 32 * 32 =
          sym eq ∙ align_down_lem 5 (x + y + 31) (omega arith) bound in
        (omega (arith, down), omega (arith, down), omega (arith, down))
  ]
]

pub not_rounded : (x y : ℕ) → (checked_add x y >>= checked_round_up) ≡ none → 2 ^ 64 ≤ x + y + 31
unfolding checked_round_up
not_rounded x y e = elim (Bool-cases (ltb (x + y) (2 ^ 64))) [
  | inr over ↦ ground (arith, over)
  | inl fits ↦ elim (Bool-cases (ltb (x + y + 31) (2 ^ 64))) [
    | inr over ↦ ground (arith, over)
    | inl fits' ↦ absurd (none-ne-some (align_down 32 (x + y + 31)) (sym (rw (fits, fits') at e)))
  ]
]
