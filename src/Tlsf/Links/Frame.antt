-- ===== src/Tlsf/Links/Frame.antt =====
-- The words that `link_free_block`, `unlink_free_block` and `pop_first` leave as they are.
use mathlib.Core.Option.{none-ne-some}
use rlsf.Base.{
  ℕ, ◌+◌, ◌≡◌, ◌≢◌, refl, sym, ap, ◌∙◌, some, List, ◌∷◌, ◌++◌, arith, subst, All, All-map,
  All-append_left, All-append_right, Option-cases, some_inj, ◌==◌, Bool-cases, inl, inr,
}
use rlsf.Tlsf.Config.{Config}
use rlsf.Tlsf.Class.{map_floor}
use rlsf.Tlsf.State.{State, Memory, write}
use rlsf.Tlsf.Links.{
  link_free_block, unlink_free_block, link_writes, linked, set_first, set_prev_of, clear_bits,
}
use rlsf.Tlsf.Links.Heap.{IsList, nil, cons}
use rlsf.Tlsf.Links.Remove.{next-IsList}
use rlsf.Tlsf.Links.Rep.{Lists, IsFree}
use rlsf.Tlsf.Links.Unlink.{prev_is}

link_writes-kept :
    (m : Memory) (block next a : ℕ)
    → a ≢ block + 16
    → a ≢ block + 24
    → (next ≢ 0 → a ≢ next + 24)
    → link_writes m block next a ≡ m a
unfolding link_writes write
link_writes-kept m block next a p q r = ground arith

pub link_free_block-kept :
    (c : Config) (block size : ℕ) (s s' : State) (a : ℕ)
    → link_free_block c block size s ≡ some s'
    → a ≢ block + 16
    → a ≢ block + 24
    → ((x y : ℕ) → s.first_free x y ≢ 0 → a ≢ s.first_free x y + 24)
    → s'.mem a ≡ s.mem a
unfolding link_free_block linked
link_free_block-kept c block size s s' a run p q heads = elim (Option-cases (map_floor c size)) [
  | inl e ↦ absurd (none-ne-some s' (rw (link_free_block, e) at run))
  | inr ((fl, sl), e) ↦
      let same = some_inj (rw (link_free_block, e) at run) in
      ap (λ (t : State). t.mem a) (sym same)
      ∙ link_writes-kept s.mem block (s.first_free fl sl) a p q (heads fl sl)
]

pub set_first-mem :
    (c : Config) (fl sl next : ℕ) (s : State) → (set_first c fl sl next s).mem ≡ s.mem
unfolding set_first clear_bits
set_first-mem c fl sl next s = ground arith

pub set_prev_of-kept :
    (m : Memory) (next prev a : ℕ) → (next ≢ 0 → a ≢ next + 24) → set_prev_of m next prev a ≡ m a
unfolding set_prev_of write
set_prev_of-kept m next prev a h = ground arith

unlinked_behind :
    (m : Memory) (next prev a : ℕ)
    → a ≢ prev + 16
    → (next ≢ 0 → a ≢ next + 24)
    → write (set_prev_of m next prev) (prev + 16) next a ≡ m a
unfolding set_prev_of write
unlinked_behind m next prev a p h = ground arith

pub unlink_free_block-kept :
    (c : Config) (block size : ℕ) (s s' : State) (a : ℕ)
    → unlink_free_block c block size s ≡ some s'
    → (s.mem (block + 16) ≢ 0 → a ≢ s.mem (block + 16) + 24)
    → (s.mem (block + 24) ≢ 0 → a ≢ s.mem (block + 24) + 16)
    → s'.mem a ≡ s.mem a
unfolding unlink_free_block
unlink_free_block-kept c block size s s' a run next_off prev_off =
    let next = s.mem (block + 16) in
    let prev = s.mem (block + 24) in
    elim (Bool-cases (prev == 0)) [
      | inr behind ↦
          let same = some_inj (rw behind at run) in
          ap (λ (t : State). t.mem a) (sym same)
          ∙ unlinked_behind s.mem next prev a (prev_off (ground arith)) next_off
      | inl first ↦ elim (Option-cases (map_floor c size)) [
        | inl e ↦ absurd (none-ne-some s' (rw (first, e) at run))
        | inr ((fl, sl), e) ↦
            let same = some_inj (rw (first, e) at run) in
            let m = set_prev_of s.mem next prev in
            ap (λ (t : State). t.mem a) (sym same)
            ∙ (ap (λ (t : Memory). t a) (set_first-mem c fl sl next (record s { mem = m }))
                ∙ set_prev_of-kept s.mem next prev a next_off)
      ]
    ]

-- The pointers of the lists lead to listed blocks.
pub head_is :
    {m : Memory} {prev p : ℕ} {zs : List ℕ} (P : ℕ → Type 0)
    → IsList m prev p zs
    → All P zs
    → p ≢ 0
    → P p
head_is P (nil e) h ne = absurd (ne e)
head_is P (cons e is back l) h ne = subst P (sym e) h.0

module _ {c : Config} {s : State} {lists : Lists} (free : IsFree c s lists) (fl sl block : ℕ)
    (xs ys : List ℕ) (here : lists fl sl ≡ xs ++ block ∷ ys) (P : ℕ → Type 0)
    (h : All P (xs ++ block ∷ ys)) where
  pub next_is : s.mem (block + 16) ≢ 0 → P (s.mem (block + 16))
  next_is =
      head_is P
        (next-IsList block ys xs
          (subst (IsList s.mem 0 (s.first_free fl sl)) here (free.linked fl sl)))
        (All-append_right P xs (block ∷ ys) h).1

  pub prev_in : s.mem (block + 24) ≢ 0 → P (s.mem (block + 24))
  prev_in =
      prev_is free fl sl block xs ys here (λ z. z ≢ 0 → P z) (λ ne. absurd (ne refl))
        (All-map P (λ z. z ≢ 0 → P z) (λ z p ne. p) xs (All-append_left P xs (block ∷ ys) h))
