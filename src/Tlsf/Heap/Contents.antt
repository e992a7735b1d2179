-- ===== src/Tlsf/Heap/Contents.antt =====
-- The words inside of used blocks, which no operation on other blocks writes.
use rlsf.Base.{
  ℕ, ◌+◌, ◌≤◌, ◌<◌, ◌≡◌, ◌≢◌, ◌⊎◌, inl, inr, sym, ap, ◌∙◌, subst, some, arith, ◌∷◌, ◌++◌, All,
  some_inj,
}
use native.Mathlib.Decide.{dec_lt}
use rlsf.Tlsf.Config.{Config}
use rlsf.Tlsf.State.{State, Memory}
use rlsf.Tlsf.Links.{link_free_block, unlink_free_block}
use rlsf.Tlsf.Links.Rep.{Lists, IsFree}
use rlsf.Tlsf.Links.Frame.{link_free_block-kept, unlink_free_block-kept, head_is, next_is, prev_in}
use rlsf.Tlsf.Heap.{occupied, Block, View, IsBlockAt, IsTiled, IsVacant, Holds}
use rlsf.Tlsf.Heap.Members.{split_at}
use rlsf.Tlsf.Heap.Placed.{occupied-ne-vacant}

-- `a` is a word in the block at `z` behind its header.
pub record IsInside (h : View) (z a : ℕ) : Type 0 where
  pub block : Block
  pub at : h z ≡ some block
  pub used : block.kind ≡ occupied
  pub from : z + 16 ≤ a
  pub to : a < z + block.size

-- The contents of the used blocks, all or all but the one at `b`, are the same.
abbrev pub SameContents : View → Memory → Memory → Type 0
SameContents h m m' = (z a : ℕ) → IsInside h z a → m' a ≡ m a

abbrev pub SameOthers : View → ℕ → Memory → Memory → Type 0
SameOthers h b m m' = (z a : ℕ) → z ≢ b → IsInside h z a → m' a ≡ m a

-- `a` is not a link of the blocks with a property.
abbrev pub OffLinks : (ℕ → Type 0) → ℕ → Type 0
OffLinks P a = (z : ℕ) → P z → (a ≢ z + 16) × (a ≢ z + 24)

module _ {c : Config} {h : View} (t : IsTiled c h) {z a : ℕ} (i : IsInside h z a) where
  -- Another block is before the word or behind it.
  pub inside-apart : (y : ℕ) (k : Block) → h y ≡ some k → y ≢ z → (a < y) ⊎ (y + k.size ≤ a)
  inside-apart y k e ne = elim (dec_lt y z) [
    | yes lt ↦ inr (omega (arith, t.apart y k z i.block e i.at lt, i.from))
    | no ge ↦ inl (omega (arith, t.apart z i.block y k i.at e (omega arith), i.to))
  ]

  pub inside-vacant : (y : ℕ) → IsVacant h y → y ≢ z
  inside-vacant y (k, e, v) same =
      let eq : k ≡ i.block = some_inj (sym e ∙ (ap h same ∙ i.at)) in
      occupied-ne-vacant (sym i.used ∙ (ap (λ (t : Block). t.kind) (sym eq) ∙ v))

  pub inside-OffLinks : OffLinks (IsVacant h) a
  inside-OffLinks y (k, e, v) =
      let b : IsBlockAt c y k = t.block y k e in
      elim (inside-apart y k e (inside-vacant y (k, e, v))) [
        | inl low ↦ (omega arith, omega arith)
        | inr high ↦ (omega (arith, b.at_least), omega (arith, b.at_least))
      ]

module _ {c : Config} {s : State} {lists : Lists} {P : ℕ → Type 0} (free : IsFree c s lists)
    (h : Holds lists P) {a : ℕ} (off : OffLinks P a) where
  pub heads_off : (x y : ℕ) → s.first_free x y ≢ 0 → a ≢ s.first_free x y + 24
  heads_off x y ne = (off (s.first_free x y) (head_is P (free.linked x y) (h.only x y) ne)).1

  pub link-kept :
      (b size : ℕ) (s' : State)
      → link_free_block c b size s ≡ some s'
      → a ≢ b + 16
      → a ≢ b + 24
      → s'.mem a ≡ s.mem a
  link-kept b size s' run p q = link_free_block-kept c b size s s' a run p q heads_off

  pub unlink-kept :
      (b size : ℕ) (s' : State) → P b → unlink_free_block c b size s ≡ some s' → s'.mem a ≡ s.mem a
  unlink-kept b size s' p run =
      let (x, y, i) = h.every b p in
      let (xs, ys, e) = split_at b (lists x y) i in
      let all : All P (xs ++ b ∷ ys) = subst (All P) e (h.only x y) in
      unlink_free_block-kept c b size s s' a run
        (λ ne. (off (s.mem (b + 16)) (next_is free x y b xs ys e P all ne)).1)
        (λ ne. (off (s.mem (b + 24)) (prev_in free x y b xs ys e P all ne)).0)
