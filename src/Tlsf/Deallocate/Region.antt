-- ===== src/Tlsf/Deallocate/Region.antt =====
-- The hole that `deallocate` grows: a region of the heap whose vacant blocks are out of the lists.
use rlsf.Base.{
  ◌%◌, ℕ, ◌+◌, ◌≤◌, ◌<◌, ◌≡◌, ◌≢◌, ◌⊎◌, inl, inr, refl, sym, ap, ◌∙◌, some, arith, some_inj,
}
use native.Mathlib.Decide.{dec_lt}
use rlsf.Tlsf.Config.{Config}
use rlsf.Tlsf.State.{State, Memory}
use rlsf.Tlsf.Links.Rep.{Lists, IsFree}
use rlsf.Tlsf.Heap.{
  flags, Kind, vacant, occupied, sentinel, Block, View, IsBlockAt, IsVacant, Holds, IsHeap,
}
use rlsf.Tlsf.Heap.Replace.{Region, IsRegion}
use rlsf.Tlsf.Heap.Region.{region_of, region_of-IsRegion}
use rlsf.Tlsf.Heap.Members.{Holds-same}
use rlsf.Tlsf.Heap.Contents.{SameOthers}
use rlsf.Tlsf.Heap.Placed.{occupied-ne-vacant, occupied-ne-sentinel}
use rlsf.Tlsf.Deallocate.{Hole}

abbrev pub Outside : Region → ℕ → Type 0
Outside r z = (z < r.b) ⊎ (r.e ≤ z)

-- The hole `hole` of a state `s` is the region `r` of a view. The lists of `s` hold the vacant
-- blocks outside of it. The block at `b` is in it, and all blocks in it that are not vacant are
-- that block. The contents of the other used blocks are as in the memory `m`.
pub record IsHole (c : Config) (m : Memory) (h : View) (b : ℕ) (k : Block) (hole : Hole) (s : State)
    (lists : Lists) (r : Region) : Type 0 where
  pub is : IsRegion h r
  pub block_eq : hole.block ≡ r.b
  pub size_eq : r.b + hole.size ≡ r.e
  pub next_eq : hole.next ≡ r.e
  pub free : IsFree c s lists
  pub holds : Holds lists (λ z. IsVacant h z × Outside r z)
  pub same : (a : ℕ) → a % 32 < 16 → (a < r.b + 16) ⊎ (r.e ≤ a) → s.mem a ≡ m a
  pub from : r.b ≤ b
  pub to : b + k.size ≤ r.e
  pub contents : SameOthers h b m s.mem
  pub live : (z : ℕ) (kz : Block) → h z ≡ some kz → kz.kind ≢ vacant → z ≢ b → Outside r z

module _ {c : Config} {s : State} {lists : Lists} {h : View} (heap : IsHeap c s lists h) {b : ℕ}
    {k : Block} (here : h b ≡ some k) (used : k.kind ≡ occupied) where
  others_outside : (z : ℕ) (kz : Block) → h z ≡ some kz → z ≢ b → Outside (region_of b k) z
  others_outside z kz e ne = elim (dec_lt z b) [
    | yes q ↦ inl q
    | no q ↦ inr (omega (arith, (heap.tiled).apart b k z kz here e (omega arith)))
  ]

  -- A vacant block is not the used one.
  not_used : (z : ℕ) → IsVacant h z → z ≢ b
  not_used z (kz, e, v) q =
      let same : kz ≡ k = some_inj (sym e ∙ (ap h q ∙ here)) in
      occupied-ne-vacant (sym used ∙ (ap (λ (t : Block). t.kind) (sym same) ∙ v))

  -- At first, the hole is the block.
  pub block-IsHole :
      IsHole c s.mem h b k
        (record { block = b; size = k.size; next = b + k.size })
        s
        lists
        (region_of b k)
  block-IsHole = record {
    is = region_of-IsRegion heap.tiled b k here (λ e. occupied-ne-sentinel (sym used ∙ e));
    block_eq = refl;
    size_eq = refl;
    next_eq = refl;
    free = heap.free;
    holds =
        Holds-same heap.holds (λ z vz. (vz, others_outside z vz.0 vz.1 (not_used z vz)))
          (λ z w. w.0);
    same = λ a low out. refl;
    from = omega arith;
    to = omega arith;
    contents = λ z a ne i. refl;
    live = λ z kz e other ne. others_outside z kz e ne;
  }

-- Two vacant blocks are not next to each other.
pub prev_used :
    {c : Config} {s : State} {lists : Lists} {h : View}
    → IsHeap c s lists h
    → (z : ℕ) (kz : Block) → h z ≡ some kz
    → kz.kind ≡ vacant
    → ¬ IsVacant h kz.prev
prev_used {c} {s} {lists} {h} heap z kz e v (kp, ep, vp) = elim ((heap.tiled).back z kz e) [
  | inl null ↦ let t : IsBlockAt c kz.prev kp = (heap.tiled).block kz.prev kp ep in t.ne_null null
  | inr (kq, eq, sum, ne) ↦
      let same : kp ≡ kq = some_inj (sym ep ∙ eq) in
      heap.merged kz.prev kq eq (ap (λ (t : Block). t.kind) (sym same) ∙ vp) (kz, ap h sum ∙ e, v)
]

pub decide_vacant : (k : Kind) → Dec (k ≡ vacant)
decide_vacant vacant = yes refl
decide_vacant occupied = no (λ e. cc)
decide_vacant sentinel = no (λ e. cc)

module _ {c : Config} {s0 : State} {lists0 : Lists} {h : View} (heap : IsHeap c s0 lists0 h) {b : ℕ}
    {k : Block} {hole : Hole} {s : State} {lists : Lists} {r : Region}
    (w : IsHole c s0.mem h b k hole s lists r) where
  near :
      (z : ℕ)
      → (z ≤ r.b) ⊎ (r.e ≤ z)
      → ((z < r.b + 16) ⊎ (r.e ≤ z)) × ((z + 8 < r.b + 16) ⊎ (r.e ≤ z + 8))
  near z (inl low) = (inl (omega arith), inl (omega arith))
  near z (inr high) = (inr high, inr (omega arith))

  -- The header of the first block of the region, and of a block outside of it, is as at the start.
  pub header :
      (z : ℕ) (kz : Block)
      → (z ≤ r.b) ⊎ (r.e ≤ z)
      → h z ≡ some kz
      → (s.mem z ≡ kz.size + flags kz.kind) × (s.mem (z + 8) ≡ kz.prev)
  header z kz out e =
      let t : IsBlockAt c z kz = (heap.tiled).block z kz e in
      (
        w.same z (omega (arith, t.aligned)) (near z out).0 ∙ (heap.agrees z kz e).0,
        w.same (z + 8) (omega (arith, t.aligned)) (near z out).1 ∙ (heap.agrees z kz e).1,
      )

  pub word :
      (z : ℕ) (kz : Block)
      → (z ≤ r.b) ⊎ (r.e ≤ z)
      → h z ≡ some kz
      → kz.kind ≡ vacant
      → s.mem z ≡ kz.size
  word z kz out e v = let f : flags kz.kind ≡ 0 = ap flags v in omega (arith, (header z kz out e).0)

  -- A vacant block is not live.
  pub dead :
      (z : ℕ) (kz : Block)
      → h z ≡ some kz
      → kz.kind ≡ vacant
      → (z' : ℕ) (k' : Block) → h z' ≡ some k'
      → k'.kind ≢ vacant
      → z' ≢ z
  dead z kz e v z' k' e' ne q =
      let same : k' ≡ kz = some_inj (sym e' ∙ (ap h q ∙ e)) in
      ne (ap (λ (t : Block). t.kind) same ∙ v)
