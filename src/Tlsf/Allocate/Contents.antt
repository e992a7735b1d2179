-- ===== src/Tlsf/Allocate/Contents.antt =====
-- `allocate` leaves the contents of the used blocks as they are.
use rlsf.Base.{
  ℕ, ◌+◌, ◌-◌, ◌%◌, ◌≤◌, ◌<◌, ◌≡◌, ◌≢◌, ◌⊎◌, inl, inr, ap, ◌∙◌, subst, some, arith, List, [], ◌∷◌,
  All,
}
use native.Mathlib.Decide.{ℕ_discrete}
use rlsf.Tlsf.Config.{Config}
use rlsf.Tlsf.State.{State, Memory}
use rlsf.Tlsf.Links.{set_prev_of}
use rlsf.Tlsf.Links.Rep.{Lists, IsFree, SameHeaders}
use rlsf.Tlsf.Links.Frame.{set_first-mem, set_prev_of-kept, next_is}
use rlsf.Tlsf.Heap.{vacant, Block, View, IsBlockAt, IsVacant, Holds, IsHeap}
use rlsf.Tlsf.Heap.Members.{spared-IsFree}
use rlsf.Tlsf.Heap.Contents.{
  IsInside, SameContents, inside-apart, inside-vacant, inside-OffLinks, link-kept,
}
use rlsf.Tlsf.Allocate.{pop_first, split_rest, place_used}
use rlsf.Tlsf.Allocate.Payload.{IsPayload}
use rlsf.Tlsf.Allocate.Place.{place_used-outside, with_rest, with_rest-other}
use rlsf.Tlsf.Allocate.Fresh.{ne_sentinel, spared}

module _ {c : Config} {s : State} {lists : Lists} {h : View} (heap : IsHeap c s lists h) {b : ℕ}
    {k : Block} (here : h b ≡ some k) (v : k.kind ≡ vacant) where
  -- The removal from the list.
  pub popped-SameContents :
      (x y : ℕ) (ys : List ℕ) → lists x y ≡ b ∷ ys → SameContents h s.mem (pop_first c x y b s).mem
  unfolding pop_first
  popped-SameContents x y ys first z a i =
      let all : All (IsVacant h) (b ∷ ys) = subst (All (IsVacant h)) first (heap.holds.only x y) in
      let next = s.mem (b + 16) in
      let m = set_prev_of s.mem next 0 in
      ap (λ (t : Memory). t a) (set_first-mem c x y next (record s { mem = m }))
      ∙ set_prev_of-kept s.mem next 0 a (λ ne.
        (inside-OffLinks heap.tiled i next
          (next_is heap.free x y b [] ys first (IsVacant h) all ne)).1)

  -- A word of a used block is outside of the vacant block, and not the link back behind it.
  outside : {z a : ℕ} → IsInside h z a → (a < b) ⊎ (b + k.size ≤ a)
  outside i = inside-apart heap.tiled i b k here (inside-vacant heap.tiled i b (k, here, v))

  module _ (n : ℕ) (pos : 0 < n) (fits : n ≤ k.size) (whole : n % 32 ≡ 0) {align p : ℕ}
      (payload : IsPayload align b p) (in_block : p ≤ b + n) where
    pub placed-SameContents : (m : Memory) → SameContents h m (place_used m align p b n)
    placed-SameContents m z a i = elim (outside i) [
      | inl low ↦ place_used-outside m align b p n payload whole a (omega arith) (inl (omega arith))
      | inr high ↦
          place_used-outside m align b p n payload whole a (omega arith) (inr (omega arith))
    ]

    not_back : {z a : ℕ} → IsInside h z a → a ≢ b + k.size + 8
    not_back {z} {a} i e =
        let (k', at, back, pool) =
          (heap.tiled).next b k here (ne_sentinel heap here v n pos fits whole payload in_block) in
        let t : IsBlockAt c (b + k.size) k' = (heap.tiled).block (b + k.size) k' at in
        elim (ℕ_discrete (b + k.size) z) [
          | yes same ↦ omega (arith, i.from)
          | no other ↦ elim (inside-apart heap.tiled i (b + k.size) k' at other) [
            | inl low ↦ omega arith
            | inr high ↦ omega (arith, t.at_least)
          ]
        ]

    module _ {s1 : State} {lists1 : Lists} (free : IsFree c s1 lists1)
        (holds : Holds lists1 (λ z. IsVacant h z × (z ≢ b))) (same : SameHeaders s.mem s1.mem) where
      pub split-SameContents :
          (s2 : State)
          → n < k.size
          → split_rest c b k.size n (b + k.size) s1 ≡ some s2
          → SameContents h s1.mem s2.mem
      unfolding split_rest
      split-SameContents s2 less run z a i =
          let t : IsBlockAt c b k = (heap.tiled).block b k here in
          let room : n + 32 ≤ k.size = omega (arith, t.whole) in
          linked (off_rest room 16 (omega arith)) (off_rest room 24 (omega arith))
          ∙ with_rest-other s1.mem b (b + n) (k.size - n) (b + k.size) a (not_back i)
              (off_here room) (off_rest room 8 (omega arith))
        where
          off_rest : n + 32 ≤ k.size → (d : ℕ) → d < 32 → a ≢ b + n + d
          off_rest room d lt e = elim (outside i) [ inl low ↦ omega arith | inr high ↦ omega arith ]

          off_here : n + 32 ≤ k.size → a ≢ b + n
          off_here room e = elim (outside i) [ inl low ↦ omega arith | inr high ↦ omega arith ]

          linked :
              a ≢ b + n + 16
              → a ≢ b + n + 24
              → s2.mem a ≡ with_rest s1.mem b (b + n) (k.size - n) (b + k.size) a
          linked =
              link-kept
                (spared-IsFree free holds (with_rest s1.mem b (b + n) (k.size - n) (b + k.size))
                  (spared heap here v n pos fits whole payload in_block free holds same less))
                holds (λ y q. inside-OffLinks heap.tiled i y q.0) (b + n) (k.size - n) s2 run
