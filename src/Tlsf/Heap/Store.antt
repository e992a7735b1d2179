-- ===== src/Tlsf/Heap/Store.antt =====
-- Writes of a client to the words of a used block.
use native.Mathlib.Decide.{ℕ_discrete, dec_lt}
use rlsf.Base.{ℕ, ◌+◌, ◌≤◌, ◌<◌, ◌≡◌, ◌≢◌, ◌⊎◌, inl, inr, sym, ap, ◌∙◌, some, some_inj, arith}
use rlsf.Tlsf.Config.{Config}
use rlsf.Tlsf.State.{State, Memory, write}
use rlsf.Tlsf.Links.Heap.{SameLinks}
use rlsf.Tlsf.Links.Rep.{Lists}
use rlsf.Tlsf.Heap.{occupied, Block, View, IsBlockAt, IsVacant, IsHeap}
use rlsf.Tlsf.Heap.Members.{spared-IsFree}
use rlsf.Tlsf.Heap.Contents.{IsInside}
use rlsf.Tlsf.Heap.Placed.{occupied-ne-vacant}

module _ {c : Config} {s : State} {lists : Lists} {h : View} (heap : IsHeap c s lists h) where
  module _ {z : ℕ} {k : Block} (here : h z ≡ some k) (used : k.kind ≡ occupied) (m : Memory)
      (kept : (x : ℕ) → (x < z + 16) ⊎ (z + k.size ≤ x) → m x ≡ s.mem x) where
    -- A word of another block.
    kept_other :
        (b : ℕ) (k' : Block)
        → h b ≡ some k'
        → b ≢ z
        → (a : ℕ) → b ≤ a
        → a < b + k'.size
        → m a ≡ s.mem a
    kept_other b k' e ne a from to = elim (dec_lt b z) [
      | yes low ↦ kept a (inl (omega (arith, (heap.tiled).apart b k' z k e here low)))
      | no high ↦ kept a (inr (omega (arith, (heap.tiled).apart z k b k' here e (omega arith))))
    ]

    header_same :
        (b : ℕ) (k' : Block) → h b ≡ some k' → (m b ≡ s.mem b) × (m (b + 8) ≡ s.mem (b + 8))
    header_same b k' e =
        let t : IsBlockAt c b k' = (heap.tiled).block b k' e in
        elim (ℕ_discrete b z) [
          | yes same ↦ (kept b (inl (omega arith)), kept (b + 8) (inl (omega arith)))
          | no other ↦ (
            kept_other b k' e other b (omega arith) (omega (arith, t.at_least)),
            kept_other b k' e other (b + 8) (omega arith) (omega (arith, t.at_least)),
          )
        ]

    vacant_kept : (y : ℕ) → IsVacant h y → (m y ≡ s.mem y) × SameLinks s.mem m y
    vacant_kept y (k', e, vac) =
        let t : IsBlockAt c y k' = (heap.tiled).block y k' e in
        let ne : y ≢ z = λ q. occupied-ne-vacant (
          sym used
          ∙ (ap (λ (t : Block). t.kind) (some_inj (sym here ∙ (ap h (sym q) ∙ e))) ∙ vac)) in
        (
          kept_other y k' e ne y (omega arith) (omega (arith, t.at_least)),
          (
            kept_other y k' e ne (y + 16) (omega arith) (omega (arith, t.at_least)),
            kept_other y k' e ne (y + 24) (omega arith) (omega (arith, t.at_least)),
          ),
        )

    -- The words of a used block behind its header can be overwritten.
    pub stored-IsHeap : IsHeap c (record s { mem = m }) lists h
    stored-IsHeap = record {
      tiled = heap.tiled;
      agrees = λ b k' e.
          let (here', prev) = header_same b k' e in
          let (size, back) = heap.agrees b k' e in (here' ∙ size, prev ∙ back);
      merged = heap.merged;
      free = spared-IsFree heap.free heap.holds m vacant_kept;
      holds = heap.holds;
    }

  pub write-other : (a v : ℕ) (m : Memory) (x : ℕ) → x ≢ a → write m a v x ≡ m x
  unfolding write
  write-other a v m x ne = ground arith

  pub write-IsHeap :
      {z a : ℕ} → IsInside h z a → (v : ℕ) → IsHeap c (record s { mem = write s.mem a v }) lists h
  write-IsHeap {z} {a} i v =
      stored-IsHeap i.at i.used (write s.mem a v) (λ x out. write-other a v s.mem x (apart x out))
    where
      apart : (x : ℕ) → (x < z + 16) ⊎ (z + (i.block).size ≤ x) → x ≢ a
      apart x (inl low) = omega (arith, i.from)
      apart x (inr high) = omega (arith, i.to)
