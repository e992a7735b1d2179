-- ===== src/Tlsf/Reallocate/Rest.antt =====
-- The rest of a region is linked as a free block.
use rlsf.Base.{ℕ, ◌+◌, ◌-◌, ◌%◌, ◌^◌, ◌≤◌, ◌<◌, ◌≡◌, ◌≢◌, ◌⊎◌, inl, inr, ◌∙◌, some, arith}
use rlsf.Tlsf.Config.{Config, IsValid}
use rlsf.Tlsf.State.{State, Memory}
use rlsf.Tlsf.Links.{link_free_block}
use rlsf.Tlsf.Links.Heap.{SameLinks}
use rlsf.Tlsf.Links.Rep.{Lists, IsFree, SameHeaders}
use rlsf.Tlsf.Heap.{Block, View, IsBlockAt, IsVacant, Holds, IsHeap}
use rlsf.Tlsf.Heap.Replace.{Region}
use rlsf.Tlsf.Heap.Members.{spared-IsFree, link-Holds}
use rlsf.Tlsf.Deallocate.{Hole}
use rlsf.Tlsf.Deallocate.Region.{Outside, IsHole}
use rlsf.Tlsf.Heap.Contents.{OffLinks, link-kept}

module _ {c : Config} {s0 : State} {lists0 : Lists} {h : View} (heap : IsHeap c s0 lists0 h) {b : ℕ}
    {k : Block} {hole : Hole} {s : State} {lists : Lists} {r : Region}
    (w : IsHole c s0.mem h b k hole s lists r) (n : ℕ) (pos : 0 < n) (less : r.b + n < r.e)
    (whole : n % 32 ≡ 0) where
  abbrev rest : ℕ
  rest = r.b + n

  abbrev size : ℕ
  size = r.e - (r.b + n)

  start_at : IsBlockAt c r.b (w.is).start
  start_at = (heap.tiled).block r.b (w.is).start (w.is).at_start

  end_at : IsBlockAt c r.e (w.is).end
  end_at = (heap.tiled).block r.e (w.is).end (w.is).at_end

  al : r.b % 32 ≡ 0
  al = start_at.aligned

  al_end : r.e % 32 ≡ 0
  al_end = end_at.aligned

  pub rest_at_least : 32 ≤ size
  rest_at_least = omega (arith, al, al_end)

  size_bound : size < 2 ^ (c.fllen + 5)
  size_bound =
      let low : (w.is).start.pool ≤ r.b = start_at.from_pool in
      let high : r.e + (w.is).end.size ≤ (w.is).end.pool + 2 ^ (c.fllen + 5) = end_at.in_pool in
      omega (arith, (w.is).start_pool, (w.is).end_pool, low, high, end_at.at_least)

  -- A write elsewhere than to three words.
  module _ (m : Memory)
      (other : (a : ℕ) → a ≢ r.e + 8 → a ≢ rest → a ≢ rest + 8 → m a ≡ s.mem a) where
    spared : (z : ℕ) → IsVacant h z × Outside r z → (m z ≡ s.mem z) × SameLinks s.mem m z
    spared z ((kz, e, vz), o) =
        let t : IsBlockAt c z kz = (heap.tiled).block z kz e in
        let ne : z ≢ rest = λ q. elim o [ inl x ↦ omega arith | inr x ↦ omega arith ] in
        (
          other z (omega (arith, t.aligned, al_end)) ne (omega (arith, t.aligned, al)),
          (
            other (z + 16) (omega (arith, t.aligned, al_end)) (omega (arith, t.aligned, al))
                (omega (arith, t.aligned, al)),
            other (z + 24) (omega (arith, t.aligned, al_end)) (omega (arith, t.aligned, al))
                (omega (arith, t.aligned, al)),
          ),
        )

    fresh : ¬ (IsVacant h rest × Outside r rest)
    fresh (vz, inl o) = omega arith
    fresh (vz, inr o) = omega arith

    pub link_rest :
        IsValid c
        → m rest ≡ size
        → (s2 : State) × (lists2 : Lists) × (link_free_block c rest size (record s { mem = m })
            ≡ some s2)
          × IsFree c s2 lists2
          × SameHeaders m s2.mem
          × Holds lists2 (λ z. (IsVacant h z × Outside r z) ⊎ (z ≡ rest))
    link_rest valid size_eq =
        link-Holds (spared-IsFree w.free w.holds m spared) w.holds rest size valid
          (record { ne_null = omega arith; aligned = omega (arith, al) }) fresh
          (record { at_least = rest_at_least; in_word = omega (arith, end_at.in_word) }) size_bound
          size_eq

    -- The words that the link leaves as they are.
    pub link_rest-kept :
        (s2 : State)
        → link_free_block c rest size (record s { mem = m }) ≡ some s2
        → (a : ℕ) → OffLinks (λ z. IsVacant h z × Outside r z) a
        → (a < rest) ⊎ (r.e ≤ a)
        → a ≢ r.e + 8
        → s2.mem a ≡ s.mem a
    link_rest-kept s2 run a off (inl low) ne =
        link-kept (spared-IsFree w.free w.holds m spared) w.holds off rest size s2 run (omega arith)
          (omega arith)
        ∙ other a ne (omega arith) (omega arith)
    link_rest-kept s2 run a off (inr high) ne =
        link-kept (spared-IsFree w.free w.holds m spared) w.holds off rest size s2 run
          (omega (arith, rest_at_least)) (omega (arith, rest_at_least))
        ∙ other a ne (omega (arith, rest_at_least)) (omega (arith, rest_at_least))
