-- ===== src/Tlsf/Deallocate/Fill.antt =====
-- The hole of `deallocate` becomes a free block.
use rlsf.Base.{
  ℕ, ◌+◌, ◌%◌, ◌^◌, ◌≤◌, ◌<◌, ◌≡◌, ◌≢◌, ◌⊎◌, inl, inr, refl, sym, ap, ◌∙◌, Option, some, ◌>>=◌,
  arith,
}
use rlsf.Tlsf.Config.{Config, IsValid}
use rlsf.Tlsf.Class.Floor.{IsSize}
use rlsf.Tlsf.State.{State, Memory, write}
use rlsf.Tlsf.Links.{link_free_block}
use rlsf.Tlsf.Links.Heap.{IsBlock, SameLinks}
use rlsf.Tlsf.Links.Rep.{Lists, SameHeaders}
use rlsf.Tlsf.Heap.{vacant, Block, View, IsBlockAt, IsTiled, IsVacant, IsHeap}
use rlsf.Tlsf.Heap.Replace.{Region, replace}
use rlsf.Tlsf.Heap.Tiled.{last-eq}
use rlsf.Tlsf.Heap.Backward.{replace-IsTiled}
use rlsf.Tlsf.Heap.Agree.{IsRewritten, replace-Agrees, replace-IsMerged}
use rlsf.Tlsf.Heap.Contents.{IsInside, SameOthers, inside-OffLinks, link-kept}
use rlsf.Tlsf.Heap.Members.{Holds-same, spared-IsFree, link-Holds}
use rlsf.Tlsf.Heap.Vacant.{IsNew, old, tile, remainder, IsNew-of_vacant, vacant_of_IsNew}
use rlsf.Tlsf.Heap.Placed.{vacant-ne-sentinel, occupied-ne-vacant}
use rlsf.Tlsf.Deallocate.{Hole, fill_hole}
use rlsf.Tlsf.Deallocate.Region.{Outside, IsHole}

module _ {c : Config} {s0 : State} {lists0 : Lists} {h : View} (heap : IsHeap c s0 lists0 h) {b : ℕ}
    {k : Block} {hole : Hole} {s : State} {lists : Lists} {r : Region}
    (w : IsHole c s0.mem h b k hole s lists r) where
  -- The view with one vacant block in place of the region.
  abbrev pub filled : View
  filled = replace h r hole.size vacant vacant

  start_block : IsBlockAt c r.b (w.is).start
  start_block = (heap.tiled).block r.b (w.is).start (w.is).at_start

  end_block : IsBlockAt c r.e (w.is).end
  end_block = (heap.tiled).block r.e (w.is).end (w.is).at_end

  pub size_pos : 0 < hole.size
  size_pos = omega (arith, w.size_eq, (w.is).forward)

  pub size_fits : r.b + hole.size ≤ r.e
  size_fits = omega (arith, w.size_eq)

  size_whole : hole.size % 32 ≡ 0
  size_whole = omega (arith, w.size_eq, start_block.aligned, end_block.aligned)

  size_IsSize : IsSize hole.size
  size_IsSize = record {
    at_least = omega (arith, size_pos, size_whole);
    in_word = omega (arith, w.size_eq, end_block.in_word);
  }

  size_bound : hole.size < 2 ^ (c.fllen + 5)
  size_bound =
      let low : (w.is).start.pool ≤ r.b = start_block.from_pool in
      let high : r.e + (w.is).end.size ≤ (w.is).end.pool + 2 ^ (c.fllen + 5) = end_block.in_pool in
      omega (arith, w.size_eq, (w.is).start_pool, (w.is).end_pool, low, high, end_block.at_least)

  -- What the writes leave as it is.
  abbrev sized : Memory
  sized = write s.mem r.b hole.size

  sized_same : (a : ℕ) → a ≢ r.b → sized a ≡ s.mem a
  unfolding write
  sized_same a ne = ground arith

  sized_here : sized r.b ≡ hole.size
  unfolding write
  sized_here = ground arith

  back_same : (m : Memory) (a : ℕ) → a ≢ r.e + 8 → write m (r.e + 8) r.b a ≡ m a
  unfolding write
  back_same m a ne = ground arith

  back_here : (m : Memory) → write m (r.e + 8) r.b (r.e + 8) ≡ r.b
  unfolding write
  back_here m = ground arith

  spared : (z : ℕ) → IsVacant h z × Outside r z → (sized z ≡ s.mem z) × SameLinks s.mem sized z
  spared z ((kz, e, v), o) =
      let t : IsBlockAt c z kz = (heap.tiled).block z kz e in
      (
        sized_same z (λ q. elim o [ inl p ↦ omega arith | inr p ↦ omega (arith, (w.is).forward) ]),
        (
          sized_same (z + 16) (omega (arith, t.aligned, start_block.aligned)),
          sized_same (z + 24) (omega (arith, t.aligned, start_block.aligned)),
        ),
      )

  new_block : IsBlock r.b
  new_block = record { ne_null = start_block.ne_null; aligned = start_block.aligned }

  fresh : ¬ (IsVacant h r.b × Outside r r.b)
  fresh (v, inl o) = omega arith
  fresh (v, inr o) = omega (arith, (w.is).forward)

  to : (z : ℕ) → (IsVacant h z × Outside r z) ⊎ (z ≡ r.b) → IsVacant filled z
  to z (inl (vz, o)) = vacant_of_IsNew w.is hole.size size_pos size_fits vacant vacant z (old o vz)
  to z (inr q) = vacant_of_IsNew w.is hole.size size_pos size_fits vacant vacant z (tile refl q)

  from_new :
      (z : ℕ) → IsNew h r hole.size vacant vacant z → (IsVacant h z × Outside r z) ⊎ (z ≡ r.b)
  from_new z (old o vz) = inl (vz, o)
  from_new z (tile o q) = inr q
  from_new z (remainder o more q) = absurd (omega (arith, w.size_eq))

  listed_spared :
      (m : Memory) (z : ℕ)
      → (IsVacant h z × Outside r z) ⊎ (z ≡ r.b)
      → (write m (r.e + 8) r.b z ≡ m z) × SameLinks m (write m (r.e + 8) r.b) z
  listed_spared m z q =
      let al : z % 32 ≡ 0 = aligned z q in
      (
        back_same m z (omega (arith, al, end_block.aligned)),
        (
          back_same m (z + 16) (omega (arith, al, end_block.aligned)),
          back_same m (z + 24) (omega (arith, al, end_block.aligned)),
        ),
      )
    where
      aligned : (z : ℕ) → (IsVacant h z × Outside r z) ⊎ (z ≡ r.b) → z % 32 ≡ 0
      aligned z (inl ((kz, e, v), o)) =
          let t : IsBlockAt c z kz = (heap.tiled).block z kz e in t.aligned
      aligned z (inr q) = omega (arith, start_block.aligned)

  filled-IsRewritten :
      (m : Memory)
      → SameHeaders sized m
      → IsRewritten s0.mem (write m (r.e + 8) r.b) r hole.size vacant vacant
  filled-IsRewritten m same = record {
    first_size =
        back_same m r.b (omega (arith, start_block.aligned, end_block.aligned))
        ∙ (same r.b (omega (arith, start_block.aligned)) ∙ (sized_here ∙ omega arith));
    first_prev =
        kept (r.b + 8) (omega (arith, start_block.aligned)) (inl (omega arith)) (omega arith)
          (omega (arith, (w.is).forward))
        ∙ ((heap.agrees r.b (w.is).start (w.is).at_start).1 ∙ (w.is).start_prev);
    rest_size = λ more. absurd (omega (arith, w.size_eq));
    rest_prev = λ more. absurd (omega (arith, w.size_eq));
    end_prev =
        back_here m
        ∙ sym (
            last-eq heap.tiled w.is hole.size size_pos size_fits size_whole vacant vacant
              vacant-ne-sentinel vacant-ne-sentinel w.size_eq);
    same_size = λ x al out.
        kept x (omega arith) (elim out [ inl o ↦ inl (omega arith) | inr o ↦ inr o ])
          (λ q. elim out [ inl o ↦ omega arith | inr o ↦ omega (arith, (w.is).forward) ])
          (omega (arith, end_block.aligned));
    same_prev = λ x al out.
        kept (x + 8) (omega arith)
          (elim out [ inl o ↦ inl (omega arith) | inr o ↦ inr (omega arith) ])
          (omega (arith, start_block.aligned))
          (λ q. elim out [ inl o ↦ omega (arith, (w.is).forward) | inr o ↦ omega arith ]);
  }
    where
      kept :
          (a : ℕ)
          → a % 32 < 16
          → (a < r.b + 16) ⊎ (r.e ≤ a)
          → a ≢ r.b
          → a ≢ r.e + 8
          → write m (r.e + 8) r.b a ≡ s0.mem a
      kept a low out ne ne' =
          back_same m a ne' ∙ (same a low ∙ (sized_same a ne ∙ w.same a low out))

  -- A word of another used block is before the hole or behind it.
  away : {z a : ℕ} → z ≢ b → IsInside h z a → (a < r.b) ⊎ (r.e + 16 ≤ a)
  away {z} {a} ne i =
      let live : i.block.kind ≢ vacant = λ v. occupied-ne-vacant (sym i.used ∙ v) in
      elim (w.live z i.block i.at live ne) [
        | inl low ↦
            let before = (heap.tiled).apart z i.block r.b (w.is).start i.at (w.is).at_start low in
            inl (omega (arith, before, i.to))
        | inr high ↦ inr (omega (arith, i.from))
      ]

  sized-SameOthers : SameOthers h b s0.mem sized
  sized-SameOthers z a ne i = sized_same a (not_first (away ne i)) ∙ w.contents z a ne i
    where
      not_first : (a < r.b) ⊎ (r.e + 16 ≤ a) → a ≢ r.b
      not_first (inl o) = omega arith
      not_first (inr o) = omega (arith, (w.is).forward)

  filled-SameOthers :
      (s1 : State)
      → link_free_block c r.b hole.size (record s { mem = sized }) ≡ some s1
      → SameOthers h b s0.mem (write s1.mem (r.e + 8) r.b)
  filled-SameOthers s1 run z a ne i = elim (away ne i) [
    | inl o ↦
        back_same s1.mem a (omega (arith, (w.is).forward))
        ∙ (linked (omega arith) (omega arith) ∙ sized-SameOthers z a ne i)
    | inr o ↦
        back_same s1.mem a (omega arith)
        ∙ (linked (omega (arith, size_fits, size_IsSize.at_least))
              (omega (arith, size_fits, size_IsSize.at_least))
            ∙ sized-SameOthers z a ne i)
  ]
    where
      linked : a ≢ r.b + 16 → a ≢ r.b + 24 → s1.mem a ≡ sized a
      linked =
          link-kept (spared-IsFree w.free w.holds sized spared) w.holds
            (λ y q. inside-OffLinks heap.tiled i y q.0) r.b hole.size s1 run

  -- Between blocks that are not vacant, the filled hole leaves a heap.
  pub fill_hole-IsHeap :
      IsValid c
      → (¬ IsVacant h r.e)
      → (¬ IsVacant h r.p)
      → (s' : State) × (lists' : Lists) × (fill_hole c hole s ≡ some s')
        × IsHeap c s' lists' filled
        × SameOthers h b s0.mem s'.mem
  unfolding fill_hole
  fill_hole-IsHeap valid behind before =
      let (s1, lists1, run, free1, same1, holds1) =
        link-Holds (spared-IsFree w.free w.holds sized spared) w.holds r.b hole.size valid new_block
          fresh size_IsSize size_bound sized_here in
      let m' : Memory = write s1.mem (r.e + 8) r.b in
      let tiled : IsTiled c filled =
        replace-IsTiled heap.tiled w.is hole.size size_pos size_fits size_whole vacant vacant
          vacant-ne-sentinel vacant-ne-sentinel in
      (
        record s1 { mem = m' },
        lists1,
        rw (w.block_eq, w.next_eq) (ap (λ (o : Option State). o >>= finish) run),
        record {
          tiled = tiled;
          agrees =
              replace-Agrees heap.tiled w.is hole.size size_pos size_fits vacant vacant heap.agrees
                (filled-IsRewritten s1.mem same1);
          merged =
              replace-IsMerged heap.tiled w.is hole.size size_pos size_fits vacant vacant tiled
                heap.merged
                (record {
                  tiles = λ o o'. w.size_eq;
                  first_end = λ o o' e. behind ((w.is).end, (w.is).at_end, e);
                  rest_end = λ o more. absurd (omega (arith, w.size_eq));
                  before = λ o. before;
                });
          free = spared-IsFree free1 holds1 m' (listed_spared s1.mem);
          holds = Holds-same holds1 to (λ z v.
              from_new z (IsNew-of_vacant w.is hole.size size_pos size_fits vacant vacant z v));
        },
        filled-SameOthers s1 run,
      )
    where
      finish : State → Option State
      finish s' = some (record s' { mem = write s'.mem (r.e + 8) r.b })
