-- ===== src/Tlsf/Deallocate/Merge.antt =====
-- The first merge of `deallocate` takes in the vacant block behind the hole.
use rlsf.Base.{
  ◌<◌, ◌≤◌, ◌⊎◌, ℕ, ◌+◌, ◌≡◌, ◌≢◌, inl, inr, refl, sym, ap, ◌∙◌, Option, some, ◌>>=◌, arith, true,
  false,
}
use rlsf.Tlsf.Config.{Config}
use rlsf.Tlsf.State.{State, next_phys_block}
use rlsf.Tlsf.Links.{unlink_free_block}
use rlsf.Tlsf.Links.Rep.{Lists}
use rlsf.Tlsf.Used.{is_free}
use rlsf.Tlsf.Heap.{vacant, Block, View, IsBlockAt, IsVacant, IsHeap}
use rlsf.Tlsf.Heap.Replace.{Region}
use rlsf.Tlsf.Heap.Region.{with_next, with_next-IsRegion}
use rlsf.Tlsf.Heap.Contents.{inside-OffLinks, unlink-kept}
use rlsf.Tlsf.Heap.Members.{Holds-same, unlink-Holds}
use rlsf.Tlsf.Heap.Words.{next_phys_block-eq, is_free-vacant, is_free-used}
use rlsf.Tlsf.Heap.Placed.{vacant-ne-sentinel}
use rlsf.Tlsf.Deallocate.{Hole, merge_next}
use rlsf.Tlsf.Deallocate.Region.{Outside, IsHole, decide_vacant, header, word, dead}

module _ {c : Config} {s0 : State} {lists0 : Lists} {h : View} (heap : IsHeap c s0 lists0 h) {b : ℕ}
    {k : Block} {hole : Hole} {s : State} {lists : Lists} {r : Region}
    (w : IsHole c s0.mem h b k hole s lists r) where
  -- The block at the end of the region is vacant.
  module _ (v : ((w.is).end).kind ≡ vacant) where
    abbrev end : Block
    end = (w.is).end

    at_end : h r.e ≡ some end
    at_end = (w.is).at_end

    abbrev wider : Region
    wider = with_next r end

    beyond : (z : ℕ) (kz : Block) → h z ≡ some kz → Outside r z → z ≢ r.e → Outside wider z
    beyond z kz e (inl o) ne = inl o
    beyond z kz e (inr o) ne =
        inr (omega (arith, (heap.tiled).apart r.e end z kz at_end e (omega arith)))

    within : (z : ℕ) → Outside wider z → Outside r z × (z ≢ r.e)
    within z (inl o) = (inl o, λ q. omega (arith, (w.is).forward))
    within z (inr o) =
        let t : IsBlockAt c r.e end = (heap.tiled).block r.e end at_end in
        (inr (omega arith), λ q. omega (arith, t.at_least))

    widen : (a : ℕ) → (a < r.b + 16) ⊎ (r.e + end.size ≤ a) → (a < r.b + 16) ⊎ (r.e ≤ a)
    widen a (inl low) = inl low
    widen a (inr high) = inr (omega arith)

    pub take_next :
        (s' : State) × (lists' : Lists) × (unlink_free_block c r.e (s.mem r.e) s ≡ some s')
        × IsHole c s0.mem h b k
            (record hole { size = hole.size + s.mem r.e; next = next_phys_block s.mem r.e })
            s'
            lists'
            wider
    take_next =
        let t : IsBlockAt c r.e end = (heap.tiled).block r.e end at_end in
        let (s', lists', run, free', same', holds') =
          unlink-Holds w.free w.holds r.e ((end, at_end, v), inr (omega arith)) in
        (
          s',
          lists',
          run,
          record {
            is = with_next-IsRegion heap.tiled w.is (λ e. vacant-ne-sentinel (sym v ∙ e));
            block_eq = w.block_eq;
            size_eq = omega (arith, w.size_eq, word heap w r.e end (inr (omega arith)) at_end v);
            next_eq =
                next_phys_block-eq t s.mem (header heap w r.e end (inr (omega arith)) at_end).0;
            free = free';
            holds =
                Holds-same holds' (λ z q. (q.0.0, beyond z q.0.0.0 q.0.0.1 q.0.1 q.1))
                  (λ z q. ((q.0, (within z q.1).0), (within z q.1).1));
            same = λ a low out. same' a low ∙ w.same a low (widen a out);
            from = w.from;
            to = omega (arith, w.to);
            contents = λ z a ne i.
                unlink-kept w.free w.holds (λ y q. inside-OffLinks heap.tiled i y q.0) r.e
                  (s.mem r.e) s' ((end, at_end, v), inr (omega arith)) run
                ∙ w.contents z a ne i;
            live = λ z kz e used other.
                beyond z kz e (w.live z kz e used other) (dead heap w r.e end at_end v z kz e used);
          },
        )

  -- Behind the new hole, no block is vacant.
  pub merge_next-IsHole :
      (hole' : Hole) × (s' : State) × (lists' : Lists) × (r' : Region) × (merge_next c hole s
        ≡ some (hole', s'))
      × IsHole c s0.mem h b k hole' s' lists' r'
      × (¬ IsVacant h r'.e)
      × (r'.p ≡ r.p)
  unfolding merge_next
  merge_next-IsHole = elim (decide_vacant ((w.is).end).kind) [
    | yes v ↦
        let t : IsBlockAt c r.e (w.is).end = (heap.tiled).block r.e (w.is).end (w.is).at_end in
        let free_word : is_free (s.mem r.e) ≡ true =
          is_free-vacant t s.mem (header heap w r.e (w.is).end (inr (omega arith)) (w.is).at_end).0
            v in
        let (s', lists', run, is') = take_next v in
        (
          record hole { size = hole.size + s.mem r.e; next = next_phys_block s.mem r.e },
          s',
          lists',
          with_next r (w.is).end,
          rw (w.next_eq, free_word) (ap (λ (o : Option State). o >>= finish) run),
          is',
          heap.merged r.e (w.is).end (w.is).at_end v,
          refl,
        )
    | no ne ↦
        let t : IsBlockAt c r.e (w.is).end = (heap.tiled).block r.e (w.is).end (w.is).at_end in
        let used_word : is_free (s.mem r.e) ≡ false =
          is_free-used t s.mem (header heap w r.e (w.is).end (inr (omega arith)) (w.is).at_end).0
            ne in
        (
          hole,
          s,
          lists,
          r,
          rw (w.next_eq, used_word) refl,
          w,
          λ q. dead heap w r.e q.0 q.1 q.2 r.e (w.is).end (w.is).at_end ne refl,
          refl,
        )
  ]
    where
      finish : State → Option (Hole × State)
      finish s' =
          some (record hole { size = hole.size + s.mem r.e; next = next_phys_block s.mem r.e }, s')
