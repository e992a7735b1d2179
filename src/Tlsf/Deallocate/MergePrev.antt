-- ===== src/Tlsf/Deallocate/MergePrev.antt =====
-- The second merge of `deallocate` takes in the vacant block before the hole.
use rlsf.Base.{
  ◌<◌, ◌≤◌, ◌⊎◌, ℕ, ◌+◌, ◌≡◌, ◌≢◌, inl, inr, refl, sym, ap, ◌∙◌, Option, some, ◌>>=◌, arith, true,
  false, ◌==◌, ≡→==, ≢→==,
}
use native.Mathlib.Decide.{dec_lt}
use rlsf.Tlsf.Config.{Config}
use rlsf.Tlsf.State.{State}
use rlsf.Tlsf.Links.{unlink_free_block}
use rlsf.Tlsf.Links.Rep.{Lists}
use rlsf.Tlsf.Used.{is_free}
use rlsf.Tlsf.Heap.{vacant, Block, View, IsBlockAt, IsVacant, IsHeap}
use rlsf.Tlsf.Heap.Replace.{Region}
use rlsf.Tlsf.Heap.Region.{with_prev, with_prev-IsRegion}
use rlsf.Tlsf.Heap.Contents.{inside-OffLinks, unlink-kept}
use rlsf.Tlsf.Heap.Members.{Holds-same, unlink-Holds}
use rlsf.Tlsf.Heap.Words.{is_free-vacant, is_free-used}
use rlsf.Tlsf.Heap.Placed.{vacant-ne-sentinel}
use rlsf.Tlsf.Deallocate.{Hole, merge_prev}
use rlsf.Tlsf.Deallocate.Region.{Outside, IsHole, prev_used, decide_vacant, header, word, dead}

module _ {c : Config} {s0 : State} {lists0 : Lists} {h : View} (heap : IsHeap c s0 lists0 h) {b : ℕ}
    {k : Block} {hole : Hole} {s : State} {lists : Lists} {r : Region}
    (w : IsHole c s0.mem h b k hole s lists r) where
  -- The block before the region is vacant.
  module _ (prev : Block) (at : h r.p ≡ some prev) (sum : r.p + prev.size ≡ r.b)
      (v : prev.kind ≡ vacant) where
    abbrev longer : Region
    longer = with_prev r prev

    before : (z : ℕ) (kz : Block) → h z ≡ some kz → Outside r z → z ≢ r.p → Outside longer z
    before z kz e (inr o) ne = inr o
    before z kz e (inl o) ne = elim (dec_lt z r.p) [
      | yes q ↦ inl q
      | no q ↦ absurd (omega (arith, (heap.tiled).apart r.p prev z kz at e (omega arith)))
    ]

    without : (z : ℕ) → Outside longer z → Outside r z × (z ≢ r.p)
    without z (inl o) =
        let t : IsBlockAt c r.p prev = (heap.tiled).block r.p prev at in
        (inl (omega arith), λ q. omega arith)
    without z (inr o) =
        let t : IsBlockAt c r.p prev = (heap.tiled).block r.p prev at in
        (inr o, λ q. omega (arith, t.at_least, (w.is).forward))

    widen : (a : ℕ) → (a < r.p + 16) ⊎ (r.e ≤ a) → (a < r.b + 16) ⊎ (r.e ≤ a)
    widen a (inl low) = inl (omega arith)
    widen a (inr high) = inr high

    pub take_prev :
        (s' : State) × (lists' : Lists) × (unlink_free_block c r.p (s.mem r.p) s ≡ some s')
        × IsHole c s0.mem h b k
            (record hole { size = hole.size + s.mem r.p; block = r.p })
            s'
            lists'
            longer
    take_prev =
        let t : IsBlockAt c r.p prev = (heap.tiled).block r.p prev at in
        let out : Outside r r.p = inl (omega (arith, t.at_least)) in
        let (s', lists', run, free', same', holds') =
          unlink-Holds w.free w.holds r.p ((prev, at, v), out) in
        (
          s',
          lists',
          run,
          record {
            is =
                with_prev-IsRegion heap.tiled w.is prev at sum
                  (λ e. vacant-ne-sentinel (sym v ∙ e));
            block_eq = refl;
            size_eq = omega (arith, w.size_eq, word heap w r.p prev (inl (omega arith)) at v);
            next_eq = w.next_eq;
            free = free';
            holds =
                Holds-same holds' (λ z q. (q.0.0, before z q.0.0.0 q.0.0.1 q.0.1 q.1))
                  (λ z q. ((q.0, (without z q.1).0), (without z q.1).1));
            same = λ a low out. same' a low ∙ w.same a low (widen a out);
            from = omega (arith, w.from);
            to = w.to;
            contents = λ z a ne i.
                unlink-kept w.free w.holds (λ y q. inside-OffLinks heap.tiled i y q.0) r.p
                  (s.mem r.p) s' ((prev, at, v), out) run
                ∙ w.contents z a ne i;
            live = λ z kz e used other.
                before z kz e (w.live z kz e used other) (dead heap w r.p prev at v z kz e used);
          },
        )

  abbrev pub Merged : Type 0
  Merged =
      (hole' : Hole) × (s' : State) × (lists' : Lists) × (r' : Region) × (merge_prev c hole s
        ≡ some (hole', s'))
      × IsHole c s0.mem h b k hole' s' lists' r'
      × (r'.e ≡ r.e)
      × (¬ IsVacant h r'.p)

  -- The word for the block before.
  prev_word : s.mem (hole.block + 8) ≡ r.p
  prev_word =
      ap (λ (t : ℕ). s.mem (t + 8)) w.block_eq
      ∙ ((header heap w r.b (w.is).start (inl (omega arith)) (w.is).at_start).1 ∙ (w.is).start_prev)

  no_prev : r.p ≡ 0 → Merged
  unfolding merge_prev
  no_prev null =
      let test : (r.p == 0) ≡ true = ≡→== r.p 0 null in
      (
        hole,
        s,
        lists,
        r,
        rw (prev_word, test) refl,
        w,
        refl,
        λ q. let t : IsBlockAt c r.p q.0 = (heap.tiled).block r.p q.0 q.1 in t.ne_null null,
      )

  some_prev : (prev : Block) → h r.p ≡ some prev → r.p + prev.size ≡ r.b → Merged
  unfolding merge_prev
  some_prev prev at sum =
      let t : IsBlockAt c r.p prev = (heap.tiled).block r.p prev at in
      let test : (r.p == 0) ≡ false = ≢→== r.p 0 t.ne_null in
      elim (decide_vacant prev.kind) [
        | yes v ↦
            let free_word : is_free (s.mem r.p) ≡ true =
              is_free-vacant t s.mem (header heap w r.p prev (inl (omega arith)) at).0 v in
            let (s', lists', run, is') = take_prev prev at sum v in
            (
              record hole { size = hole.size + s.mem r.p; block = r.p },
              s',
              lists',
              with_prev r prev,
              rw (prev_word, test, free_word) (ap (λ (o : Option State). o >>= finish) run),
              is',
              refl,
              prev_used heap r.p prev at v,
            )
        | no ne ↦
            let used_word : is_free (s.mem r.p) ≡ false =
              is_free-used t s.mem (header heap w r.p prev (inl (omega arith)) at).0 ne in
            (
              hole,
              s,
              lists,
              r,
              rw (prev_word, test, used_word) refl,
              w,
              refl,
              λ q. dead heap w r.p q.0 q.1 q.2 r.p prev at ne refl,
            )
      ]
    where
      finish : State → Option (Hole × State)
      finish s' = some (record hole { size = hole.size + s.mem r.p; block = r.p }, s')

  -- Before the new hole, no block is vacant.
  pub merge_prev-IsHole : Merged
  merge_prev-IsHole = elim ((heap.tiled).back r.b (w.is).start (w.is).at_start) [
    | inl null ↦ no_prev (sym (w.is).start_prev ∙ null)
    | inr (prev, at, sum, ne) ↦
        some_prev prev (ap h (sym (w.is).start_prev) ∙ at) (omega (arith, (w.is).start_prev, sum))
  ]
