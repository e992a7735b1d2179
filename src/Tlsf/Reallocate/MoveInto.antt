-- ===== src/Tlsf/Reallocate/MoveInto.antt =====
-- `move_into` from the unlinking of the neighbours on.
use rlsf.Base.{
  ℕ, ◌+◌, ◌%◌, ◌≤◌, ◌≡◌, inl, inr, sym, ap, ◌∙◌, subst, Option, some, ◌>>=◌, arith, some_inj, true,
  false,
}
use rlsf.Tlsf.Config.{Config, IsValid}
use rlsf.Tlsf.State.{State, copy}
use rlsf.Tlsf.Request.{Layout}
use rlsf.Tlsf.Links.{unlink_free_block}
use rlsf.Tlsf.Links.Rep.{Lists}
use rlsf.Tlsf.Used.{is_free}
use rlsf.Tlsf.Heap.{vacant, occupied, Block, View, IsBlockAt, IsVacant, IsHeap}
use rlsf.Tlsf.Heap.Words.{is_free-vacant, is_free-used}
use rlsf.Tlsf.Heap.Contents.{IsInside, inside-OffLinks, unlink-kept}
use rlsf.Tlsf.Heap.Region.{region_of}
use rlsf.Tlsf.Allocate.{place_used}
use rlsf.Tlsf.Allocate.Payload.{IsPayload}
use rlsf.Tlsf.Deallocate.Region.{IsHole, block-IsHole, header}
use rlsf.Tlsf.Deallocate.Merge.{take_next}
use rlsf.Tlsf.Deallocate.MergePrev.{take_prev}
use rlsf.Tlsf.Reallocate.InPlace.{Clearance, move_into}
use rlsf.Tlsf.Reallocate.Move.{tail, tail-IsCopied}
use rlsf.Tlsf.Reallocate.Copy.{IsCopied}

module _ (c : Config) (ptr p prev next n count : ℕ) (room : Clearance) (align : ℕ) (s : State) where
  move_into-alone :
      (s1 s4 : State)
      → unlink_free_block c prev (s.mem prev) s ≡ some s1
      → is_free (s1.mem next) ≡ false
      → tail c prev n room.bytes room.end (record s1 { mem = copy s1.mem ptr p count }) ≡ some s4
      → move_into c ptr p prev next n count room align s
        ≡ some (some p, record s4 { mem = place_used s4.mem align p prev n })
  unfolding move_into
  move_into-alone s1 s4 unlink test run =
      rw (unlink, test) (ap (λ (o : Option State). o >>= finish) run)
    where
      finish : State → Option (Option ℕ × State)
      finish s4 = some (some p, record s4 { mem = place_used s4.mem align p prev n })

  move_into-both :
      (s1 s2 s4 : State)
      → unlink_free_block c prev (s.mem prev) s ≡ some s1
      → is_free (s1.mem next) ≡ true
      → unlink_free_block c next (s1.mem next) s1 ≡ some s2
      → tail c prev n room.bytes room.end (record s2 { mem = copy s2.mem ptr p count }) ≡ some s4
      → move_into c ptr p prev next n count room align s
        ≡ some (some p, record s4 { mem = place_used s4.mem align p prev n })
  unfolding move_into
  move_into-both s1 s2 s4 unlink test unlink2 run =
      rw (unlink, test, unlink2) (ap (λ (o : Option State). o >>= finish) run)
    where
      finish : State → Option (Option ℕ × State)
      finish s4 = some (some p, record s4 { mem = place_used s4.mem align p prev n })

-- The room behind a block: its own bytes, and those of the vacant block behind it.
pub data IsClearance (h : View) (b : ℕ) (k : Block) : Clearance → Type 0 where
  alone :
      ¬ IsVacant h (b + k.size) → IsClearance h b k (record { bytes = k.size; end = b + k.size })
  with_vacant :
      (k' : Block)
      → h (b + k.size) ≡ some k'
      → k'.kind ≡ vacant
      → IsClearance h b k (record { bytes = k.size + k'.size; end = b + k.size + k'.size })

module _ {c : Config} (v : IsValid c) {s : State} {lists : Lists} {h : View}
    (heap : IsHeap c s lists h) {b : ℕ} {k : Block} (here : h b ≡ some k) (used : k.kind ≡ occupied)
    {kp : Block} (prev_at : h k.prev ≡ some kp) (vac : kp.kind ≡ vacant)
    (sum : k.prev + kp.size ≡ b) (ptr count n : ℕ) (after : b + 16 ≤ ptr)
    (within : ptr + count ≤ b + k.size) (whole : n % 32 ≡ 0) (l : Layout) (p : ℕ)
    (payload : IsPayload l.align k.prev p) (small : count ≤ l.size)
    (room : p + l.size ≤ k.prev + n) where
  abbrev pub MovedInto : Clearance → Type 0
  MovedInto room0 =
      (s' : State) × (lists' : Lists) × (h' : View) × (move_into c ptr p k.prev (b + k.size) n count
          (record { bytes = room0.bytes + kp.size; end = room0.end }) l.align s
        ≡ some (some p, s'))
      × IsHeap c s' lists' h'
      × IsCopied h h' s.mem s'.mem b ptr count (record { ptr = p; layout = l })

  prev_block : IsBlockAt c k.prev kp
  prev_block = (heap.tiled).block k.prev kp prev_at

  w0 :
      IsHole c s.mem h b k
        (record { block = b; size = k.size; next = b + k.size })
        s
        lists
        (region_of b k)
  w0 = block-IsHole heap here used

  into_alone :
      ¬ IsVacant h (b + k.size)
      → n ≤ k.size + kp.size
      → MovedInto (record { bytes = k.size; end = b + k.size })
  into_alone behind fits =
      let (s1, lists1, unlink1, w1) = take_prev heap w0 kp prev_at sum vac in
      let end_at : IsBlockAt c (b + k.size) (w1.is).end =
        (heap.tiled).block (b + k.size) (w1.is).end (w1.is).at_end in
      let test =
        is_free-used end_at s1.mem
          (header heap w1 (b + k.size) (w1.is).end (inr (omega arith)) (w1.is).at_end).0
          (λ q. behind ((w1.is).end, (w1.is).at_end, q)) in
      let own : (a : ℕ) → IsInside h b a → s1.mem a ≡ s.mem a = λ a i.
        unlink-kept w0.free w0.holds (λ y q. inside-OffLinks heap.tiled i y q.0) k.prev
          (s.mem k.prev) s1 ((kp, prev_at, vac), inl (omega (arith, prev_block.at_least)))
          unlink1 in
      let (s4, lists4, h4, run, heap4, is) =
        tail-IsCopied v heap here used w1 (omega (arith, prev_block.at_least)) behind own ptr count
          n after within whole (omega arith) l p payload small room (k.size + kp.size)
          (omega arith) in
      (
        record s4 { mem = place_used s4.mem l.align p k.prev n },
        lists4,
        h4,
        move_into-alone c ptr p k.prev (b + k.size) n count
            (record { bytes = k.size + kp.size; end = b + k.size }) l.align s s1 s4 unlink1 test
            run,
        heap4,
        is,
      )

  into_both :
      (k' : Block)
      → h (b + k.size) ≡ some k'
      → k'.kind ≡ vacant
      → n ≤ k.size + k'.size + kp.size
      → MovedInto (record { bytes = k.size + k'.size; end = b + k.size + k'.size })
  into_both k' next_at next_vac fits =
      let (s1, lists1, unlink1, w1) = take_prev heap w0 kp prev_at sum vac in
      let same_end : k' ≡ (w1.is).end = some_inj (sym next_at ∙ (w1.is).at_end) in
      let size_end : k'.size ≡ (w1.is).end.size = ap (λ (t : Block). t.size) same_end in
      let vac' : (w1.is).end.kind ≡ vacant = ap (λ (t : Block). t.kind) (sym same_end) ∙ next_vac in
      let end_at : IsBlockAt c (b + k.size) (w1.is).end =
        (heap.tiled).block (b + k.size) (w1.is).end (w1.is).at_end in
      let test =
        is_free-vacant end_at s1.mem
          (header heap w1 (b + k.size) (w1.is).end (inr (omega arith)) (w1.is).at_end).0 vac' in
      let (s2, lists2, unlink2, w2) = take_next heap w1 vac' in
      let own : (a : ℕ) → IsInside h b a → s2.mem a ≡ s.mem a = λ a i.
        unlink-kept w1.free w1.holds (λ y q. inside-OffLinks heap.tiled i y q.0) (b + k.size)
          (s1.mem (b + k.size)) s2 (((w1.is).end, (w1.is).at_end, vac'), inr (omega arith)) unlink2
        ∙ unlink-kept w0.free w0.holds (λ y q. inside-OffLinks heap.tiled i y q.0) k.prev
            (s.mem k.prev) s1 ((kp, prev_at, vac), inl (omega (arith, prev_block.at_least)))
            unlink1 in
      let (s4, lists4, h4, run, heap4, is) =
        tail-IsCopied v heap here used w2 (omega (arith, prev_block.at_least))
          (heap.merged (b + k.size) (w1.is).end (w1.is).at_end vac') own ptr count n after within
          whole (omega (arith, size_end)) l p payload small room (k.size + k'.size + kp.size)
          (omega (arith, size_end)) in
      let end_eq : b + k.size + (w1.is).end.size ≡ b + k.size + k'.size = omega (arith, size_end) in
      (
        record s4 { mem = place_used s4.mem l.align p k.prev n },
        lists4,
        h4,
        move_into-both c ptr p k.prev (b + k.size) n count
            (record { bytes = k.size + k'.size + kp.size; end = b + k.size + k'.size }) l.align s s1
            s2 s4 unlink1 test unlink2
            (subst
              (λ e.
                tail c k.prev n (k.size + k'.size + kp.size) e
                  (record s2 { mem = copy s2.mem ptr p count })
                ≡ some s4)
              end_eq run),
        heap4,
        is,
      )

  -- For valid constants, a heap, a used block with a vacant one before it, and a payload that is
  -- aligned in that one: `move_into`, with bytes of the payload of the block to copy and a size
  -- that is a multiple of 32, fits the room of the blocks and holds the new layout, returns the new
  -- payload. It is an allocation for the new layout, and the words of the old one are there. The
  -- other blocks in use stay, with their contents, and the result is a heap.
  pub move_into-IsCopied :
      (room0 : Clearance) → IsClearance h b k room0 → n ≤ room0.bytes + kp.size → MovedInto room0
  move_into-IsCopied _ (alone behind) fits = into_alone behind fits
  move_into-IsCopied _ (with_vacant k' at vac') fits = into_both k' at vac' fits
