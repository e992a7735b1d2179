-- ===== src/Tlsf/Reallocate/Shrink.antt =====
-- `shrink`, and a used block without its tail.
use native.Mathlib.Decide.{ℕ_discrete}
use rlsf.Base.{
  true, false, ◌==◌, ◌>>=◌, ≡→==, ≢→==, bit_or, ℕ, ◌+◌, ◌-◌, ◌%◌, ◌≤◌, ◌<◌, ◌≡◌, inr, refl, sym, ap,
  ◌∙◌, Option, some, arith, some_inj,
}
use rlsf.Tlsf.Config.{Config, IsValid}
use rlsf.Tlsf.State.{State, write}
use rlsf.Tlsf.Links.{link_free_block}
use rlsf.Tlsf.Links.Rep.{Lists}
use rlsf.Tlsf.Heap.{occupied, Block, View, IsBlockAt, IsVacant, IsHeap}
use rlsf.Tlsf.Allocate.Place.{with_rest, with_rest-size, with_rest-other}
use rlsf.Tlsf.Deallocate.Region.{IsHole}
use rlsf.Tlsf.Heap.Contents.{IsInside, inside-OffLinks}
use rlsf.Tlsf.State.{next_phys_block}
use rlsf.Tlsf.Links.{unlink_free_block}
use rlsf.Tlsf.Used.{is_free}
use rlsf.Tlsf.Heap.{flags}
use rlsf.Tlsf.Heap.Contents.{unlink-kept}
use rlsf.Tlsf.Heap.Members.{unlink-SameHeaders}
use rlsf.Tlsf.Heap.Region.{region_of}
use rlsf.Tlsf.Heap.Words.{next_phys_block-eq, is_free-vacant, is_free-used}
use rlsf.Tlsf.Deallocate.Region.{block-IsHole, decide_vacant}
use rlsf.Tlsf.Deallocate.Merge.{take_next}
use rlsf.Tlsf.Reallocate.InPlace.{free_rest, shrink}
use rlsf.Tlsf.Reallocate.Rest.{link_rest, link_rest-kept}
use rlsf.Tlsf.Reallocate.Resized.{IsResized, part-IsResized}

-- The run of `free_rest`, by the kind of the next block.
module _ (c : Config) (block n size next : ℕ) (s : State) where
  pub free_rest-used :
      (total : ℕ) (s2 : State)
      → is_free (s.mem next) ≡ false
      → size ≡ total
      → link_free_block c
          (block + n)
          total
          (record s { mem = with_rest s.mem block (block + n) total next })
        ≡ some s2
      → free_rest c block n size next s ≡ some s2
  unfolding free_rest
  free_rest-used total s2 test sum run = rw (test, sum) run

  free_rest-free :
      (total behind : ℕ) (s1 s2 : State)
      → is_free (s.mem next) ≡ true
      → unlink_free_block c next (s.mem next) s ≡ some s1
      → size + s.mem next ≡ total
      → next_phys_block s1.mem next ≡ behind
      → link_free_block c
          (block + n)
          total
          (record s1 { mem = with_rest s1.mem block (block + n) total behind })
        ≡ some s2
      → free_rest c block n size next s ≡ some s2
  unfolding free_rest
  free_rest-free total behind s1 s2 test unlink sum nn run = rw (test, unlink, sum, nn) run

module _ {c : Config} (v : IsValid c) {s : State} {lists : Lists} {h : View}
    (heap : IsHeap c s lists h) {b : ℕ} {k : Block} (here : h b ≡ some k) (used : k.kind ≡ occupied)
    (n : ℕ) (large : 16 ≤ n) (whole : n % 32 ≡ 0) where
  w0 :
      IsHole c s.mem h b k
        (record { block = b; size = k.size; next = b + k.size })
        s
        lists
        (region_of b k)
  w0 = block-IsHole heap here used

  end_at : IsBlockAt c (b + k.size) (w0.is).end
  end_at = (heap.tiled).block (b + k.size) (w0.is).end (w0.is).at_end

  end_word : s.mem (b + k.size) ≡ (w0.is).end.size + flags (w0.is).end.kind
  end_word = (heap.agrees (b + k.size) (w0.is).end (w0.is).at_end).0

  abbrev Shrunk : Type 0
  Shrunk =
      (s' : State) × (lists' : Lists) × (h' : View) × (free_rest c b n (k.size - n) (b + k.size) s
        ≡ some s')
      × IsHeap c (record s' { mem = write s'.mem b (bit_or n 1) }) lists' h'
      × IsResized h h' s.mem (write s'.mem b (bit_or n 1)) b k n (b + k.size)

  free_rest-IsResized : n < k.size → Shrunk
  free_rest-IsResized less = elim (decide_vacant ((w0.is).end).kind) [
    | no ne ↦
        let test = is_free-used end_at s.mem end_word ne in
        let m = with_rest s.mem b (b + n) (b + k.size - (b + n)) (b + k.size) in
        let sz : k.size - n ≡ b + k.size - (b + n) = omega arith in
        let behind : ¬ IsVacant h (b + k.size) =
          λ q. ne (ap (λ (t : Block). t.kind) (some_inj (sym (w0.is).at_end ∙ q.1)) ∙ q.2) in
        let other = with_rest-other s.mem b (b + n) (b + k.size - (b + n)) (b + k.size) in
        let (s2, lists2, run, free2, same2, holds2) =
          link_rest heap w0 n (omega arith) (omega arith) whole m other v
            (with_rest-size s.mem b (b + n) (b + k.size - (b + n)) (b + k.size)) in
        let (heap2, is) =
          part-IsResized heap here used w0 refl behind (λ a i. refl) n large (omega arith) whole
            (b + k.size) (omega arith) free2 (omega arith) holds2 same2
            (λ a off.
              link_rest-kept heap w0 n (omega arith) (omega arith) whole m other s2 run a
                (λ z q. off z q.0)) in
        (
          s2,
          lists2,
          _,
          free_rest-used c b n (k.size - n) (b + k.size) s (b + k.size - (b + n)) s2 test sz run,
          heap2,
          is,
        )
    | yes vac ↦
        let test = is_free-vacant end_at s.mem end_word vac in
        let (s1, lists1, unlink, w1) = take_next heap w0 vac in
        let e = b + k.size + (w0.is).end.size in
        let m = with_rest s1.mem b (b + n) (e - (b + n)) e in
        let other = with_rest-other s1.mem b (b + n) (e - (b + n)) e in
        let f : flags (w0.is).end.kind ≡ 0 = ap flags vac in
        let sum : k.size - n + s.mem (b + k.size) ≡ e - (b + n) = omega (arith, end_word) in
        let nn : next_phys_block s1.mem (b + k.size) ≡ e = next_phys_block-eq end_at s1.mem (
          unlink-SameHeaders w0.free w0.holds (b + k.size) s1
            (((w0.is).end, (w0.is).at_end, vac), inr (omega arith)) unlink (b + k.size)
            (omega (arith, end_at.aligned))
          ∙ end_word) in
        let (s2, lists2, run, free2, same2, holds2) =
          link_rest heap w1 n (omega arith) (omega arith) whole m other v
            (with_rest-size s1.mem b (b + n) (e - (b + n)) e) in
        let own : (a : ℕ) → IsInside h b a → s1.mem a ≡ s.mem a = λ a i.
          unlink-kept w0.free w0.holds (λ y q. inside-OffLinks heap.tiled i y q.0) (b + k.size)
            (s.mem (b + k.size)) s1 (((w0.is).end, (w0.is).at_end, vac), inr (omega arith))
            unlink in
        let (heap2, is) =
          part-IsResized heap here used w1 refl
            (heap.merged (b + k.size) (w0.is).end (w0.is).at_end vac) own n large (omega arith)
            whole (b + k.size) (omega arith) free2 (omega arith) holds2 same2
            (λ a off.
              link_rest-kept heap w1 n (omega arith) (omega arith) whole m other s2 run a
                (λ z q. off z q.0)) in
        (
          s2,
          lists2,
          _,
          free_rest-free c b n (k.size - n) (b + k.size) s (e - (b + n)) e s1 s2 test unlink sum nn
              run,
          heap2,
          is,
        )
  ]

  next_word : next_phys_block s.mem b ≡ b + k.size
  next_word = next_phys_block-eq ((heap.tiled).block b k here) s.mem (heap.agrees b k here).0

  shrink_same : (ptr : ℕ) → n ≡ k.size → shrink c ptr b n k.size s ≡ some (some ptr, s)
  unfolding shrink
  shrink_same ptr e = rw (≡→== n k.size e) refl

  shrink_less :
      (ptr : ℕ) (s1 : State)
      → n < k.size
      → free_rest c b n (k.size - n) (b + k.size) s ≡ some s1
      → shrink c ptr b n k.size s ≡ some (some ptr, record s1 { mem = write s1.mem b (bit_or n 1) })
  unfolding shrink
  shrink_less ptr s1 less run =
      let ne : (n == k.size) ≡ false = ≢→== n k.size (omega arith) in
      rw (ne, next_word) (ap (λ (o : Option State). o >>= finish) run)
    where
      finish : State → Option (Option ℕ × State)
      finish s1 = some (some ptr, record s1 { mem = write s1.mem b (bit_or n 1) })

  -- Nothing changes where the size is the same.
  unchanged : n ≡ k.size → IsResized h h s.mem s.mem b k n (b + k.size)
  unchanged e = record {
    after = k;
    at_after = here;
    now_used = used;
    after_size = sym e;
    others = λ z kz at live ne k' at'. (k', at', refl, refl);
    contents = λ z a ne i. refl;
    own = λ a from to to'. refl;
    left = λ x from to. absurd (omega arith);
    bytes = λ x i. i;
  }

  -- For valid constants, a heap and a used block, `shrink` to a multiple of 32 bytes, at least 16
  -- and at most the size of the block, returns the same pointer. The block then has that size and
  -- keeps its words within it; each byte of the block behind that size is in a vacant block.
  -- The other blocks in use stay, with their contents, and the result is a heap.
  pub shrink-IsResized :
      (ptr : ℕ)
      → n ≤ k.size
      → (s' : State) × (lists' : Lists) × (h' : View) × (shrink c ptr b n k.size s
          ≡ some (some ptr, s'))
        × IsHeap c s' lists' h'
        × IsResized h h' s.mem s'.mem b k n (b + k.size)
  shrink-IsResized ptr le = elim (ℕ_discrete n k.size) [
    | yes e ↦ (s, lists, h, shrink_same ptr e, heap, unchanged e)
    | no ne ↦
        let less : n < k.size = omega arith in
        let (s1, lists', h', run, heap', is) = free_rest-IsResized less in
        (
          record s1 { mem = write s1.mem b (bit_or n 1) },
          lists',
          h',
          shrink_less ptr s1 less run,
          heap',
          is,
        )
  ]
