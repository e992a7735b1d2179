-- ===== src/Tlsf/Allocate/Take.antt =====
-- The run of `allocate` on the list that it has found.
use rlsf.Base.{
  ℕ, ◌+◌, ◌-◌, ◌%◌, ◌^◌, ◌≤◌, ◌<◌, ◌≡◌, ◌≢◌, refl, sym, ap, ◌∙◌, subst, Option, some, ◌>>=◌, List,
  [], ◌∷◌, All, All-map, arith, ◌==◌, ≡→==, ≢→==, true, false,
}
use native.Mathlib.Decide.{ℕ_discrete}
use rlsf.Tlsf.Config.{Config, IsValid}
use rlsf.Tlsf.Class.Floor.{IsSize}
use rlsf.Tlsf.State.{State, Memory, next_phys_block}
use rlsf.Tlsf.Links.Rep.{Lists, IsFree, SameHeaders, set_list}
use rlsf.Tlsf.Request.{Layout, payload, search_size}
use rlsf.Tlsf.Heap.{vacant, occupied, Block, View, IsBlockAt, IsVacant, Holds, IsHeap, flags}
use rlsf.Tlsf.Heap.Replace.{HasByte, replace-first, first_tile}
use rlsf.Tlsf.Heap.Region.{region_of}
use rlsf.Tlsf.Heap.Members.{drop-Holds}
use rlsf.Tlsf.Heap.Vacant.{outside_kept}
use rlsf.Tlsf.Heap.Words.{next_phys_block-eq}
use rlsf.Tlsf.Allocate.{pop_first, split_rest, place_used, used_size, allocate_in}
use rlsf.Tlsf.Allocate.Payload.{IsPayload, payload-IsPayload, used_size-fits, search_size-eq}
use rlsf.Tlsf.Used.{used_block_hdr_for_allocation}
use rlsf.Tlsf.Allocate.Lookup.{hdr_for_allocation}
use rlsf.Tlsf.Allocate.Pop.{pop_first-IsFree}
use rlsf.Tlsf.Heap.Bytes.{replace-HasByte}
use rlsf.Tlsf.Heap.Contents.{SameContents}
use rlsf.Tlsf.Allocate.Contents.{placed-SameContents, popped-SameContents, split-SameContents}
use rlsf.Tlsf.Allocate.Fresh.{taken, region, other_outside, take_whole, take_part}

-- The block at `b` of a view, in the other view with the same size and kind.
abbrev pub Stays : View → View → ℕ → Type 0
Stays h h' b =
    (k : Block)
    → h b ≡ some k
    → (k' : Block) × (h' b ≡ some k') × (k'.size ≡ k.size) × (k'.kind ≡ k.kind)

-- The block that an allocation takes: vacant before, and of `n` bytes and used after. The payload
-- at `p` is in it and leads to its header in memory, and all other blocks stay. The blocks
-- have no new bytes.
pub record IsTaken (l : Layout) (h h' : View) (m' : Memory) (p : ℕ) : Type 0 where
  pub b : ℕ
  pub n : ℕ
  pub before : Block
  pub after : Block
  pub at_before : h b ≡ some before
  pub at_after : h' b ≡ some after
  pub was_vacant : before.kind ≡ vacant
  pub now_used : after.kind ≡ occupied
  pub after_size : after.size ≡ n
  pub smaller : n ≤ before.size
  pub payload : IsPayload l.align b p
  pub room : p + l.size ≤ b + n
  pub header : used_block_hdr_for_allocation m' p l.align ≡ b
  pub others : (z : ℕ) → z ≢ b → Stays h h' z
  pub bytes : (x : ℕ) → HasByte h' x → HasByte h x

module _ {c : Config} {s : State} {lists : Lists} {h : View} (heap : IsHeap c s lists h) where
  -- The word of a vacant block is its size.
  pub vacant_word : (z : ℕ) (k : Block) → h z ≡ some k → k.kind ≡ vacant → s.mem z ≡ k.size
  vacant_word z k e v =
      let f : flags k.kind ≡ 0 = ap flags v in omega (arith, (heap.agrees z k e).0)

  pub vacant_IsSize : (z : ℕ) → IsVacant h z → IsSize (s.mem z)
  vacant_IsSize z (k, e, v) =
      let t : IsBlockAt c z k = (heap.tiled).block z k e in
      let word = vacant_word z k e v in
      record { at_least = omega (arith, t.at_least); in_word = omega (arith, t.in_word) }

  pub listed_sizes : (x y : ℕ) → All (λ z. IsSize (s.mem z)) (lists x y)
  listed_sizes x y =
      All-map (IsVacant h) (λ z. IsSize (s.mem z)) vacant_IsSize (lists x y) (heap.holds.only x y)

  module _ (v : IsValid c) (l : Layout) (a : ℕ) (a_lt : a < 64) (power : l.align ≡ 2 ^ a) where
    -- The block at the head of the list that was found.
    module _ (x y : ℕ) (ys : List ℕ) (here : lists x y ≡ s.first_free x y ∷ ys) (k : Block)
        (at : h (s.first_free x y) ≡ some k) (vac : k.kind ≡ vacant) (need : ℕ)
        (e : search_size l ≡ some need) (large : need ≤ k.size) where
      abbrev b : ℕ
      b = s.first_free x y

      abbrev p : ℕ
      p = payload l.align b

      abbrev n : ℕ
      n = used_size l (p - b)

      block_at : IsBlockAt c b k
      block_at = (heap.tiled).block b k at

      payload_is : IsPayload l.align b p
      payload_is =
          let (bound, eq) = search_size-eq l need e in
          subst (λ (t : ℕ). IsPayload t b (payload t b)) (sym power)
            (payload-IsPayload a b (omega arith) block_at.aligned
              (omega (arith, block_at.in_word, block_at.whole, block_at.aligned)))

      part : (p + l.size ≤ b + n) × (n % 32 ≡ 0) × (n ≤ need)
      part = used_size-fits l need b p e payload_is

      n_pos : 0 < n
      n_pos = omega (arith, part.0, payload_is.behind)

      n_fits : n ≤ k.size
      n_fits = omega (arith, part.2)

      p_in : p ≤ b + n
      p_in = omega (arith, part.0)

      abbrev s1 : State
      s1 = pop_first c x y b s

      takes :
          (m : Memory)
          → IsTaken l h
              (taken heap at vac n n_pos n_fits part.1 payload_is p_in)
              (place_used m l.align p b n)
              p
      takes m = record {
        b = b;
        n = n;
        before = k;
        after = first_tile (region_of b k) n occupied;
        at_before = at;
        at_after =
            replace-first (region heap at vac n n_pos n_fits part.1 payload_is p_in) n n_pos
              (omega (arith, n_fits)) occupied vacant;
        was_vacant = vac;
        now_used = refl;
        after_size = refl;
        smaller = n_fits;
        payload = payload_is;
        room = part.0;
        header = hdr_for_allocation m l.align b p n payload_is part.1 block_at.ne_null;
        bytes =
            replace-HasByte heap.tiled (region heap at vac n n_pos n_fits part.1 payload_is p_in) n
              n_pos (omega (arith, n_fits)) occupied vacant;
        others = λ z ne kz ez.
            outside_kept (region heap at vac n n_pos n_fits part.1 payload_is p_in) n n_pos
              (omega (arith, n_fits)) occupied vacant z kz ez
              (other_outside heap at vac n n_pos n_fits part.1 payload_is p_in z kz ez ne);
      }

      abbrev pub Runs : Type 0
      Runs =
          (q : ℕ) × (s' : State) × (lists' : Lists) × (h' : View) × (allocate_in c l x y s
            ≡ some (some q, s'))
          × IsHeap c s' lists' h'
          × IsTaken l h h' s'.mem q
          × SameContents h s.mem s'.mem

      abbrev popped : Lists
      popped = set_list lists x y ys

      popped-IsFree : IsFree c s1 popped
      popped-IsFree = (pop_first-IsFree x y b ys heap.free here).1

      popped-SameHeaders : SameHeaders s.mem s1.mem
      popped-SameHeaders = (pop_first-IsFree x y b ys heap.free here).2

      popped-Holds : Holds popped (λ z. IsVacant h z × (z ≢ b))
      popped-Holds = drop-Holds heap.free heap.holds b x y [] ys here

      occupied_head : (b == 0) ≡ false
      occupied_head = ≢→== b 0 block_at.ne_null

      whole_run :
          n ≡ k.size
          → allocate_in c l x y s
            ≡ some (some p, record s1 { mem = place_used s1.mem l.align p b n })
      unfolding allocate_in
      whole_run same =
          let same' : (n == s.mem b) ≡ true =
            ≡→== n (s.mem b) (same ∙ sym (vacant_word b k at vac)) in
          rw (occupied_head, same') refl

      part_run :
          (s2 : State)
          → n ≢ k.size
          → split_rest c b k.size n (b + k.size) s1 ≡ some s2
          → allocate_in c l x y s
            ≡ some (some p, record s2 { mem = place_used s2.mem l.align p b n })
      unfolding allocate_in
      part_run s2 ne run =
          let word = vacant_word b k at vac in
          let other : (n == k.size) ≡ false = ≢→== n k.size ne in
          let behind : next_phys_block s.mem b ≡ b + k.size =
            next_phys_block-eq block_at s.mem (heap.agrees b k at).0 in
          rw (occupied_head, word, other, behind) (ap (λ (t : Option State). t >>= finish) run)
        where
          finish : State → Option (Option ℕ × State)
          finish s2 = some (some p, record s2 { mem = place_used s2.mem l.align p b n })

      contents :
          (m : Memory) → SameContents h s.mem m → SameContents h s.mem (place_used m l.align p b n)
      contents m same z a i =
          placed-SameContents heap at vac n n_pos n_fits part.1 payload_is p_in m z a i ∙ same z a i

      popped-Same : SameContents h s.mem s1.mem
      popped-Same = popped-SameContents heap at vac x y ys here

      pub allocate_in-runs : Runs
      allocate_in-runs = elim (ℕ_discrete n k.size) [
        | yes same ↦ (
          p,
          record s1 { mem = place_used s1.mem l.align p b n },
          popped,
          _,
          whole_run same,
          take_whole heap at vac n n_pos n_fits part.1 payload_is p_in popped-IsFree popped-Holds
              popped-SameHeaders same,
          takes s1.mem,
          contents s1.mem popped-Same,
        )
        | no ne ↦
            let (s2, lists2, run, heap2) =
              take_part heap at vac n n_pos n_fits part.1 payload_is p_in popped-IsFree popped-Holds
                popped-SameHeaders (omega (arith, n_fits)) v in
            (
              p,
              record s2 { mem = place_used s2.mem l.align p b n },
              lists2,
              _,
              part_run s2 ne run,
              heap2,
              takes s2.mem,
              contents s2.mem (λ z w i.
                  split-SameContents heap at vac n n_pos n_fits part.1 payload_is p_in popped-IsFree
                    popped-Holds popped-SameHeaders s2 (omega (arith, n_fits)) run z w i
                  ∙ popped-Same z w i),
            )
      ]
