-- ===== src/Tlsf/Reallocate/Grow.antt =====
-- `grow`: a used block takes in the vacant block behind it, or a part of that.
use native.Mathlib.Decide.{dec_lt, ℕ_discrete}
use rlsf.Base.{
  ltb, lt→ltb, ge→ltb, true, false, bit_or, ℕ, ◌+◌, ◌-◌, ◌%◌, ◌≤◌, ◌<◌, ◌≡◌, ◌≢◌, ◌⊎◌, inl, inr,
  refl, sym, ap, ◌∙◌, some, arith, some_inj, subst,
}
use rlsf.Tlsf.Config.{Config, IsValid}
use rlsf.Tlsf.State.{State, Memory, write, write_hdr}
use rlsf.Tlsf.Links.{link_free_block}
use rlsf.Tlsf.Links.Heap.{SameLinks}
use rlsf.Tlsf.Links.Rep.{Lists, IsFree, SameHeaders}
use rlsf.Tlsf.Heap.{vacant, occupied, Block, View, IsBlockAt, IsVacant, IsHeap}
use rlsf.Tlsf.Heap.Members.{spared-IsFree}
use rlsf.Tlsf.Allocate.Place.{with_rest, with_rest-next}
use rlsf.Tlsf.Deallocate.{Hole}
use rlsf.Tlsf.Deallocate.Region.{Outside, IsHole}
use rlsf.Tlsf.Heap.Contents.{IsInside, inside-OffLinks}
use rlsf.Tlsf.State.{next_phys_block}
use rlsf.Tlsf.Links.{unlink_free_block}
use rlsf.Tlsf.Heap.{flags}
use rlsf.Tlsf.Heap.Contents.{unlink-kept}
use rlsf.Tlsf.Heap.Words.{next_phys_block-eq}
use rlsf.Tlsf.Deallocate.Region.{block-IsHole}
use rlsf.Tlsf.Deallocate.Merge.{take_next}
use rlsf.Tlsf.Reallocate.InPlace.{grow}
use rlsf.Tlsf.Reallocate.Rest.{link_rest, link_rest-kept}
use rlsf.Tlsf.Reallocate.Resized.{IsResized, part-IsResized, whole-IsResized}

module _ (c : Config) (ptr block n grow_by next : ℕ) (s : State) where
  grow_part :
      (total behind : ℕ) (s1 s2 : State)
      → unlink_free_block c next (s.mem next) s ≡ some s1
      → ltb grow_by (s.mem next) ≡ true
      → s.mem next - grow_by ≡ total
      → next_phys_block s.mem next ≡ behind
      → link_free_block c
          (block + n)
          total
          (record s1 { mem = write_hdr s1.mem (block + n) total block })
        ≡ some s2
      → grow c ptr block n grow_by next s
        ≡ some (
          some ptr,
          record s2 { mem = write (write s2.mem (behind + 8) (block + n)) block (bit_or n 1) },
        )
  unfolding grow
  grow_part total behind s1 s2 unlink less sum nn link = rw (unlink, less, sum, nn, link) refl

  grow_whole :
      (behind : ℕ) (s1 : State)
      → unlink_free_block c next (s.mem next) s ≡ some s1
      → ltb grow_by (s.mem next) ≡ false
      → next_phys_block s.mem next ≡ behind
      → grow c ptr block n grow_by next s
        ≡ some (
          some ptr,
          record s1 { mem = write (write s1.mem (behind + 8) block) block (bit_or n 1) },
        )
  unfolding grow
  grow_whole behind s1 unlink less nn = rw (unlink, less, nn) refl

-- The header of the rest, without and with the link back behind it.
module _ (m : Memory) (rest size e block : ℕ) where
  head_size : write_hdr m rest size block rest ≡ size
  unfolding write_hdr write
  head_size = ground arith

  head_other : (a : ℕ) → a ≢ rest → a ≢ rest + 8 → write_hdr m rest size block a ≡ m a
  unfolding write_hdr write
  head_other a p q = ground arith

  head_same : (a : ℕ) → a ≢ e + 8 → write_hdr m rest size block a ≡ with_rest m block rest size e a
  unfolding write_hdr write
  head_same a ne = ground arith

  link_other : (x a : ℕ) → a ≢ e + 8 → write m (e + 8) x a ≡ m a
  unfolding write
  link_other x a ne = ground arith

  link_here : (x : ℕ) → write m (e + 8) x (e + 8) ≡ x
  unfolding write
  link_here x = ground arith

-- The region of the two blocks, out of the lists.
module _ {c : Config} {s : State} {lists : Lists} {h : View} (heap : IsHeap c s lists h) {b : ℕ}
    {k : Block} (here : h b ≡ some k) (used : k.kind ≡ occupied) {hole : Hole} {s1 : State}
    {lists1 : Lists} {e prev pool : ℕ}
    (w : IsHole c s.mem h b k hole s1 lists1 (record { b = b; e = e; p = prev; pool = pool }))
    (behind : ¬ IsVacant h e) (own : (a : ℕ) → IsInside h b a → s1.mem a ≡ s.mem a) (n : ℕ)
    (large : 16 ≤ n) (whole : n % 32 ≡ 0) where
  end_aligned : e % 32 ≡ 0
  end_aligned =
      let t : IsBlockAt c e (w.is).end = (heap.tiled).block e (w.is).end (w.is).at_end in t.aligned

  start_aligned : b % 32 ≡ 0
  start_aligned = let t : IsBlockAt c b k = (heap.tiled).block b k here in t.aligned

  -- A free block is not the one behind the region.
  spared_end :
      (m : Memory) (x z : ℕ)
      → z % 32 ≡ 0
      → (write m (e + 8) x z ≡ m z) × SameLinks m (write m (e + 8) x) z
  spared_end m x z al = (
    link_other m b n e b x z (omega (arith, end_aligned)),
    (
      link_other m b n e b x (z + 16) (omega (arith, end_aligned)),
      link_other m b n e b x (z + 24) (omega (arith, end_aligned)),
    ),
  )

  vacant_aligned : (z : ℕ) → IsVacant h z → z % 32 ≡ 0
  vacant_aligned z (kz, at, vz) = let t : IsBlockAt c z kz = (heap.tiled).block z kz at in t.aligned

  abbrev Tiled : State → Type 0
  Tiled s' =
      (lists' : Lists) × (h' : View) × IsHeap c s' lists' h' × IsResized h h' s.mem s'.mem b k n e

  whole-Tiled :
      b + n ≡ e → Tiled (record s1 { mem = write (write s1.mem (e + 8) b) b (bit_or n 1) })
  whole-Tiled same =
      let m = write s1.mem (e + 8) b in
      let free2 : IsFree c (record s1 { mem = m }) lists1 =
        spared-IsFree w.free w.holds m (λ z q. spared_end s1.mem b z (vacant_aligned z q.0)) in
      let (heap2, is) =
        whole-IsResized heap here used w refl behind own n large (omega arith) whole e (omega arith)
          free2 same w.holds (λ a ne. link_other s1.mem b n e b b a ne)
          (link_here s1.mem b n e b b) in
      (lists1, _, heap2, is)

  part-Tiled :
      IsValid c
      → b + n < e
      → (s2 : State) × (link_free_block c
            (b + n)
            (e - (b + n))
            (record s1 { mem = write_hdr s1.mem (b + n) (e - (b + n)) b })
          ≡ some s2)
        × Tiled (record s2 { mem = write (write s2.mem (e + 8) (b + n)) b (bit_or n 1) })
  part-Tiled valid less =
      let size = e - (b + n) in
      let m = write_hdr s1.mem (b + n) size b in
      let other : (a : ℕ) → a ≢ e + 8 → a ≢ b + n → a ≢ b + n + 8 → m a ≡ s1.mem a =
        λ a ne. head_other s1.mem (b + n) size e b a in
      let (s2, lists2, run, free2, same2, holds2) =
        link_rest heap w n (omega arith) less whole m other valid
          (head_size s1.mem (b + n) size e b) in
      let m2 = write s2.mem (e + 8) (b + n) in
      let free3 : IsFree c (record s2 { mem = m2 }) lists2 =
        spared-IsFree free2 holds2 m2 (λ z q. spared_end s2.mem (b + n) z (listed_aligned z q)) in
      let kept = link_rest-kept heap w n (omega arith) less whole m other s2 run in
      let (heap2, is) =
        part-IsResized heap here used w refl behind own n large (omega arith) whole e (omega arith)
          free3 less holds2 (joined size s2 same2)
          (λ a off near ne.
            link_other s2.mem b n e b (b + n) a ne ∙ kept a (λ z q. off z q.0) near ne) in
      (s2, run, (lists2, _, heap2, is))
    where
      listed_aligned :
          (z : ℕ)
          → (IsVacant h z × Outside (record { b = b; e = e; p = prev; pool = pool }) z)
            ⊎ (z ≡ b + n)
          → z % 32 ≡ 0
      listed_aligned z (inl q) = vacant_aligned z q.0
      listed_aligned z (inr q) = omega (arith, start_aligned)

      joined :
          (size : ℕ) (s2 : State)
          → SameHeaders (write_hdr s1.mem (b + n) size b) s2.mem
          → SameHeaders (with_rest s1.mem b (b + n) size e) (write s2.mem (e + 8) (b + n))
      joined size s2 same a low = elim (ℕ_discrete a (e + 8)) [
        | yes at ↦
            ap (write s2.mem (e + 8) (b + n)) at
            ∙ (link_here s2.mem b n e b (b + n)
                ∙ (sym (
                      with_rest-next s1.mem b (b + n) size e less end_aligned
                        (omega (arith, start_aligned)))
                    ∙ ap (with_rest s1.mem b (b + n) size e) (sym at)))
        | no ne ↦
            link_other s2.mem b n e b (b + n) a ne
            ∙ (same a low ∙ head_same s1.mem (b + n) size e b a ne)
      ]

module _ {c : Config} (v : IsValid c) {s : State} {lists : Lists} {h : View}
    (heap : IsHeap c s lists h) {b : ℕ} {k : Block} (here : h b ≡ some k) (used : k.kind ≡ occupied)
    (n : ℕ) (large : 16 ≤ n) (whole : n % 32 ≡ 0) (more : k.size < n) {k' : Block}
    (next_at : h (b + k.size) ≡ some k') (vac : k'.kind ≡ vacant) where
  -- A block of `rest` bytes is behind the used one.
  abbrev pub GrownTo : (rest : ℕ) → ℕ → Type 0
  GrownTo rest ptr =
      (s' : State) × (lists' : Lists) × (h' : View) × (grow c ptr b n (n - k.size) (b + k.size) s
        ≡ some (some ptr, s'))
      × IsHeap c s' lists' h'
      × IsResized h h' s.mem s'.mem b k n (b + k.size + rest)

  abbrev pub Grown : ℕ → Type 0
  Grown ptr = GrownTo k'.size ptr

  -- For valid constants, a heap, and a used block with a vacant one behind it, `grow` to a multiple
  -- of 32 bytes, more than the block has and at most what both have together, returns the same
  -- pointer. The block then has that size and keeps its words; each byte behind it, up to the end
  -- of the vacant block, is in a vacant block. The other blocks in use stay, with their contents,
  -- and the result is a heap.
  pub grow-IsResized : (ptr : ℕ) → n ≤ k.size + k'.size → Grown ptr
  grow-IsResized ptr fits =
      let w0 = block-IsHole heap here used in
      let e = b + k.size + (w0.is).end.size in
      let same_end : k' ≡ (w0.is).end = some_inj (sym next_at ∙ (w0.is).at_end) in
      let vac' : (w0.is).end.kind ≡ vacant = ap (λ (t : Block). t.kind) (sym same_end) ∙ vac in
      let fits' : n ≤ k.size + (w0.is).end.size =
        omega (arith, ap (λ (t : Block). t.size) same_end) in
      let end_at : IsBlockAt c (b + k.size) (w0.is).end =
        (heap.tiled).block (b + k.size) (w0.is).end (w0.is).at_end in
      let end_word = (heap.agrees (b + k.size) (w0.is).end (w0.is).at_end).0 in
      let f : flags (w0.is).end.kind ≡ 0 = ap flags vac' in
      let size : s.mem (b + k.size) ≡ (w0.is).end.size = omega (arith, end_word) in
      let nn : next_phys_block s.mem (b + k.size) ≡ e = next_phys_block-eq end_at s.mem end_word in
      let (s1, lists1, unlink, w1) = take_next heap w0 vac' in
      let own : (a : ℕ) → IsInside h b a → s1.mem a ≡ s.mem a = λ a i.
        unlink-kept w0.free w0.holds (λ y q. inside-OffLinks heap.tiled i y q.0) (b + k.size)
          (s.mem (b + k.size)) s1 (((w0.is).end, (w0.is).at_end, vac'), inr (omega arith)) unlink in
      let behind = heap.merged (b + k.size) (w0.is).end (w0.is).at_end vac' in
      subst (λ (t : Block). GrownTo t.size ptr) (sym same_end)
        (elim (dec_lt n (k.size + (w0.is).end.size)) [
          | yes less ↦
              let (s2, link, (lists2, h', heap2, is)) =
                part-Tiled heap here used w1 behind own n large whole v (omega arith) in
              let room : ltb (n - k.size) (s.mem (b + k.size)) ≡ true =
                lt→ltb _ _ (omega (arith, size)) in
              let sum : s.mem (b + k.size) - (n - k.size) ≡ e - (b + n) = omega (arith, size) in
              (
                record s2 { mem = write (write s2.mem (e + 8) (b + n)) b (bit_or n 1) },
                lists2,
                h',
                grow_part c ptr b n (n - k.size) (b + k.size) s (e - (b + n)) e s1 s2 unlink room
                    sum nn link,
                heap2,
                is,
              )
          | no exact ↦
              let (lists2, h', heap2, is) =
                whole-Tiled heap here used w1 behind own n large whole (omega arith) in
              let room : ltb (n - k.size) (s.mem (b + k.size)) ≡ false =
                ge→ltb _ _ (omega (arith, size)) in
              (
                record s1 { mem = write (write s1.mem (e + 8) b) b (bit_or n 1) },
                lists2,
                h',
                grow_whole c ptr b n (n - k.size) (b + k.size) s e s1 unlink room nn,
                heap2,
                is,
              )
        ])
