-- ===== src/Tlsf/Pool/Chunk.antt =====
-- One round of the loop of `insert_free_block_ptr_aligned` adds a chunk to a heap.
use rlsf.Base.{
  ℕ, ◌+◌, ◌-◌, ◌%◌, ◌≤◌, ◌<◌, ◌≡◌, ◌≢◌, ◌⊎◌, inl, inr, refl, sym, ap, ◌∙◌, subst, some, arith,
}
use rlsf.Tlsf.Config.{Config, IsValid}
use rlsf.Tlsf.State.{State, Memory, write, write_hdr, next_phys_block}
use rlsf.Tlsf.Links.Heap.{SameLinks}
use rlsf.Tlsf.Links.Rep.{Lists, SameHeaders}
use rlsf.Tlsf.Heap.{vacant, flags, Block, View, IsBlockAt, IsVacant, IsMerged, Agrees, IsHeap}
use rlsf.Tlsf.Heap.Contents.{IsInside, SameContents, inside-OffLinks, link-kept}
use rlsf.Tlsf.Links.{link_free_block}
use rlsf.Tlsf.Heap.Members.{Holds-same, spared-IsFree, link-Holds}
use rlsf.Tlsf.Heap.Words.{next_phys_block-eq}
use rlsf.Tlsf.Heap.Placed.{vacant-ne-sentinel}
use rlsf.Tlsf.Pool.{insert_chunk, sentinel_size}
use rlsf.Tlsf.Pool.Added.{
  free_of, add_chunk, Spares, Added, free, cap, kept, IsChunk, added-free, added-kept, Added-cases,
  added-IsTiled, free-IsBlockAt,
}

-- The two headers of a chunk of `n` bytes at `a`.
module _ (m : Memory) (a n : ℕ) (large : 64 ≤ n) (al : a % 32 ≡ 0) (whole : n % 32 ≡ 0) where
  abbrev headed : Memory
  headed = write_hdr (write_hdr m a (n - 32) 0) (a + n - 32) 35 a

  headed-free : (headed a ≡ n - 32 + 0) × (headed (a + 8) ≡ 0)
  unfolding write_hdr write
  headed-free = (ground arith, ground arith)

  headed-cap : (headed (a + n - 32) ≡ 35) × (headed (a + n - 32 + 8) ≡ a)
  unfolding write_hdr write
  headed-cap = (ground arith, ground arith)

  headed-other : (x : ℕ) → x ≢ a → x ≢ a + 8 → x ≢ a + n - 32 → x ≢ a + n - 32 + 8 → headed x ≡ m x
  unfolding write_hdr write
  headed-other x p q p' q' = ground arith

  headed-away : (x : ℕ) → (x < a) ⊎ (a + n ≤ x) → headed x ≡ m x
  headed-away x (inl o) = headed-other x (omega arith) (omega arith) (omega arith) (omega arith)
  headed-away x (inr o) = headed-other x (omega arith) (omega arith) (omega arith) (omega arith)

  first_word : write_hdr m a (n - 32) 0 a ≡ n - 32
  unfolding write_hdr write
  first_word = ground arith

module _ {c : Config} {s : State} {lists : Lists} {h : View} (heap : IsHeap c s lists h) {a n : ℕ}
    (is : IsChunk c a n) (spares : Spares h a n) where
  abbrev pub with_chunk : View
  with_chunk = add_chunk h a n

  abbrev head_memory : Memory
  head_memory = headed s.mem a n is.at_least is.aligned is.whole

  cases : (x : ℕ) (k : Block) → with_chunk x ≡ some k → Added h a n x k
  cases = Added-cases heap.tiled is spares

  away : (x : ℕ) → (x < a) ⊎ (a + n ≤ x) → head_memory x ≡ s.mem x
  away = headed-away s.mem a n is.at_least is.aligned is.whole

  -- The words of an old block are elsewhere.
  old_away :
      (x : ℕ) (k : Block) (d : ℕ) → h x ≡ some k → d < 32 → head_memory (x + d) ≡ s.mem (x + d)
  old_away x k d e lt =
      let t : IsBlockAt c x k = (heap.tiled).block x k e in
      elim (spares x k e) [
        | inl o ↦ away (x + d) (inl (omega (arith, t.at_least)))
        | inr o ↦ away (x + d) (inr (omega arith))
      ]

  old_here : (x : ℕ) (k : Block) → h x ≡ some k → head_memory x ≡ s.mem x
  old_here x k e =
      let t : IsBlockAt c x k = (heap.tiled).block x k e in
      elim (spares x k e) [
        | inl o ↦ away x (inl (omega (arith, t.at_least)))
        | inr o ↦ away x (inr (omega arith))
      ]

  header :
      (x : ℕ) (k : Block)
      → Added h a n x k
      → (head_memory x ≡ k.size + flags k.kind) × (head_memory (x + 8) ≡ k.prev)
  header x k (free p q) =
      subst
        (λ (z : Block). (head_memory x ≡ z.size + flags z.kind) × (head_memory (x + 8) ≡ z.prev)) q
        (subst (λ z. (head_memory z ≡ n - 32 + 0) × (head_memory (z + 8) ≡ 0)) (sym p)
          (headed-free s.mem a n is.at_least is.aligned is.whole))
  header x k (cap p q) =
      subst
        (λ (z : Block). (head_memory x ≡ z.size + flags z.kind) × (head_memory (x + 8) ≡ z.prev)) q
        (subst (λ z. (head_memory z ≡ 35) × (head_memory (z + 8) ≡ a)) (sym p)
          (headed-cap s.mem a n is.at_least is.aligned is.whole))
  header x k (kept e o) =
      let (size, prev) = heap.agrees x k e in
      (old_here x k e ∙ size, old_away x k 8 e (omega arith) ∙ prev)

  with_chunk-Agrees : (m : Memory) → SameHeaders head_memory m → Agrees m with_chunk
  with_chunk-Agrees m same x k e =
      let t : IsBlockAt c x k = (added-IsTiled heap.tiled is spares).block x k e in
      let (size, prev) = header x k (cases x k e) in
      (same x (omega (arith, t.aligned)) ∙ size, same (x + 8) (omega (arith, t.aligned)) ∙ prev)

  kind_of : {k k' : Block} → k ≡ k' → k.kind ≡ k'.kind
  kind_of e = ap (λ (z : Block). z.kind) e

  size_of : {k k' : Block} → k ≡ k' → k.size ≡ k'.size
  size_of e = ap (λ (z : Block). z.size) e

  meets :
      (x : ℕ) (k : Block) (y : ℕ) (k' : Block)
      → Added h a n x k
      → Added h a n y k'
      → x + k.size ≡ y
      → k.kind ≡ vacant
      → k'.kind ≢ vacant
  meets x k y k' (free p q) (free p' q') e v v' = omega (arith, size_of q, is.at_least)
  meets x k y k' (free p q) (kept e' (inl o')) e v v' = omega (arith, size_of q, is.at_least)
  meets x k y k' (free p q) (kept e' (inr o')) e v v' = omega (arith, size_of q, is.at_least)
  meets x k y k' (cap p q) o e v v' = vacant-ne-sentinel (sym v ∙ sym (kind_of q))
  meets x k y k' o (cap p' q') e v v' = vacant-ne-sentinel (sym v' ∙ sym (kind_of q'))
  meets x k y k' (kept e₀ o) (free p' q') e v v' =
      let (k'', at, back, pool) = (heap.tiled).next x k e₀ (λ w. vacant-ne-sentinel (sym v ∙ w)) in
      let t : IsBlockAt c (x + k.size) k'' = (heap.tiled).block (x + k.size) k'' at in
      elim (spares (x + k.size) k'' at) [
        | inl low ↦ omega (arith, t.at_least)
        | inr high ↦ omega (arith, is.at_least)
      ]
  meets x k y k' (kept e₀ o) (kept e' o') e v v' = heap.merged x k e₀ v (k', ap h e ∙ e', v')

  with_chunk-IsMerged : IsMerged with_chunk
  with_chunk-IsMerged x k e v (k', e', v') =
      meets x k (x + k.size) k' (cases x k e) (cases (x + k.size) k' e') refl v v'

  to : (z : ℕ) → IsVacant h z ⊎ (z ≡ a) → IsVacant with_chunk z
  to z (inl (k, e, v)) = (k, added-kept heap.tiled is spares z k e, v)
  to z (inr p) = (free_of a n, ap with_chunk p ∙ added-free heap.tiled is spares, refl)

  from_added : (z : ℕ) (k : Block) → k.kind ≡ vacant → Added h a n z k → IsVacant h z ⊎ (z ≡ a)
  from_added z k v (free p q) = inr p
  from_added z k v (cap p q) = absurd (vacant-ne-sentinel (sym v ∙ sym (kind_of q)))
  from_added z k v (kept e o) = inl (k, e, v)

  not_listed : ¬ IsVacant h a
  not_listed (k, e, v) =
      let t : IsBlockAt c a k = (heap.tiled).block a k e in
      elim (spares a k e) [ inl o ↦ omega (arith, t.at_least) | inr o ↦ omega (arith, is.at_least) ]

  -- A word of an old block is outside of the chunk.
  word_away : {z x : ℕ} → IsInside h z x → (x < a) ⊎ (a + n ≤ x)
  word_away i = elim (spares _ i.block i.at) [
    | inl low ↦ inl (omega (arith, i.to))
    | inr high ↦ inr (omega (arith, i.from))
  ]

  spared : (z : ℕ) → IsVacant h z → (head_memory z ≡ s.mem z) × SameLinks s.mem head_memory z
  spared z q = (
    old_here z q.0 q.1,
    (old_away z q.0 16 q.1 (omega arith), old_away z q.0 24 q.1 (omega arith)),
  )

  insert_chunk-SameContents :
      (s' : State)
      → link_free_block c a (n - 32) (record s { mem = head_memory }) ≡ some s'
      → SameContents h s.mem s'.mem
  insert_chunk-SameContents s' run z x i = elim (word_away i) [
    | inl low ↦ kept (omega arith) (omega arith) ∙ away x (inl low)
    | inr high ↦ kept (omega (arith, is.at_least)) (omega (arith, is.at_least)) ∙ away x (inr high)
  ]
    where
      kept : x ≢ a + 16 → x ≢ a + 24 → s'.mem x ≡ head_memory x
      kept =
          link-kept (spared-IsFree heap.free heap.holds head_memory spared) heap.holds
            (inside-OffLinks heap.tiled i) a (n - 32) s' run

  pub insert_chunk-IsHeap :
      IsValid c
      → (s' : State) × (lists' : Lists) × (insert_chunk c a n s ≡ some s')
        × IsHeap c s' lists' with_chunk
        × SameContents h s.mem s'.mem
  unfolding insert_chunk sentinel_size
  insert_chunk-IsHeap v =
      let (s', lists', run, free', same, holds') =
        link-Holds (spared-IsFree heap.free heap.holds head_memory spared) heap.holds a (n - 32) v
          (record { ne_null = is.ne_null; aligned = is.aligned }) not_listed
          (record { at_least = omega (arith, is.at_least); in_word = omega (arith, is.in_word) })
          (omega (arith, is.at_most, is.at_least))
          ((headed-free s.mem a n is.at_least is.aligned is.whole).0 ∙ omega arith) in
      let word =
        next_phys_block-eq (free-IsBlockAt heap.tiled is spares) (write_hdr s.mem a (n - 32) 0)
          (first_word s.mem a n is.at_least is.aligned is.whole ∙ omega arith) in
      let cap_at : next_phys_block (write_hdr s.mem a (n - 32) 0) a ≡ a + n - 32 =
        word ∙ omega (arith, is.at_least) in
      (
        s',
        lists',
        rw cap_at run,
        record {
          tiled = added-IsTiled heap.tiled is spares;
          agrees = with_chunk-Agrees s'.mem same;
          merged = with_chunk-IsMerged;
          free = free';
          holds = Holds-same holds' to (λ z q. from_added z q.0 q.2 (cases z q.0 q.1));
        },
        insert_chunk-SameContents s' run,
      )
