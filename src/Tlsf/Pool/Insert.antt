-- ===== src/Tlsf/Pool/Insert.antt =====
-- The loop of `insert_free_block_ptr_aligned` runs to its end and leaves a heap.
use rlsf.Base.{
  ℕ, zero, suc, ◌+◌, ◌-◌, ◌*◌, ◌%◌, ◌^◌, ◌≤◌, ◌<◌, ◌≡◌, ◌≢◌, ◌⊎◌, inl, inr, refl, sym, ap, ◌∙◌,
  Option, some, arith, true, false, ltb, leb, min, Bool-cases, two-pow_mono, two-pow-add,
}
use native.Mathlib.Nat.{mod-eq_of_lt}
use native.Mathlib.Decide.{dec_lt}
use rlsf.Word.{wrapping_add}
use rlsf.Tlsf.Config.{Config, IsValid, max_pool_size}
use rlsf.Tlsf.State.{State}
use rlsf.Tlsf.Links.Rep.{Lists}
use rlsf.Tlsf.Heap.{vacant, sentinel, occupied, Block, View, IsHeap}
use rlsf.Tlsf.Heap.Contents.{IsInside, SameContents}
use rlsf.Tlsf.Heap.Placed.{occupied-ne-vacant, occupied-ne-sentinel}
use rlsf.Tlsf.Pool.{insert_chunk, insert_chunks, chunk_size}
use rlsf.Tlsf.Pool.Added.{
  free_of, cap_of, added-free, added-cap, Spares, Added, free, cap, kept, IsChunk, added-kept,
  Added-cases,
}
use rlsf.Tlsf.Pool.Chunk.{with_chunk, insert_chunk-IsHeap}

-- A range of memory that is handed over: whole granules, below the end of the address space.
pub record IsRange (a n : ℕ) : Type 0 where
  pub ne_null : a ≢ 0
  pub aligned : a % 32 ≡ 0
  pub whole : n % 32 ≡ 0
  pub in_word : a + n < 2 ^ 64

-- The old blocks are as they were, and the new ones are in a range and not in use.
pub record IsExtended (h h' : View) (a n : ℕ) : Type 0 where
  pub kept : (x : ℕ) (k : Block) → h x ≡ some k → h' x ≡ some k
  pub new :
      (x : ℕ) (k : Block)
      → h' x ≡ some k
      → (h x ≡ some k) ⊎ ((a ≤ x) × (x + k.size ≤ a + n) × (k.kind ≢ occupied))

-- A byte of a vacant block, or of the sentinel right behind one.
pub data IsFilled (h : View) (x : ℕ) : Type 0 where
  in_vacant :
      (z : ℕ) (k : Block) → h z ≡ some k → k.kind ≡ vacant → z ≤ x → x < z + k.size → IsFilled h x
  in_sentinel :
      (z : ℕ) (k : Block) (b : ℕ) (kb : Block)
      → h z ≡ some k
      → k.kind ≡ sentinel
      → z ≤ x
      → x < z + 32
      → h b ≡ some kb
      → kb.kind ≡ vacant
      → b + kb.size ≡ z
      → IsFilled h x

-- The chunk of a round.
chunk_size-limited :
    (c : Config) (size : ℕ)
    → ltb (5 + c.fllen) 64 ≡ true
    → chunk_size c size ≡ min size (2 ^ (5 + c.fllen))
unfolding chunk_size max_pool_size
chunk_size-limited c size small = rw (chunk_size, max_pool_size, small) refl

chunk_size-unlimited :
    (c : Config) (size : ℕ) → ltb (5 + c.fllen) 64 ≡ false → chunk_size c size ≡ size
unfolding chunk_size max_pool_size
chunk_size-unlimited c size large = rw (chunk_size, max_pool_size, large) refl

IsChunk-of_size :
    {c : Config} {a size n : ℕ}
    → IsRange a size
    → n % 32 ≡ 0
    → 64 ≤ n
    → n ≤ size
    → n ≤ 2 ^ (c.fllen + 5)
    → IsChunk c a n
IsChunk-of_size is whole large le most = record {
  ne_null = is.ne_null;
  aligned = is.aligned;
  whole = whole;
  at_least = large;
  in_word = omega (arith, is.in_word);
  at_most = most;
}

chunk_size-IsChunk :
    {c : Config} (a size : ℕ)
    → IsValid c
    → IsRange a size
    → 64 ≤ size
    → IsChunk c a (chunk_size c size) × (chunk_size c size ≤ size)
chunk_size-IsChunk {c} a size v is large = elim (Bool-cases (ltb (5 + c.fllen) 64)) [
  | inl small ↦
      let eq = chunk_size-limited c size small in
      let swap : 2 ^ (5 + c.fllen) ≡ 2 ^ (c.fllen + 5) = ap (λ (t : ℕ). 2 ^ t) (omega arith) in
      let most : 2 ^ (c.fllen + 5) ≡ 2 ^ c.fllen * 2 ^ 5 = two-pow-add c.fllen 5 in
      let two : 2 ^ 1 ≤ 2 ^ c.fllen = two-pow_mono {a = 1} (omega (arith, v.has_first)) in
      let le : chunk_size c size ≤ size = omega (arith, eq) in
      (
        IsChunk-of_size is (omega (arith, eq, swap, most, is.whole))
            (omega (arith, eq, swap, most, two)) le (omega (arith, eq, swap)),
        le,
      )
  | inr unlimited ↦
      let eq = chunk_size-unlimited c size unlimited in
      let top : 2 ^ 64 ≤ 2 ^ (c.fllen + 5) = two-pow_mono {a = 64} (ground arith) in
      (
        IsChunk-of_size is (omega (arith, eq, is.whole)) (omega (arith, eq)) (omega (arith, eq))
            (omega (arith, eq, is.in_word, top)),
        omega (arith, eq),
      )
]

-- What the chunks of a range are to a heap: the last part of the range, of less than two granules,
-- is left out.
abbrev pub Inserted : Config → State → View → ℕ → ℕ → Option (ℕ × State) → Type 0
Inserted c s h a n run =
    (used : ℕ) × (s' : State) × (lists' : Lists) × (h' : View) × (run ≡ some (a + used, s'))
    × (used ≤ n)
    × (n < used + 64)
    × IsHeap c s' lists' h'
    × IsExtended h h' a used
    × ((x : ℕ) → a ≤ x → x < a + used → IsFilled h' x)
    × SameContents h s.mem s'.mem

module _ {c : Config} (v : IsValid c) where
  nothing :
      {s : State} {lists : Lists} {h : View} (a n : ℕ)
      → n < 64
      → IsHeap c s lists h
      → Inserted c s h a n (some (a, s))
  nothing {s} {lists} {h} a n lt heap = (
    0,
    s,
    lists,
    h,
    ap (λ (t : ℕ). some (t, s)) (omega arith),
    omega arith,
    omega arith,
    heap,
    record { kept = λ x k e. e; new = λ x k e. inl e },
    λ x from to. absurd (omega arith),
    λ z x inside. refl,
  )

  -- The range without its first chunk.
  rest_IsRange : {a n q : ℕ} → IsRange a n → IsChunk c a q → q ≤ n → IsRange (a + q) (n - q)
  rest_IsRange is chunk le = record {
    ne_null = omega (arith, is.ne_null);
    aligned = omega (arith, is.aligned, chunk.whole);
    whole = omega (arith, is.whole, chunk.whole);
    in_word = omega (arith, is.in_word);
  }

  rest_Spares :
      {s : State} {lists : Lists} {h : View} (heap : IsHeap c s lists h) {a n q : ℕ}
      (chunk : IsChunk c a q)
      → q ≤ n
      → (spares : Spares h a n) → (near : Spares h a q)
      → Spares (with_chunk heap chunk near) (a + q) (n - q)
  rest_Spares {s} {lists} {h} heap {a} {n} {q} chunk le spares near z k e =
      by (Added-cases heap.tiled chunk near z k e)
    where
      size_of : {k k' : Block} → k ≡ k' → k.size ≡ k'.size
      size_of e = ap (λ (z : Block). z.size) e

      by : Added h a q z k → (z + k.size ≤ a + q) ⊎ (a + q + (n - q) ≤ z)
      by (free p e') = inl (omega (arith, size_of e', chunk.at_least))
      by (cap p e') = inl (omega (arith, size_of e', chunk.at_least))
      by (kept e' o) = elim (spares z k e') [
        | inl low ↦ inl (omega arith)
        | inr high ↦ inr (omega arith)
      ]

  -- A chunk, and what the rounds after it insert.
  joined :
      {s : State} {lists : Lists} {h : View} (heap : IsHeap c s lists h) {a q used : ℕ}
      (chunk : IsChunk c a q) (near : Spares h a q) {h' : View}
      → IsExtended (with_chunk heap chunk near) h' (a + q) used
      → IsExtended h h' a (q + used)
  joined {s} {lists} {h} heap {a} {q} {used} chunk near {h'} later = record {
    kept = λ x k e. later.kept x k (added-kept heap.tiled chunk near x k e);
    new = λ x k e. elim (later.new x k e) [
      | inl e' ↦ by x k e' (Added-cases heap.tiled chunk near x k e')
      | inr (from, to, ne) ↦ inr (omega arith, omega arith, ne)
    ];
  }
    where
      by :
          (x : ℕ) (k : Block)
          → with_chunk heap chunk near x ≡ some k
          → Added h a q x k
          → (h x ≡ some k) ⊎ ((a ≤ x) × (x + k.size ≤ a + (q + used)) × (k.kind ≢ occupied))
      by x k e (free p e') = inr (
        omega arith,
        omega (arith, ap (λ (z : Block). z.size) e', chunk.at_least),
        λ o. occupied-ne-vacant (sym o ∙ ap (λ (z : Block). z.kind) (sym e')),
      )
      by x k e (cap p e') = inr (
        omega (arith, chunk.at_least),
        omega (arith, ap (λ (z : Block). z.size) e', chunk.at_least),
        λ o. occupied-ne-sentinel (sym o ∙ ap (λ (z : Block). z.kind) (sym e')),
      )
      by x k e (kept e' o) = inl e'

  -- The bytes of the chunk.
  chunk-IsFilled :
      {s : State} {lists : Lists} {h : View} (heap : IsHeap c s lists h) {a q used : ℕ}
      (chunk : IsChunk c a q) (near : Spares h a q) {h' : View}
      → IsExtended (with_chunk heap chunk near) h' (a + q) used
      → (x : ℕ) → a ≤ x
      → x < a + q
      → IsFilled h' x
  chunk-IsFilled heap {a = a} {q = q} chunk near later x from to =
      let first = later.kept a (free_of a q) (added-free heap.tiled chunk near) in
      elim (dec_lt x (a + q - 32)) [
        | yes low ↦ in_vacant a (free_of a q) first refl from (omega (arith, chunk.at_least))
        | no high ↦
            in_sentinel (a + q - 32) (cap_of a) a (free_of a q)
              (later.kept (a + q - 32) (cap_of a) (added-cap heap.tiled chunk near)) refl
              (omega arith) (omega (arith, chunk.at_least)) first refl
              (omega (arith, chunk.at_least))
      ]

  -- A round of the loop.
  one_round :
      (fuel a n : ℕ) (s s1 : State) (r : ℕ × State)
      → leb 64 n ≡ true
      → insert_chunk c a (chunk_size c n) s ≡ some s1
      → wrapping_add a (chunk_size c n) ≡ a + chunk_size c n
      → insert_chunks fuel c (a + chunk_size c n) (n - chunk_size c n) s1 ≡ some r
      → insert_chunks (suc fuel) c a n s ≡ some r
  unfolding insert_chunks
  one_round fuel a n s s1 r large run wrap rest = rw (insert_chunks, large, run, wrap) rest

  IsInside-with_chunk :
      {s : State} {lists : Lists} {h : View} (heap : IsHeap c s lists h) {a q z x : ℕ}
      (chunk : IsChunk c a q) (near : Spares h a q)
      → IsInside h z x
      → IsInside (with_chunk heap chunk near) z x
  IsInside-with_chunk heap {z = z} chunk near i = record {
    block = i.block;
    at = added-kept heap.tiled chunk near z i.block i.at;
    used = i.used;
    from = i.from;
    to = i.to;
  }

  pub insert_chunks-IsHeap :
      (fuel a n : ℕ) {s : State} {lists : Lists} {h : View}
      → n ≤ fuel
      → IsRange a n
      → IsHeap c s lists h
      → Spares h a n
      → Inserted c s h a n (insert_chunks fuel c a n s)
  unfolding insert_chunks
  insert_chunks-IsHeap zero a n le is heap spares =
      let none_left : leb 64 n ≡ false = ground arith in
      rw (insert_chunks, none_left) (nothing a n (omega arith) heap)
  insert_chunks-IsHeap (suc fuel) a n {s} {lists} {h} le is heap spares =
      elim (Bool-cases (leb 64 n)) [
        | inr small ↦ rw (insert_chunks, small) (nothing a n (ground arith) heap)
        | inl large ↦
            let q = chunk_size c n in
            let (chunk, q_le) = chunk_size-IsChunk a n v is (ground arith) in
            let near : Spares h a q = λ z k e. elim (spares z k e) [
              | inl low ↦ inl low
              | inr high ↦ inr (omega (arith, q_le))
            ] in
            let (s1, lists1, run1, heap1, same1) = insert_chunk-IsHeap heap chunk near v in
            let wrap : wrapping_add a q ≡ a + q = mod-eq_of_lt (omega (arith, q_le, is.in_word)) in
            let (used, s', lists', h', run', le', rest', heap', later, filled, same) =
              insert_chunks-IsHeap fuel (a + q) (n - q) (omega (arith, chunk.at_least))
                (rest_IsRange is chunk q_le) heap1 (rest_Spares heap chunk q_le spares near) in
            let sum : a + q + used ≡ a + (q + used) = omega arith in
            let within : q + used ≤ n = omega (arith, le', q_le) in
            let left : n < q + used + 64 = omega (arith, rest', q_le) in
            (
              q + used,
              s',
              lists',
              h',
              one_round fuel a n s s1 (a + (q + used), s') large run1 wrap
                  (run' ∙ ap (λ (t : ℕ). some (t, s')) sum),
              within,
              left,
              heap',
              joined heap chunk near later,
              λ x from to. elim (dec_lt x (a + q)) [
                | yes low ↦ chunk-IsFilled heap chunk near later x from low
                | no high ↦ filled x (omega arith) (omega arith)
              ],
              λ z x i. same z x (IsInside-with_chunk heap chunk near i) ∙ same1 z x i,
            )
      ]
