-- ===== src/Tlsf/Pool/Range.antt =====
-- `insert_free_block_ptr` on a heap, for a range that need not be aligned.
use rlsf.Base.{
  ℕ, ◌+◌, ◌-◌, ◌*◌, ◌/◌, ◌%◌, ◌^◌, ◌≤◌, ◌<◌, ◌≡◌, ◌≢◌, ◌⊎◌, inl, inr, refl, ◌∙◌, Option, some, none,
  arith, ◌==◌, false, leb, Bool-cases, ≢→==,
}
use native.Mathlib.Decide.{dec_lt}
use native.Mathlib.Nat.{mod-eq_of_lt}
use rlsf.Word.{wrapping_add, wrapping_sub, align_down}
use rlsf.Word.Align.{align_down_lem}
use rlsf.Tlsf.Config.{Config, IsValid}
use rlsf.Tlsf.State.{State}
use rlsf.Tlsf.Links.Rep.{Lists}
use rlsf.Tlsf.Heap.Contents.{SameContents}
use rlsf.Tlsf.Heap.{View, IsHeap}
use rlsf.Tlsf.Pool.{
  insert_chunks, non_zero, insert_free_block_ptr_aligned, insert_free_block_ptr, usable_len,
  aligned_start,
}
use rlsf.Tlsf.Pool.Added.{Spares}
use rlsf.Tlsf.Pool.Insert.{IsExtended, IsFilled, insert_chunks-IsHeap}

-- The granules of a range.
record IsInner (a len start n : ℕ) : Type 0 where
  pub from : a ≤ start
  pub near : start < a + 32
  pub aligned : start % 32 ≡ 0
  pub whole : n % 32 ≡ 0
  pub large : 64 ≤ n
  pub to : start + n ≤ a + len
  pub rest : a + len < start + n + 32

aligned_start-eq : (a : ℕ) → a + 31 < 2 ^ 64 → aligned_start a ≡ (a + 31) / 32 * 32
unfolding aligned_start
aligned_start-eq a lt =
    let wrap : wrapping_add a 31 ≡ a + 31 = mod-eq_of_lt lt in
    rw wrap (align_down_lem 5 (a + 31) (omega arith) lt)

aligned_start-wraps : (a : ℕ) → a < 2 ^ 64 → 2 ^ 64 ≤ a + 31 → aligned_start a ≡ 0
unfolding aligned_start
aligned_start-wraps a lt ge =
    let rest : (a + 31) % 2 ^ 64 < 32 = omega arith in
    align_down_lem 5 ((a + 31) % 2 ^ 64) (omega arith) (omega arith) ∙ omega (arith, rest)

usable_len-cases :
    (a len : ℕ)
    → a ≢ 0
    → a + len < 2 ^ 64
    → ((usable_len a len ≡ none) × (len < 95))
      ⊎ ((n : ℕ) × (usable_len a len ≡ some n)
          × IsInner a len (aligned_start a) n
          × (wrapping_sub (aligned_start a) a ≡ aligned_start a - a))
unfolding usable_len
usable_len-cases a len ne fits = elim (dec_lt (a + 31) (2 ^ 64)) [
  | no wraps ↦
      let start = aligned_start-wraps a (omega arith) (omega arith) in
      let offset : wrapping_sub (aligned_start a) a ≡ 2 ^ 64 - a = omega (arith, start) in
      let short : leb (wrapping_sub (aligned_start a) a) len ≡ false = ground (arith, offset) in
      inl (rw short refl, omega arith)
  | yes lt ↦
      let start = aligned_start-eq a lt in
      let offset : wrapping_sub (aligned_start a) a ≡ aligned_start a - a = omega (arith, start) in
      let x = len - wrapping_sub (aligned_start a) a in
      elim (Bool-cases (leb (wrapping_sub (aligned_start a) a) len)) [
        | inr short ↦ inl (rw short refl, ground (arith, offset, start))
        | inl enough ↦ elim (Bool-cases (leb 64 x)) [
          | inr little ↦ inl (rw (enough, little) refl, ground (arith, offset, start))
          | inl large ↦
              let down : align_down 32 x ≡ x / 32 * 32 =
                align_down_lem 5 x (omega arith) (omega arith) in
              let inside : wrapping_sub (aligned_start a) a ≤ len = ground arith in
              let big : 64 ≤ x = ground arith in
              inr (
                align_down 32 x,
                rw (enough, large) refl,
                record {
                  from = omega (arith, start);
                  near = omega (arith, start);
                  aligned = omega (arith, start);
                  whole = omega (arith, down);
                  large = omega (arith, down, big);
                  to = omega (arith, down, offset, inside, start);
                  rest = omega (arith, down, offset, inside, start);
                },
                offset,
              )
        ]
      ]
]

-- The length that is returned: none for a short range, else all but less than three granules.
abbrev pub IsPoolLength : ℕ → Option ℕ → Type 0
IsPoolLength len none = len < 95
IsPoolLength len (some n) = (n ≤ len) × (len < n + 96)

abbrev pub length_of : Option ℕ → ℕ
length_of none = 0
length_of (some n) = n

module _ {c : Config} (v : IsValid c) {s : State} {lists : Lists} {h : View}
    (heap : IsHeap c s lists h) where
  insert_aligned-run :
      (start n used : ℕ) (s' : State)
      → insert_chunks n c start n s ≡ some (start + used, s')
      → 0 < used
      → start + used < 2 ^ 64
      → insert_free_block_ptr_aligned c start n s ≡ some (some used, s')
  unfolding insert_free_block_ptr_aligned non_zero
  insert_aligned-run start n used s' run pos lt =
      let back : wrapping_sub (start + used) start ≡ used = omega arith in
      let test : (used == 0) ≡ false = ≢→== used 0 (omega arith) in rw (run, back, test) refl

  insert_run :
      (a len n used : ℕ) (s' : State)
      → usable_len a len ≡ some n
      → insert_free_block_ptr_aligned c (aligned_start a) n s ≡ some (some used, s')
      → wrapping_sub (aligned_start a) a ≡ aligned_start a - a
      → insert_free_block_ptr c a len s ≡ some (some (used + (aligned_start a - a)), s')
  unfolding insert_free_block_ptr
  insert_run a len n used s' e run offset = rw (insert_free_block_ptr, e, run, offset) refl

  -- The blocks in the granules are in the range.
  widen :
      {h' : View} (a start used : ℕ)
      → a ≤ start
      → IsExtended h h' start used
      → IsExtended h h' a (used + (start - a))
  widen a start used le ext = record {
    kept = ext.kept;
    new = λ x k e. elim (ext.new x k e) [
      | inl e' ↦ inl e'
      | inr (from, to, ne) ↦ inr (omega arith, omega arith, ne)
    ];
  }

  -- For valid constants, a heap and a range of memory that does not begin at null, ends below the
  -- end of the address space and meets no block, `insert_free_block_ptr` returns, with enough
  -- fuel. The result is a heap in which all old blocks are as they were, the used ones with the
  -- words behind their headers. The new blocks are not in use and lie in the part of the range
  -- that is returned as the length of the pool. In that part, from the first 31 bytes on, each byte
  -- is in a vacant block or in a sentinel right behind one. The part is all of the range but less
  -- than 96 bytes; null is returned only for less than 95 bytes.
  pub insert_free_block_ptr-IsHeap :
      (a len : ℕ)
      → a ≢ 0
      → a + len < 2 ^ 64
      → Spares h a len
      → (r : Option ℕ) × (s' : State) × (lists' : Lists) × (h' : View) × (insert_free_block_ptr c a
            len s
          ≡ some (r, s'))
        × IsHeap c s' lists' h'
        × IsExtended h h' a (length_of r)
        × IsPoolLength len r
        × ((x : ℕ) → a + 31 ≤ x → x < a + length_of r → IsFilled h' x)
        × SameContents h s.mem s'.mem
  unfolding insert_free_block_ptr
  insert_free_block_ptr-IsHeap a len ne fits spares = elim (usable_len-cases a len ne fits) [
    | inl (e, short) ↦ (
      none,
      s,
      lists,
      h,
      rw (insert_free_block_ptr, e) refl,
      heap,
      record { kept = λ x k e. e; new = λ x k e. inl e },
      short,
      λ x from to. absurd (omega arith),
      λ z x i. refl,
    )
    | inr (n, e, is, offset) ↦
        let start = aligned_start a in
        let (used, s', lists', h', run, le, left, heap', ext, filled, same) =
          insert_chunks-IsHeap v n start n (omega arith)
            (record {
              ne_null = omega (arith, is.from);
              aligned = is.aligned;
              whole = is.whole;
              in_word = omega (arith, is.to);
            })
            heap
            (λ z k e. elim (spares z k e) [
              | inl low ↦ inl (omega (arith, is.from))
              | inr high ↦ inr (omega (arith, is.to))
            ]) in
        let pos : 0 < used = omega (arith, left, is.large) in
        (
          some (used + (start - a)),
          s',
          lists',
          h',
          insert_run a len n used s' e
              (insert_aligned-run start n used s' run pos (omega (arith, le, is.to))) offset,
          heap',
          widen a start used is.from ext,
          (omega (arith, le, is.to, is.from), omega (arith, left, is.rest)),
          λ x from to. filled x (omega (arith, is.near)) (omega (arith, is.from)),
          same,
        )
  ]
