-- ===== src/Tlsf/Deallocate/RoundTrip.antt =====
-- `deallocate` takes back what `allocate` has returned.
use rlsf.Base.{
  ℕ, ◌^◌, ◌<◌, ◌≡◌, ◌≢◌, refl, sym, ap, ◌∙◌, Option, some, none, arith, some_inj, ◌≤◌, ◌+◌,
}
use rlsf.Tlsf.Config.{Config, IsValid}
use rlsf.Tlsf.State.{State, Memory}
use rlsf.Tlsf.Links.Rep.{Lists}
use rlsf.Tlsf.Request.{Layout}
use rlsf.Tlsf.Heap.{vacant, Block, View, IsHeap}
use rlsf.Tlsf.Heap.Contents.{IsInside, SameContents}
use rlsf.Tlsf.Heap.Placed.{occupied-ne-vacant}
use rlsf.Tlsf.Allocate.{allocate}
use rlsf.Tlsf.Allocate.Take.{Stays, IsTaken}
use rlsf.Tlsf.Allocate.Outcome.{Outcome, refused, granted, allocate-Outcome}
use rlsf.Tlsf.Deallocate.{deallocate}
use rlsf.Tlsf.Deallocate.Outcome.{IsReleased, deallocate-IsHeap}

-- The used blocks of a view are in the other view, with their contents.
pub record KeepsUsed (h h' : View) (m m' : Memory) : Type 0 where
  pub stay : (z : ℕ) (k : Block) → h z ≡ some k → k.kind ≢ vacant → Stays h h' z
  pub contents : SameContents h m m'

-- The `n` bytes at `p` are in a vacant block.
pub record IsVacated (h : View) (p n : ℕ) : Type 0 where
  pub base : ℕ
  pub block : Block
  pub at : h base ≡ some block
  pub is_vacant : block.kind ≡ vacant
  pub from : base ≤ p
  pub to : p + n ≤ base + block.size

-- After the release of a pointer, if there is one, its bytes are in a vacant block, and the heap has
-- the used blocks that it had.
abbrev pub IsTakenBack : Config → Layout → State → View → Option ℕ × State → Type 0
IsTakenBack c l s h (none, s') = s' ≡ s
IsTakenBack c l s h (some p, s') =
    (s'' : State) × (lists'' : Lists) × (h'' : View) × (deallocate c p l.align s' ≡ some s'')
    × IsHeap c s'' lists'' h''
    × IsVacated h'' p l.size
    × KeepsUsed h h'' s.mem s''.mem

module _ {c : Config} {s : State} {lists : Lists} {h : View} (heap : IsHeap c s lists h)
    (v : IsValid c) (l : Layout) where
  module _ {h' : View} {m : Memory} {p : ℕ} (is : IsTaken l h h' m p) where
    not_taken : (z : ℕ) (k : Block) → h z ≡ some k → k.kind ≢ vacant → z ≢ is.b
    not_taken z k e ne same =
        let eq : k ≡ is.before = some_inj (sym e ∙ (ap h same ∙ is.at_before)) in
        ne (ap (λ (t : Block). t.kind) eq ∙ is.was_vacant)

    IsInside-of_taken : {z a : ℕ} → IsInside h z a → IsInside h' z a × (z ≢ is.b)
    IsInside-of_taken {z} {a} i =
        let live : (i.block).kind ≢ vacant = λ w. occupied-ne-vacant (sym i.used ∙ w) in
        let ne = not_taken z i.block i.at live in
        let (k', e', size, kind) = is.others z ne i.block i.at in
        (
          record {
            block = k';
            at = e';
            used = kind ∙ i.used;
            from = i.from;
            to = omega (arith, i.to, size);
          },
          ne,
        )

    Stays-both :
        {h'' : View}
        → IsReleased h' h'' is.b is.after
        → (z : ℕ) (k : Block) → h z ≡ some k
        → k.kind ≢ vacant
        → Stays h h'' z
    Stays-both back z k e ne k₁ e₁ =
        let same : k ≡ k₁ = some_inj (sym e ∙ e₁) in
        let other = not_taken z k e ne in
        let (k', e', size', kind') = is.others z other k e in
        let (k'', e'', size, kind) = back.others z k' e' (λ w. ne (sym kind' ∙ w)) other k' e' in
        (
          k'',
          e'',
          size ∙ (size' ∙ ap (λ (t : Block). t.size) same),
          kind ∙ (kind' ∙ ap (λ (t : Block). t.kind) same),
        )

  taken_back : (t : Option ℕ × State) → Outcome c l s lists h t → IsTakenBack c l s h t
  taken_back _ (refused none_fits) = refl
  taken_back _ (granted p s' lists' h' heap' is same) =
      let (s'', lists'', h'', run, heap'', back, others) =
        deallocate-IsHeap v heap' is.at_after is.now_used p l.align is.header in
      (
        s'',
        lists'',
        h'',
        run,
        heap'',
        record {
          base = back.at;
          block = back.block;
          at = back.now_at;
          is_vacant = back.now_vacant;
          from = omega (arith, back.from, (is.payload).behind);
          to = omega (arith, back.to, is.room, is.after_size);
        },
        record {
          stay = Stays-both is back;
          contents =
              λ z a i. let (i', ne) = IsInside-of_taken is i in others z a ne i' ∙ same z a i;
        },
      )

  -- For valid constants, a heap and an alignment that is a power of two of the word, `allocate`
  -- returns. If it returns null, the state stays; if it returns a pointer, `deallocate` accepts it,
  -- and the result is a heap in which the bytes of the layout there are in a vacant block, with all
  -- blocks that were in use before, and with the words of the used ones behind their headers.
  pub deallocate-allocate :
      (a : ℕ)
      → a < 64
      → l.align ≡ 2 ^ a
      → (t : Option ℕ × State) × (allocate c l s ≡ some t) × IsTakenBack c l s h t
  deallocate-allocate a lt power =
      let (t, run, out) = allocate-Outcome heap v l a lt power in (t, run, taken_back t out)
