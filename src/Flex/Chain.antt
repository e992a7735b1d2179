-- ===== src/Flex/Chain.antt =====
-- The chain of the allocations that the pool footers link, and how a new pool or a growth of the last
-- one extends it.
use rlsf.Base.{
  All, ℕ, ◌+◌, ◌-◌, ◌%◌, ◌≤◌, ◌<◌, ◌≡◌, ◌≢◌, ◌⊎◌, inl, inr, refl, ◌∙◌, Option, none, some, List, [],
  ◌∷◌, true, false, arith, lt→ltb, ge→ltb, ◌==◌, ≢→==, ◌^◌,
}
use rlsf.Word.Align.{align_down_lem}
use rlsf.Tlsf.Config.{Config}
use rlsf.Tlsf.State.{Memory, write}
use rlsf.Flex.Source.{Slice, FlexSource}
use rlsf.Flex.Footer.{get_for_alloc, read_ftr, write_ftr, move_ftr}
use rlsf.Flex.Grow.{Pool, pool_slice, last_alloc, linked_ftr, moved_ftr}

-- An allocation that is not null and does not wrap around.
pub record IsSlice (a : Slice) : Type 0 where
  pub ne_null : a.start ≢ 0
  pub in_word : a.start + a.len < 2 ^ 64

-- The footer of an allocation is its last two words. Where the source aligns to less than a word,
-- it is the last place for two words at a multiple of the word.
pub data IsFooter (align : ℕ) (a : Slice) (f : ℕ) : Type 0 where
  at_end : 8 ≤ align → a.start ≤ f → f + 16 ≡ a.start + a.len → IsFooter align a f
  at_last_word :
      align < 8
      → a.start ≤ f
      → f % 8 ≡ 0
      → f + 16 ≤ a.start + a.len
      → a.start + a.len < f + 24
      → IsFooter align a f

-- The words of a footer at `f`: the start of the previous allocation, 0 for none, and its length.
abbrev pub LinksTo : Memory → ℕ → Option Slice → Type 0
LinksTo m f none = m f ≡ 0
LinksTo m f (some a) = (m f ≡ a.start) × (m (f + 8) ≡ a.len)

-- The words at an address that are not in an allocation.
abbrev pub IsOutside : Slice → ℕ → Type 0
IsOutside a x = (x + 8 ≤ a.start) ⊎ (a.start + a.len ≤ x)

abbrev pub IsApart : Slice → Slice → Type 0
IsApart a b = (b.start + b.len ≤ a.start) ⊎ (a.start + a.len ≤ b.start)

-- The allocations that the footers link, from the last one on. No two of them overlap.
pub data IsChain (m : Memory) (align : ℕ) : Option Slice → List Slice → Type 0 where
  last : IsChain m align none []
  next :
      {a : Slice} {prev : Option Slice} {allocs : List Slice} (f : ℕ)
      → IsSlice a
      → IsFooter align a f
      → LinksTo m f prev
      → All (IsApart a) allocs
      → IsChain m align prev allocs
      → IsChain m align (some a) (a ∷ allocs)

footer-inside :
    {align : ℕ} {a : Slice} {f : ℕ}
    → IsFooter align a f
    → (a.start ≤ f) × (f + 16 ≤ a.start + a.len)
footer-inside (at_end h from e) = (from, omega arith)
footer-inside (at_last_word h from w to near) = (from, to)

-- `get_for_alloc` finds the footer.
pub get_for_alloc-eq :
    {align : ℕ} {a : Slice} {f : ℕ} → IsSlice a → IsFooter align a f → get_for_alloc a align ≡ f
unfolding get_for_alloc
get_for_alloc-eq {align} {a} {f} is (at_end h from e) =
    rw (ge→ltb align 8 h) (omega (arith, is.in_word))
get_for_alloc-eq {align} {a} {f} is (at_last_word h from w to near) =
    let ptr : ((a.start + a.len) % 2 ^ 64 + 2 ^ 64 - 16) % 2 ^ 64 ≡ a.start + a.len - 16 =
      omega (arith, is.in_word) in
    rw (lt→ltb align 8 h, ptr)
      (align_down_lem 3 (a.start + a.len - 16) (omega arith) (omega (arith, is.in_word))
        ∙ omega arith)

-- `read_ftr` reads what the words link to.
pub read_ftr-eq :
    {m : Memory} {align : ℕ} (f : ℕ) {prev : Option Slice} {allocs : List Slice}
    → LinksTo m f prev
    → IsChain m align prev allocs
    → read_ftr m f ≡ prev
unfolding read_ftr
read_ftr-eq f links last = rw links refl
read_ftr-eq f links (next {a} g is foot on apart chain) =
    let ne : (a.start == 0) ≡ false = ≢→== a.start 0 is.ne_null in rw (links.0, links.1, ne) refl

links-kept :
    (m m' : Memory) {f : ℕ} (prev : Option Slice)
    → m' f ≡ m f
    → m' (f + 8) ≡ m (f + 8)
    → LinksTo m f prev
    → LinksTo m' f prev
links-kept m m' none e e' l = e ∙ l
links-kept m m' (some a) e e' l = (e ∙ l.0, e' ∙ l.1)

-- A chain stays where only words in an allocation change that is apart from it.
pub IsChain-kept :
    {m m' : Memory} {align : ℕ} {head : Option Slice} {allocs : List Slice} (b : Slice)
    → ((x : ℕ) → IsOutside b x → m' x ≡ m x)
    → All (IsApart b) allocs
    → IsChain m align head allocs
    → IsChain m' align head allocs
IsChain-kept b same off last = last
IsChain-kept {m} {m'} b same off (next {a} {prev} {allocs} f is foot links apart chain) =
    let (from, to) = footer-inside foot in
    next f is foot
      (links-kept m m' prev (same f (beside f off.0 from (omega arith)))
        (same (f + 8) (beside (f + 8) off.0 (omega arith) (omega arith))) links)
      apart (IsChain-kept b same off.1 chain)
  where
    beside : (x : ℕ) → IsApart b a → a.start ≤ x → x + 8 ≤ a.start + a.len → IsOutside b x
    beside x (inl low) from to = inl (omega arith)
    beside x (inr high) from to = inr (omega arith)

write_ftr-outside :
    (m : Memory) (f : ℕ) (prev : Option Slice) (x : ℕ)
    → (x + 8 ≤ f) ⊎ (f + 16 ≤ x)
    → write_ftr m f prev x ≡ m x
unfolding write_ftr write
write_ftr-outside m f none x (inl low) = ground arith
write_ftr-outside m f none x (inr high) = ground arith
write_ftr-outside m f (some a) x (inl low) = ground arith
write_ftr-outside m f (some a) x (inr high) = ground arith

write_ftr-LinksTo : (m : Memory) (f : ℕ) (prev : Option Slice) → LinksTo (write_ftr m f prev) f prev
unfolding write_ftr write
write_ftr-LinksTo m f none = ground arith
write_ftr-LinksTo m f (some a) = (ground arith, ground arith)

move_ftr-outside :
    (m : Memory) (f f' x : ℕ) → (x + 8 ≤ f') ⊎ (f' + 16 ≤ x) → move_ftr m f f' x ≡ m x
unfolding move_ftr write
move_ftr-outside m f f' x (inl low) = ground arith
move_ftr-outside m f f' x (inr high) = ground arith

move_ftr-LinksTo :
    (m : Memory) (f f' : ℕ) (prev : Option Slice)
    → LinksTo m f prev
    → LinksTo (move_ftr m f f') f' prev
unfolding move_ftr write
move_ftr-LinksTo m f f' none l = ground arith
move_ftr-LinksTo m f f' (some a) l = (ground (arith, l.0), ground (arith, l.1))

-- A word outside an allocation is outside its footer.
beside :
    {align : ℕ} {a : Slice} {f : ℕ} (x : ℕ)
    → IsFooter align a f
    → IsOutside a x
    → (x + 8 ≤ f) ⊎ (f + 16 ≤ x)
beside x foot (inl low) = inl (omega (arith, (footer-inside foot).0))
beside x foot (inr high) = inr (omega (arith, (footer-inside foot).1))

abbrev rest_of : List Slice → List Slice
rest_of [] = []
rest_of (a ∷ allocs) = allocs

-- The footer of the first allocation of a chain moves to that of another in its place.
moved-IsChain :
    {m : Memory} {align : ℕ} {a : Slice} {allocs : List Slice}
    → IsChain m align (some a) allocs
    → (b : Slice) (f : ℕ) → IsSlice b
    → IsFooter align b f
    → All (IsApart b) (rest_of allocs)
    → IsChain
        (move_ftr m (get_for_alloc a align) (get_for_alloc b align))
        align
        (some b)
        (b ∷ rest_of allocs)
moved-IsChain {m} (next {a} {prev} {allocs} old is_old foot_old links off chain) b f is foot apart =
    rw (get_for_alloc-eq is_old foot_old, get_for_alloc-eq is foot)
      (next f is foot (move_ftr-LinksTo m old f prev links) apart
        (IsChain-kept b (λ x out. move_ftr-outside m old f x (beside x foot out)) apart chain))

module _ {W : Type 0} (c : Config) (src : FlexSource W) (m : Memory)
    (supports : src.supports_dealloc ≡ true) where
  -- Where a source takes allocations back, the footer that `increase_pool_to_contain_allocation`
  -- writes for a new allocation, one that is not null, does not wrap around, has room for the
  -- footer and is apart from the allocations of a chain that begins at the last pool, makes the
  -- chain longer by it.
  pub linked_ftr-IsChain :
      (a : Slice) (pool : Option Pool) (allocs : List Slice) (f : ℕ)
      → IsSlice a
      → IsFooter src.min_align a f
      → All (IsApart a) allocs
      → IsChain m src.min_align (last_alloc pool) allocs
      → IsChain (linked_ftr c src a pool m) src.min_align (some a) (a ∷ allocs)
  unfolding linked_ftr
  linked_ftr-IsChain a pool allocs f is foot apart chain =
      rw (supports, get_for_alloc-eq is foot)
        (next f is foot (write_ftr-LinksTo m f (last_alloc pool)) apart (
          IsChain-kept a (λ x out. write_ftr-outside m f (last_alloc pool) x (beside x foot out))
            apart chain))

  -- The last pool after its growth in place to `new_alloc_len` bytes.
  abbrev pub grown_slice : Pool → ℕ → Slice
  grown_slice pool new_alloc_len = record { start = pool.alloc_start; len = new_alloc_len }

  -- Where a source takes allocations back, and the allocation of the last pool, the first of a
  -- chain, is grown in place to one that has room for the footer, does not wrap around and is apart
  -- from the others, the footer that is moved to its new end makes a chain of it and the others.
  pub moved_ftr-IsChain :
      (pool : Pool) (new_alloc_len : ℕ) (allocs : List Slice) (f : ℕ)
      → IsSlice (grown_slice pool new_alloc_len)
      → IsFooter src.min_align (grown_slice pool new_alloc_len) f
      → All (IsApart (grown_slice pool new_alloc_len)) allocs
      → IsChain m src.min_align (some (pool_slice pool)) (pool_slice pool ∷ allocs)
      → IsChain
          (moved_ftr c src pool new_alloc_len m)
          src.min_align
          (some (grown_slice pool new_alloc_len))
          (grown_slice pool new_alloc_len ∷ allocs)
  unfolding moved_ftr
  moved_ftr-IsChain pool n allocs f is foot apart chain =
      rw supports (moved-IsChain chain (grown_slice pool n) f is foot apart)
