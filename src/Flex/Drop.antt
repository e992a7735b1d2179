-- ===== src/Flex/Drop.antt =====
-- `Drop for FlexTlsf`: the allocations of the pools are given back, the last one first.
use rlsf.Base.{
  length, ◌≤◌, arith, ℕ, zero, suc, true, false, Option, none, some, ◌>>=◌, ◌≡◌, refl, inl, inr,
  Option-cases, List, [], ◌∷◌,
}
use rlsf.Tlsf.State.{Memory}
use rlsf.Flex.Source.{Slice, FlexSource}
use rlsf.Flex.Footer.{get_for_alloc, read_ftr}
use rlsf.Flex.Grow.{FlexTlsf, last_alloc}
use rlsf.Flex.Chain.{IsOutside, IsChain, last, next, get_for_alloc-eq, read_ftr-eq, IsChain-kept}

module _ {W : Type 0} (src : FlexSource W) where
  -- The loop, with at most `fuel` rounds. A footer is read before its allocation is given back, in
  -- the memory that the source has left.
  unfoldable pub drop_pools : (fuel : ℕ) → Option Slice → Memory → W → Option (Memory × W)
  drop_pools fuel none m w = some (m, w)
  drop_pools zero (some alloc) m w = none
  drop_pools (suc fuel) (some alloc) m w = do
    (m', w') ← src.dealloc alloc m w
    drop_pools fuel (read_ftr m (get_for_alloc alloc src.min_align)) m' w'

  unfoldable pub drop : (fuel : ℕ) → FlexTlsf W → Option (Memory × W)
  unfolding drop_pools
  drop fuel s = elim src.supports_dealloc [
    | false ↦ some ((s.tlsf).mem, s.source)
    | true ↦ drop_pools fuel (last_alloc s.growable_pool) (s.tlsf).mem s.source
  ]

-- `FlexSource::dealloc` of each allocation of a list.
abbrev pub dealloc_all : {W : Type 0} → FlexSource W → List Slice → Memory → W → Option (Memory × W)
dealloc_all src [] m w = some (m, w)
dealloc_all src (alloc ∷ allocs) m w = do
  (m', w') ← src.dealloc alloc m w
  dealloc_all src allocs m' w'

-- A source that takes an allocation back changes no word outside it.
abbrev pub SparesOthers : {W : Type 0} → FlexSource W → Type 0
SparesOthers {W} src =
    (a : Slice) (m m' : Memory) (w w' : W)
    → src.dealloc a m w ≡ some (m', w')
    → (x : ℕ) → IsOutside a x
    → m' x ≡ m x

module _ {W : Type 0} (src : FlexSource W) (spares : SparesOthers src) where
  drop_pools-eq-dealloc_all :
      {head : Option Slice} {allocs : List Slice} (fuel : ℕ) (m : Memory)
      → IsChain m src.min_align head allocs
      → length allocs ≤ fuel
      → (w : W) → drop_pools src fuel head m w ≡ dealloc_all src allocs m w
  unfolding drop_pools
  drop_pools-eq-dealloc_all fuel m last h w = refl
  drop_pools-eq-dealloc_all zero m (next f is foot links apart chain) h w = absurd (omega arith)
  drop_pools-eq-dealloc_all (suc fuel) m (next {a} {prev} {allocs} f is foot links apart chain) h
        w =
      elim (Option-cases (src.dealloc a m w)) [
        | inl refused ↦ rw refused refl
        | inr ((m', w'), run) ↦
            let kept = IsChain-kept a (spares a m m' w w' run) apart chain in
            rw (run, get_for_alloc-eq is foot, read_ftr-eq f links chain)
              (drop_pools-eq-dealloc_all fuel m' kept (omega arith) w')
      ]

-- For a source that can take allocations back, and changes no word outside of one that it takes, a
-- drop gives back every allocation of the chain of footers that begins at the last pool, each once,
-- the last one first, and then ends, though the source may overwrite what it gets. As many rounds as
-- there are allocations are enough.
pub drop-eq-dealloc_all :
    {W : Type 0} (src : FlexSource W) (s : FlexTlsf W) (allocs : List Slice) (fuel : ℕ)
    → src.supports_dealloc ≡ true
    → SparesOthers src
    → IsChain (s.tlsf).mem src.min_align (last_alloc s.growable_pool) allocs
    → length allocs ≤ fuel
    → drop src fuel s ≡ dealloc_all src allocs (s.tlsf).mem s.source
unfolding drop
drop-eq-dealloc_all src s allocs fuel supports spares chain h =
    rw supports (drop_pools-eq-dealloc_all src spares fuel (s.tlsf).mem chain h s.source)
