-- ===== src/Tlsf/Client.antt =====
-- A client of `Tlsf`: any sequence of pool insertions, allocations, reallocations, releases
-- and writes to the memory that it holds. A step has the conditions that the safety sections of
-- crates/rlsf/src/tlsf.rs ask of the caller.
pub mod Owned
pub mod Pools
pub mod Sound
pub mod Insert
pub mod Grant
pub mod Release
pub mod Store
pub mod Resize
pub mod Steps
pub mod Safety
pub mod Contents
use rlsf.Base.{ℕ, ◌+◌, ◌^◌, ◌≤◌, ◌<◌, ◌≡◌, ◌≢◌, ◌⊎◌, Option, none, some, List, [], ◌∷◌, ◌++◌, All}
use rlsf.Tlsf.Config.{Config}
use rlsf.Tlsf.State.{State, Memory, empty, write}
use rlsf.Tlsf.Request.{Layout}
use rlsf.Tlsf.Allocate.{allocate}
use rlsf.Tlsf.Deallocate.{deallocate}
use rlsf.Tlsf.Reallocate.{reallocate}
use rlsf.Tlsf.Pool.{insert_free_block_ptr}

-- An allocation that the client holds.
pub record Live : Type 0 where
  pub ptr : ℕ
  pub layout : Layout

-- A range of memory that the client has handed over.
pub record Range : Type 0 where
  pub start : ℕ
  pub len : ℕ

pub record World : Type 0 where
  pub state : State
  pub live : List Live
  pub pools : List Range

abbrev pub IsApart : Range → Range → Type 0
IsApart x y = (x.start + x.len ≤ y.start) ⊎ (y.start + y.len ≤ x.start)

pub data Step (c : Config) (w : World) : World → Type 0 where
  insert :
      (x : Range) (r : Option ℕ) (s' : State)
      → x.start ≢ 0
      → 0 < x.len
      → x.start + x.len < 2 ^ 64
      → All (IsApart x) w.pools
      → insert_free_block_ptr c x.start x.len w.state ≡ some (r, s')
      → Step c w (record w { state = s'; pools = x ∷ w.pools })
  grant :
      (l : Layout) (k p : ℕ) (s' : State)
      → k < 64
      → l.align ≡ 2 ^ k
      → allocate c l w.state ≡ some (some p, s')
      → Step c w (record w { state = s'; live = record { ptr = p; layout = l } ∷ w.live })
  refuse :
      (l : Layout) (k : ℕ) (s' : State)
      → k < 64
      → l.align ≡ 2 ^ k
      → allocate c l w.state ≡ some (none, s')
      → Step c w (record w { state = s' })
  release :
      (xs : List Live) (x : Live) (ys : List Live) (s' : State)
      → w.live ≡ xs ++ x ∷ ys
      → deallocate c x.ptr (x.layout).align w.state ≡ some s'
      → Step c w (record w { state = s'; live = xs ++ ys })
  resize :
      (xs : List Live) (x : Live) (ys : List Live) (l : Layout) (k p : ℕ) (s' : State)
      → w.live ≡ xs ++ x ∷ ys
      → k < 64
      → l.align ≡ 2 ^ k
      → (x.layout).align ≡ l.align
      → reallocate c x.ptr l w.state ≡ some (some p, s')
      → Step c w (record w { state = s'; live = record { ptr = p; layout = l } ∷ xs ++ ys })
  keep_size :
      (xs : List Live) (x : Live) (ys : List Live) (l : Layout) (k : ℕ) (s' : State)
      → w.live ≡ xs ++ x ∷ ys
      → k < 64
      → l.align ≡ 2 ^ k
      → (x.layout).align ≡ l.align
      → reallocate c x.ptr l w.state ≡ some (none, s')
      → Step c w (record w { state = s' })
  store :
      (xs : List Live) (x : Live) (ys : List Live) (a v : ℕ)
      → w.live ≡ xs ++ x ∷ ys
      → x.ptr ≤ a
      → a < x.ptr + (x.layout).size
      → Step c w (record w { state = record w.state { mem = write (w.state).mem a v } })

-- The client begins with `Tlsf::new`, whatever is in memory.
abbrev pub start : Memory → World
start m = record { state = empty m; live = []; pools = [] }

pub data Reach (c : Config) (m : Memory) : World → Type 0 where
  here : Reach c m (start m)
  next : {w w' : World} → Reach c m w → Step c w w' → Reach c m w'
