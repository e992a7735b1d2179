-- ===== src/Tlsf/Heap.antt =====
-- The physical blocks of the pools, as an abstract view of memory, and the invariant that joins it
-- with the headers in memory and with the free lists.
pub mod Replace
pub mod Tiled
pub mod Backward
pub mod Region
pub mod Agree
pub mod Members
pub mod Vacant
pub mod Words
pub mod Placed
pub mod New
pub mod Contents
pub mod Bytes
pub mod Store
use rlsf.Base.{
  ℕ, ◌+◌, ◌%◌, ◌^◌, ◌≤◌, ◌<◌, ◌≡◌, ◌≢◌, ◌⊎◌, Option, none, some, List, [], ◌∷◌, ◌++◌, All,
}
use rlsf.Tlsf.Config.{Config, IsValid}
use rlsf.Tlsf.State.{State, Memory}
use rlsf.Tlsf.Links.Rep.{Lists, IsFree}

pub data Kind : Type 0 where
  vacant occupied sentinel : Kind

-- The flags of a block: none, `SIZE_USED`, or `SIZE_USED | SIZE_SENTINEL`.
abbrev pub flags : Kind → ℕ
flags vacant = 0
flags occupied = 1
flags sentinel = 3

-- A block: its header, and the address of the first block of its chain.
pub record Block : Type 0 where
  pub size : ℕ
  pub prev : ℕ
  pub kind : Kind
  pub pool : ℕ

-- The blocks by their addresses.
abbrev pub View : Type 0
View = ℕ → Option Block

pub record IsBlockAt (c : Config) (b : ℕ) (k : Block) : Type 0 where
  pub ne_null : b ≢ 0
  pub aligned : b % 32 ≡ 0
  pub whole : k.size % 32 ≡ 0
  pub at_least : 32 ≤ k.size
  pub in_word : b + k.size < 2 ^ 64
  pub from_pool : k.pool ≤ b
  pub in_pool : b + k.size ≤ k.pool + 2 ^ (c.fllen + 5)

-- The blocks are in chains. A chain ends with a sentinel; every other block is followed by a block
-- that points back to it. Blocks do not overlap.
pub record IsTiled (c : Config) (h : View) : Type 0 where
  pub block : (b : ℕ) (k : Block) → h b ≡ some k → IsBlockAt c b k
  pub next :
      (b : ℕ) (k : Block)
      → h b ≡ some k
      → k.kind ≢ sentinel
      → (k' : Block) × (h (b + k.size) ≡ some k') × (k'.prev ≡ b) × (k'.pool ≡ k.pool)
  pub back :
      (b : ℕ) (k : Block)
      → h b ≡ some k
      → (k.prev ≡ 0)
        ⊎ ((k' : Block) × (h k.prev ≡ some k') × (k.prev + k'.size ≡ b) × (k'.kind ≢ sentinel))
  pub apart :
      (b : ℕ) (k : Block) (b' : ℕ) (k' : Block)
      → h b ≡ some k
      → h b' ≡ some k'
      → b < b'
      → b + k.size ≤ b'

-- The headers in memory are those of the blocks.
abbrev pub Agrees : Memory → View → Type 0
Agrees m h =
    (b : ℕ) (k : Block) → h b ≡ some k → (m b ≡ k.size + flags k.kind) × (m (b + 8) ≡ k.prev)

-- The block at an address is vacant.
abbrev pub IsVacant : View → ℕ → Type 0
IsVacant h b = (k : Block) × (h b ≡ some k) × (k.kind ≡ vacant)

-- A vacant block is not followed by another one.
abbrev pub IsMerged : View → Type 0
IsMerged h = (b : ℕ) (k : Block) → h b ≡ some k → k.kind ≡ vacant → ¬ IsVacant h (b + k.size)

abbrev pub IsIn : ℕ → List ℕ → Type 0
IsIn z [] = ⊥
IsIn z (x ∷ xs) = (z ≡ x) ⊎ IsIn z xs

-- The lists hold the addresses with a property, and all of them.
pub record Holds (lists : Lists) (P : ℕ → Type 0) : Type 0 where
  pub only : (x y : ℕ) → All P (lists x y)
  pub every : (z : ℕ) → P z → (x : ℕ) × (y : ℕ) × IsIn z (lists x y)

-- The state of the allocator between two calls.
pub record IsHeap (c : Config) (s : State) (lists : Lists) (h : View) : Type 0 where
  pub tiled : IsTiled c h
  pub agrees : Agrees s.mem h
  pub merged : IsMerged h
  pub free : IsFree c s lists
  pub holds : Holds lists (IsVacant h)
