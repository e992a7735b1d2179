-- ===== src/Lib.antt =====
-- rlsf: a two-level segregated fit (TLSF) allocator, and the layers on top of it.
--
-- The program has four layers. `Tlsf` (crates/rlsf/src/tlsf.rs) keeps free blocks of memory in
-- doubly linked lists, one for each size class, which two levels of bitmaps index; the bitmaps are
-- the integers of crates/rlsf/src/int.rs. `FlexTlsf` (crates/rlsf/src/flex.rs) owns a `Tlsf`
-- and takes its memory pools from a source. `GlobalTlsf` (crates/rlsf/src/global.rs) puts a
-- `FlexTlsf` behind a lock; its sources are crates/rlsf/src/global/unix.rs and
-- crates/rlsf/src/global/wasm32.rs. crates/rlsf_override/src/lib.rs implements the allocation
-- functions of C and C++ on a `GlobalTlsf`.
--
-- The files:
--   Base            shared names, tests on numbers, lemmas on numbers and lists
--   Word            the operations of `core` on unsigned words, by which the code computes
--   Int             the trait `BinInteger` at unsigned types
--   Tlsf/Config     constants, generic parameters, `VALID`
--   Tlsf/Class      `map_floor`, `map_ceil`, `map_ceil_and_unmap`
--   Tlsf/State      the header and memory
--   Tlsf/Links      `link_free_block`, `unlink_free_block`
--   Tlsf/Search     `search_suitable_free_block_list_for_allocation`
--   Tlsf/Request    the sizes that a `Layout` asks for
--   Tlsf/Allocate   `allocate`
--   Tlsf/Used       `used_block_hdr_for_allocation`, `size_of_allocation`
--   Tlsf/Heap       the physical blocks of the pools, and the invariant that joins them with the
--                   headers in memory and with the free lists
--   Tlsf/Client     any sequence of calls and writes of a client, as a step relation
--   Tlsf/Deallocate, Tlsf/Reallocate, Tlsf/Pool, Tlsf/Blocks
--                   `deallocate`, `reallocate`, `insert_free_block_ptr` and
--                   `append_free_block_ptr`, `iter_blocks`
--   Flex            `FlexSource`, `PoolFtr`, `FlexTlsf`, and the chain of its pools' footers
--   Global          `GlobalTlsf`, `CAlloc`, and the mutexes and sources of the two targets
--   Override        `malloc`, `calloc`, `realloc`, `free` and the others, and the operators `new`
--                   and `delete` of C++
--
-- Numbers are natural numbers, and the wrap-around of a word is written out where the code relies
-- on it. The target has 64-bit addresses, except in Global/Wasm32. Debug assertions are off, as
-- in a release build. Memory is a function from the addresses of words to words, and a block
-- keeps its header and its links at offsets 0, 8, 16 and 24; a null pointer is 0. A computation
-- that may reach `unreachable_unchecked`, panic, trap or abort has an outer `Option`, and is
-- `none` there.
--
-- The loops of pool insertion and of block iteration run on fuel that is the length in bytes, of
-- which each round takes away at least one. The loop of `drop` takes its fuel as an argument, and
-- as many rounds as there are allocations are enough.
--
-- Outside the program are `mmap`, `munmap`, `sysconf`, `pthread_mutex_lock`,
-- `pthread_mutex_unlock`, the memory instructions of WebAssembly, `GlobalAlloc` and any other
-- source: they are records of operations that the definitions take. What is behind them, the static
-- mutex of Unix included, is the state of the system, which a `FlexTlsf` keeps as its source. Not
-- modelled are threads that share a `GlobalTlsf`, the macros of the crate root, tests and
-- benchmarks. `append_free_block_ptr` is defined in full, but there is no theorem on it yet.
mod Base
pub mod Word
pub mod Int
pub mod Tlsf
pub mod Flex
pub mod Global
pub mod Override
