-- ===== src/Tlsf.antt =====
-- crates/rlsf/src/tlsf.rs: the allocator core, on a 64-bit target.
pub mod Config
pub mod Class
pub mod State
pub mod Links
pub mod Heap
pub mod Search
pub mod Request
pub mod Allocate
pub mod Used
pub mod Deallocate
pub mod Reallocate
pub mod Pool
pub mod Blocks
pub mod Client
mod Tests
