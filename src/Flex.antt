-- ===== src/Flex.antt =====
-- crates/rlsf/src/flex.rs: `FlexTlsf`, which takes its memory pools from a source, and
-- crates/rlsf/src/utils.rs.
pub mod Source
pub mod Footer
pub mod Grow
pub mod Alloc
pub mod Chain
pub mod Drop
mod Tests
