-- ===== src/Tools.antt =====
-- The crate af/crates/af-builtin-tools, and arbeiterfarm/crates/af-re-tools where it shares code.
pub mod Chunking
