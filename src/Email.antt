-- ===== src/Email.antt =====
-- The crate af/crates/af-email: which recipients a tool may write to.
pub mod Recipients
