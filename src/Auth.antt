-- ===== src/Auth.antt =====
-- The crate af/crates/af-auth: who may do what in a project.
pub mod Access
