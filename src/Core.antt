-- ===== src/Core.antt =====
-- The crate af/crates/af-core: the registries of tools.
pub mod Registry
pub mod Resolver
