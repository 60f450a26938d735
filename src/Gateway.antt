-- ===== src/Gateway.antt =====
-- The crate af/crates/af-web-gateway: which addresses and which URLs a tool may reach.
pub mod Ssrf
pub mod Rules
pub mod Fetch
