-- ===== src/Re.antt =====
-- The crates under arbeiterfarm/crates that analyse files.
pub mod Jq
