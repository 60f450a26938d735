-- ===== src/Vt.antt =====
-- The crate arbeiterfarm/crates/af-re-vt: requests to VirusTotal.
pub mod RateLimiter
