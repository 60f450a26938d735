-- ===== src/Jobs.antt =====
-- The queue of tool runs: the crate af/crates/af-jobs and its queries in af/crates/af-db.
pub mod ToolRuns
pub mod Quotas
pub mod Lifecycle
pub mod Depth
pub mod Enqueue
pub mod Worker
