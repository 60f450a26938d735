-- ===== src/Agents.antt =====
-- The crate af/crates/af-agents: signals, workflow mutation, context compaction.
pub mod Signals
pub mod Workflow
pub mod Chat
pub mod Compaction
pub mod ThreadMemory
pub mod Preflight
pub mod MessageStore
pub mod Redaction
pub mod Trimming
pub mod Summaries
