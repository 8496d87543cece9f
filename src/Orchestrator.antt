-- ===== src/Orchestrator.antt =====
-- rolen-orchestrator: the write queue.
pub mod Queue
pub mod Apply
pub mod Dag
pub mod Questions
pub mod Scheduler
