-- ===== src/Scheduler.antt =====
-- The read-only request scheduler (crates/copytrade-core/src/scheduler.rs).
pub mod Request
pub mod Policy
pub mod Bucket
pub mod Queue
pub mod Retry
pub mod Methods
pub mod Snapshots
pub mod Samples
mod Tests
