-- ===== src/Jobs.antt =====
-- The background workers (src/services/lifecycle-jobs.ts over
-- src/repositories/lifecycle-jobs.ts). Each batch is one transaction with its own clock; a worker
-- that overlaps another skips the rows that the other has locked, so batches run one after another.
pub mod Expiry
pub mod Exhaustion
pub mod Notifications
pub mod Reminders
pub mod Schedule
pub mod Planned
pub mod Scheduling
pub mod Delivery
pub mod Completion
pub mod Finality
pub mod Cleanup
pub mod Orphans
pub mod Promotions
pub mod Windows
mod Tests
