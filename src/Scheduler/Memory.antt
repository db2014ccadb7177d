-- ===== src/Scheduler/Memory.antt =====
-- src/scheduler/memory.rs: the in-memory scheduler.
pub mod Buckets
pub mod Leases
pub mod Calls
pub mod Control
pub mod Claims
pub mod Ready
pub mod Accepted
pub mod Run
pub mod Tally
pub mod Ledger
pub mod Conserve
pub mod Batches
pub mod Lifecycle
pub mod Restart
pub mod Sorted
pub mod Histories
mod Tests
