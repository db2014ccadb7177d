-- ===== src/Scheduler.antt =====
-- src/scheduler: tasks and leases, the in-memory scheduler, its checkpoints and its read side.
pub mod Task
pub mod Worker
pub mod Runtime
pub mod Checkpoint
pub mod Traits
pub mod Memory
pub mod Persisted
pub mod Snapshot
mod Tests
