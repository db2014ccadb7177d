-- ===== src/Engine.antt =====
-- src/engine.rs and src/engine: the engine around the scheduler and the middleware.
pub mod Domains
pub mod Task
pub mod Outcome
pub mod Execute
mod Tests
