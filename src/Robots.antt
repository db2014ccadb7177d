-- ===== src/Robots.antt =====
-- src/robots.rs and src/robots/cache.rs: what robots.txt allows, and when.
pub mod Rules
pub mod Parse
pub mod Sites
pub mod Cache
pub mod Memory
mod Tests
