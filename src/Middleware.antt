-- ===== src/Middleware.antt =====
-- src/middleware: the middleware that the engine runs around its stages.
pub mod Flow
pub mod Externals
pub mod Bucket
pub mod Shared
pub mod RateLimit
pub mod Concurrency
pub mod Interval
pub mod AutoThrottle
pub mod RetryOptions
pub mod RetryByError
pub mod RetryByStatus
pub mod Dedup
pub mod Chain
pub mod Tests
