-- ===== src/Lib.antt =====
-- A model of the core of halo-spider (`kun`), a crawler framework in Rust: the in-memory task
-- scheduler with its leases and checkpoints, the middleware that decides whether and when a request may
-- be downloaded, and the robots policies of the sites.
--
-- The engine claims a task from a scheduler, runs the middleware chain around its download, and
-- completes, requeues or replaces the task under the lease of the claim. The files follow the source:
--   Error                  src/error.rs: the errors, and which of them mean a lost lease.
--   Value, Request         src/value.rs and src/request.rs: dynamic values, and what the scheduler and
--                          the middleware read of a request. Floats are a parameter.
--   Scheduler/Task, Worker, Runtime, Checkpoint, Traits
--                          src/scheduler/task.rs, worker.rs, runtime.rs, checkpoint.rs, traits.rs.
--   Scheduler/Memory       src/scheduler/memory.rs. Buckets is `State`; Leases is the test of a lease;
--                          Calls and Control are the methods of `Scheduler` and `Control` for
--                          `Memory`, one function each, with the methods' names; Run makes them data
--                          and runs histories of them. Tally, Ledger and Conserve count tasks through
--                          a history; Ready, Sorted and Histories are about the order of the ready
--                          queue; Claims, Accepted and Lifecycle about leases; Batches compares the
--                          batch calls with the loops of the trait; Restart is about checkpoints and
--                          released tasks.
--   Scheduler/Persisted    src/scheduler/checkpoint/memory.rs: each call, then a save.
--   Scheduler/Snapshot     src/scheduler/snapshot.rs: the overview of several scopes.
--   Middleware/Flow        src/engine/flow.rs and src/engine/context.rs.
--   Middleware/Bucket      src/middleware/bucket.rs: the key of the bucket of a request.
--   Middleware/Shared      the shared stores of bucket states, and the reading of numeric options.
--   Middleware/RateLimit, Concurrency, Interval
--                          src/middleware/rate_limit.rs, concurrency.rs, interval.rs.
--   Middleware/AutoThrottle src/middleware/auto_throttle.rs; Backoff follows the calls of a bucket.
--   Middleware/RetryOptions, RetryByError, RetryByStatus
--                          src/middleware/retry_by_error.rs and retry_by_status.rs. The functions that
--                          both files have in the same words are in RetryOptions.
--   Middleware/Dedup       src/middleware/dedup: the fingerprints; Memory is the exact set, Bloom the
--                          filter, whose bits are those of Prelude/Bits.
--   Middleware/Chain       src/middleware/chain.rs, config.rs and traits.rs.
--   Engine/Domains         the domain filter of src/engine.rs.
--   Engine/Task            src/engine/task.rs: `apply_task_run` and what it calls, with the memory
--                          scheduler; the calls of the statistics and of the signal bus are a log. The
--                          step "parse", which the source expects in its map, is a field of its own.
--                          Queue puts a request behind the hooks into the scheduler; Asked, Lost and
--                          Commit are about the scheduler's calls in a run.
--   Engine/Outcome         src/engine/task.rs: what an answer of the middleware makes of a task; Retries
--                          follows a request through its retries.
--   Engine/Execute         src/engine/task.rs: `TaskExecutor`. Steps are the calls of the middleware,
--                          Output is what is done with items, Run is `run`, Heartbeat the timer beside
--                          it and Renewal that timer over the memory scheduler; Stored and Returns are
--                          about the outcome and the announced items. Robots, downloaders, spider,
--                          pipeline, validator and stores are functions of a record over one shared state, so a write to several stores is one call. A run that
--                          would reach an unreachable arm of the source has no outcome.
--   Robots                 src/robots.rs and src/robots/cache.rs. Parse reads a robots.txt, Rules is what
--                          its groups say of a URL, Sites the policies that the program sets itself,
--                          Cache the kept policies, and Memory the calls of the trait `Robot`, with
--                          the answer of the server as an argument.
--
-- A scheduler is a record and a call is a function from it to the scheduler after the call and the
-- result, errors included. A call of the source holds the mutex from its first access of the state to
-- its end, so calls of several threads are a sequence of calls; runtime events have a mutex of their
-- own, which the calls take after the first, and the model appends them in the same step. The clock is
-- read once in a call and is an argument, in milliseconds. The lease counter of the process is a field.
-- A poisoned lock is not modelled. A call of the robots policies is one step too, though the source
-- awaits the fetch between its locks, so calls that overlap are not modelled. A `BTreeMap` is an association list, whose order is not used. The
-- request of a task is a type parameter of the scheduler. Counters of machine width wrap or saturate
-- only where this is written; the lengths of the queues and the lease counter are not bounded.
--
-- The recursion of every loop is on a list or on the number of rounds that are left. The fuel of the
-- two text functions is the length of the text and the number to print, of which each round takes
-- something away.
--
-- Not modelled: the engine's main loop and its semaphores, the cookie, proxy and
-- cache middleware, the rules language, statistics and signals, and `Memory::build_snapshot`; the SQLite
-- and Redis schedulers, whose steps are SQL and Lua; downloaders, parsers, stores, settings and plugins,
-- which are input and output or calls of libraries. The URL parser, regular expressions, floats, hashes,
-- the printing of numbers and of JSON, and the places where checkpoints and robots policies are kept are
-- parameters; a float is only asked to count exactly up to 2^53, and only where that is written.
pub mod Prelude
pub mod Error
pub mod Scheduler
pub mod Value
pub mod Request
pub mod Middleware
pub mod Engine
pub mod Robots
