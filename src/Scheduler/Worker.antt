-- ===== src/Scheduler/Worker.antt =====
-- src/scheduler/worker.rs, and the heartbeat default of src/scheduler/memory.rs. A `SignedDuration`
-- is the integer number of its nanoseconds.
use kun.Prelude.{ℕ, ◌+◌, ◌*◌, ◌/◌, ◌^◌, ◌-◌, max, min, String, Option, none, some, ℤ, pos, negsuc}

abbrev pub SignedDuration : Type 0
SignedDuration = ℤ

pub record Worker : Type 0 where
  pub worker_id : String
  pub lease_timeout_override : Option (Option SignedDuration)
  pub heartbeat_interval_override : Option SignedDuration

unfoldable pub new_worker : String → Worker
new_worker id = record {
  worker_id = id;
  lease_timeout_override = none;
  heartbeat_interval_override = none;
}

unfoldable pub with_lease_timeout : Worker → SignedDuration → Worker
with_lease_timeout w timeout = record w { lease_timeout_override = some (some timeout) }

unfoldable pub with_heartbeat_interval : Worker → SignedDuration → Worker
with_heartbeat_interval w interval = record w { heartbeat_interval_override = some interval }

unfoldable pub without_lease_timeout : Worker → Worker
without_lease_timeout w = record w {
  lease_timeout_override = some none;
  heartbeat_interval_override = none;
}

unfoldable pub effective_lease_timeout : Worker → Option SignedDuration → Option SignedDuration
effective_lease_timeout w default = elim w.lease_timeout_override [
  | none ↦ default
  | some override ↦ override
]

unfoldable pub effective_heartbeat_interval : Worker → Option SignedDuration → Option SignedDuration
effective_heartbeat_interval w default = elim w.heartbeat_interval_override [
  | none ↦ default
  | some interval ↦ some interval
]

-- `(lease_timeout_millis / 2).max(1)`, as a duration; a negative timeout halves to at most 0.
unfoldable pub default_heartbeat_interval : ℤ → SignedDuration
default_heartbeat_interval (pos millis) = pos (min (max (millis / 2) 1) (2 ^ 63 - 1) * 10 ^ 6)
default_heartbeat_interval (negsuc k) = pos (10 ^ 6)

-- `as_millis`: whole milliseconds, towards zero.
unfoldable pub as_millis : SignedDuration → ℤ
as_millis (pos n) = pos (n / 10 ^ 6)
as_millis (negsuc k) = elim ((k + 1) / 10 ^ 6) [ ℕ.zero ↦ pos 0 | ℕ.suc m ↦ negsuc m ]
