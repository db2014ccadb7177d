-- ===== src/Scheduler/Snapshot.antt =====
-- src/scheduler/snapshot.rs: the overview of several scopes, and the part of a snapshot that it reads.
-- The tasks and the times of a snapshot are not modelled. A `usize` has 64 bits and wraps around.
use kun.Prelude.{ℕ, ◌+◌, ◌%◌, ◌^◌, Bool, String, List, [], ◌∷◌, any, count, length, if◌then◌else◌}
use kun.Scheduler.Task.{saturating_add}
use kun.Scheduler.Checkpoint.{Counts, counts_has_pending}
pub mod Totals

pub record WorkerSnapshot : Type 0 where
  pub worker_id : String
  pub is_stale : Bool
  pub inflight_count : ℕ
  pub active_lease_count : ℕ

pub record Snapshot : Type 0 where
  pub scope : String
  pub is_paused : Bool
  pub counts : Counts
  pub worker_ids : List String
  pub active_lease_count : ℕ
  pub reclaimed_total : ℕ
  pub workers : List WorkerSnapshot

pub record Overview : Type 0 where
  pub scope_count : ℕ
  pub pending_scope_count : ℕ
  pub paused_scope_count : ℕ
  pub stale_scope_count : ℕ
  pub counts : Counts
  pub worker_count : ℕ
  pub stale_worker_count : ℕ
  pub active_lease_count : ℕ
  pub reclaimed_total : ℕ

abbrev pub empty_overview : Overview
empty_overview = record {
  scope_count = 0;
  pending_scope_count = 0;
  paused_scope_count = 0;
  stale_scope_count = 0;
  counts = record { ready = 0; delayed = 0; inflight = 0 };
  worker_count = 0;
  stale_worker_count = 0;
  active_lease_count = 0;
  reclaimed_total = 0;
}

abbrev pub stale_worker : WorkerSnapshot → Bool
stale_worker w = w.is_stale

-- One round of the loop.
unfoldable pub add_snapshot : Overview → Snapshot → Overview
add_snapshot o s = record {
  scope_count = (o.scope_count + 1) % 2 ^ 64;
  pending_scope_count =
      (o.pending_scope_count + (if counts_has_pending s.counts then 1 else 0)) % 2 ^ 64;
  paused_scope_count = (o.paused_scope_count + (if s.is_paused then 1 else 0)) % 2 ^ 64;
  stale_scope_count =
      (o.stale_scope_count + (if any stale_worker s.workers then 1 else 0)) % 2 ^ 64;
  counts = record {
    ready = (o.counts.ready + s.counts.ready) % 2 ^ 64;
    delayed = (o.counts.delayed + s.counts.delayed) % 2 ^ 64;
    inflight = (o.counts.inflight + s.counts.inflight) % 2 ^ 64;
  };
  worker_count = (o.worker_count + length s.workers) % 2 ^ 64;
  stale_worker_count = (o.stale_worker_count + count stale_worker s.workers) % 2 ^ 64;
  active_lease_count = (o.active_lease_count + s.active_lease_count) % 2 ^ 64;
  reclaimed_total = saturating_add o.reclaimed_total s.reclaimed_total;
}

unfoldable pub add_snapshots : Overview → List Snapshot → Overview
unfolding add_snapshot
add_snapshots o [] = o
add_snapshots o (s ∷ ss) = add_snapshots (add_snapshot o s) ss

-- `Overview::from_snapshots`.
unfoldable pub from_snapshots : List Snapshot → Overview
unfolding add_snapshots
from_snapshots snapshots = add_snapshots empty_overview snapshots
