-- ===== src/Scheduler/Snapshot/Totals.antt =====
-- src/scheduler/snapshot.rs: what the counters of an overview say.
use mathlib.Core.Path.{subst}
use kun.Scheduler.Task.{saturating_add}
use kun.Prelude.{
  ℕ, Bool, refl, sym, length, ltb, ◌+◌, ◌%◌, ◌^◌, if◌then◌else◌, true, count-le-length, ◌≤◌, ◌<◌,
  ◌≡◌, List, [], ◌∷◌, any, count, arith,
}
use kun.Scheduler.Checkpoint.{Counts, total, counts_has_pending}
use kun.Scheduler.Snapshot.{
  Snapshot, Overview, WorkerSnapshot, stale_worker, add_snapshot, add_snapshots, from_snapshots,
  empty_overview,
}

any-count : (ws : List WorkerSnapshot) → any stale_worker ws ≡ true → 0 < count stale_worker ws
any-count [] h = absurd (ground arith)
any-count (w ∷ ws) h = ground (arith, any-count ws)

-- The tasks that an overview counts, and those of the snapshots, with their workers.
abbrev pub counted : Counts → ℕ
counted c = c.ready + c.delayed + c.inflight

abbrev pub tasks_of : List Snapshot → ℕ
tasks_of [] = 0
tasks_of (s ∷ ss) = counted s.counts + tasks_of ss

abbrev pub workers_of : List Snapshot → ℕ
workers_of [] = 0
workers_of (s ∷ ss) = length s.workers + workers_of ss

-- What holds of an overview.
abbrev pub IsConsistent : Overview → Type 0
IsConsistent o =
    (o.pending_scope_count ≤ o.scope_count)
    × (o.paused_scope_count ≤ o.scope_count)
    × (o.stale_scope_count ≤ o.scope_count)
    × (o.stale_scope_count ≤ o.stale_worker_count)
    × (o.stale_worker_count ≤ o.worker_count)
    × (o.pending_scope_count ≤ counted o.counts)
    × ((0 < counted o.counts) → (0 < o.pending_scope_count))

-- The overview has room for the snapshots.
abbrev Fits : Overview → List Snapshot → Type 0
Fits o ss =
    (o.scope_count + length ss < 2 ^ 64)
    × (o.worker_count + workers_of ss < 2 ^ 64)
    × (counted o.counts + tasks_of ss < 2 ^ 64)

exact : (n : ℕ) → n < 2 ^ 64 → n % 2 ^ 64 ≡ n
exact n h = omega arith

-- One round of the loop where nothing wraps around but the leases.
abbrev summed : Overview → Snapshot → Overview
summed o s = record {
  scope_count = o.scope_count + 1;
  pending_scope_count = o.pending_scope_count + (if ltb 0 (counted s.counts) then 1 else 0);
  paused_scope_count = o.paused_scope_count + (if s.is_paused then 1 else 0);
  stale_scope_count = o.stale_scope_count + (if any stale_worker s.workers then 1 else 0);
  counts = record {
    ready = o.counts.ready + s.counts.ready;
    delayed = o.counts.delayed + s.counts.delayed;
    inflight = o.counts.inflight + s.counts.inflight;
  };
  worker_count = o.worker_count + length s.workers;
  stale_worker_count = o.stale_worker_count + count stale_worker s.workers;
  active_lease_count = (o.active_lease_count + s.active_lease_count) % 2 ^ 64;
  reclaimed_total = saturating_add o.reclaimed_total s.reclaimed_total;
}

one_of : (b : Bool) → (if b then 1 else 0) ≤ 1
one_of b = ground arith

add_snapshot-summed :
    (o : Overview) (s : Snapshot) (ss : List Snapshot)
    → IsConsistent o
    → Fits o (s ∷ ss)
    → add_snapshot o s ≡ summed o s
unfolding add_snapshot total counts_has_pending
add_snapshot-summed o s ss (a, b, c, d, e, f, g) (scopes, workers, tasks) =
    let few = count-le-length stale_worker s.workers in
    rw
      (
        exact (counted s.counts) (omega arith),
        exact (o.scope_count + 1) (omega arith),
        exact (o.pending_scope_count + (if ltb 0 (counted s.counts) then 1 else 0))
            (omega (arith, one_of (ltb 0 (counted s.counts)))),
        exact (o.paused_scope_count + (if s.is_paused then 1 else 0))
            (omega (arith, one_of s.is_paused)),
        exact (o.stale_scope_count + (if any stale_worker s.workers then 1 else 0))
            (omega (arith, one_of (any stale_worker s.workers))),
        exact (o.counts.ready + s.counts.ready) (omega arith),
        exact (o.counts.delayed + s.counts.delayed) (omega arith),
        exact (o.counts.inflight + s.counts.inflight) (omega arith),
        exact (o.worker_count + length s.workers) (omega arith),
        exact (o.stale_worker_count + count stale_worker s.workers) (omega (arith, few)),
      )
      refl

summed-IsConsistent : (o : Overview) (s : Snapshot) → IsConsistent o → IsConsistent (summed o s)
summed-IsConsistent o s (a, b, c, d, e, f, g) =
    let stale = any-count s.workers in
    let few = count-le-length stale_worker s.workers in
    (
      ground (arith, a),
      ground (arith, b),
      ground (arith, c),
      ground (arith, d, stale),
      ground (arith, e, few),
      ground (arith, f),
      λ h. ground (arith, g),
    )

add_snapshots-IsConsistent :
    (o : Overview) (ss : List Snapshot)
    → IsConsistent o
    → Fits o ss
    → IsConsistent (add_snapshots o ss)
unfolding add_snapshots
add_snapshots-IsConsistent o [] h fits = h
add_snapshots-IsConsistent o (s ∷ ss) h fits =
    subst (λ o'. IsConsistent (add_snapshots o' ss)) (sym (add_snapshot-summed o s ss h fits))
      (add_snapshots-IsConsistent (summed o s) ss (summed-IsConsistent o s h)
        (omega arith, omega arith, omega arith))

-- While the scopes, their workers and their tasks each number less than 2^64, no scope counter of the
-- overview exceeds the number of scopes, a stale scope has a stale worker and a stale worker is a
-- worker; and some scope is counted as pending exactly when a task is counted.
pub from_snapshots-IsConsistent :
    (ss : List Snapshot)
    → length ss < 2 ^ 64
    → workers_of ss < 2 ^ 64
    → tasks_of ss < 2 ^ 64
    → IsConsistent (from_snapshots ss)
unfolding from_snapshots
from_snapshots-IsConsistent ss scopes workers tasks =
    add_snapshots-IsConsistent empty_overview ss
      (
        omega arith,
        omega arith,
        omega arith,
        omega arith,
        omega arith,
        omega arith,
        λ h. absurd (ground arith),
      )
      (omega arith, omega arith, omega arith)
