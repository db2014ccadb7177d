-- ===== src/Scheduler/Checkpoint.antt =====
-- src/scheduler/checkpoint.rs: the three buckets of a scheduler as data, and their sizes.
use kun.Prelude.{ℕ, ◌+◌, ◌%◌, ◌^◌, Bool, List, length, ltb}
use kun.Scheduler.Task.{Task}

pub record Checkpoint {ℓ} (R : Type ℓ) : Type ℓ where
  pub ready : List (Task R)
  pub delayed : List (Task R)
  pub inflight : List (Task R)

pub record Counts : Type 0 where
  pub ready : ℕ
  pub delayed : ℕ
  pub inflight : ℕ

unfoldable pub total : Counts → ℕ
total c = (c.ready + c.delayed + c.inflight) % 2 ^ 64

unfoldable pub counts_has_pending : Counts → Bool
unfolding total
counts_has_pending c = ltb 0 (total c)

module _ {ℓ} {R : Type ℓ} where
  unfoldable pub checkpoint_counts : Checkpoint R → Counts
  checkpoint_counts c = record {
    ready = length c.ready;
    delayed = length c.delayed;
    inflight = length c.inflight;
  }

  unfoldable pub checkpoint_has_pending : Checkpoint R → Bool
  unfolding checkpoint_counts counts_has_pending
  checkpoint_has_pending c = counts_has_pending (checkpoint_counts c)
