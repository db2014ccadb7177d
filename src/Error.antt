-- ===== src/Error.antt =====
-- src/error.rs: the error types, and which scheduler errors mean that a lease is lost.
use kun.Prelude.{◌≡◌, refl, ◌⊎◌, inl, inr, String, Bool, true, false, Option, none, some}

pub data SchedulerError : Type 0 where
  message : String → SchedulerError
  lease_worker_mismatch : (lease_worker_id current_worker_id : String) → SchedulerError
  lease_ownership_conflict : (action task_id worker_id : String) → SchedulerError
  stale_lease : (action task_id worker_id lease_id : String) → SchedulerError
  inactive_lease : (action task_id : String) → SchedulerError

unfoldable pub is_lease_resolution_error : SchedulerError → Bool
is_lease_resolution_error (message m) = false
is_lease_resolution_error (lease_worker_mismatch l c) = true
is_lease_resolution_error (lease_ownership_conflict a t w) = true
is_lease_resolution_error (stale_lease a t w l) = true
is_lease_resolution_error (inactive_lease a t) = true

pub data SpiderError : Type 0 where
  request_build : String → SpiderError
  download : String → SpiderError
  parse : String → SpiderError
  rules : String → SpiderError
  plugin : String → SpiderError
  scheduler : SchedulerError → SpiderError
  engine : String → SpiderError

unfoldable pub scheduler_error : SpiderError → Option SchedulerError
scheduler_error (scheduler e) = some e
scheduler_error (request_build m) = none
scheduler_error (download m) = none
scheduler_error (parse m) = none
scheduler_error (rules m) = none
scheduler_error (plugin m) = none
scheduler_error (engine m) = none

unfoldable pub is_scheduler_lease_resolution_error : SpiderError → Bool
unfolding scheduler_error is_lease_resolution_error
is_scheduler_lease_resolution_error e = elim (scheduler_error e) [
  | none ↦ false
  | some s ↦ is_lease_resolution_error s
]

-- `Result<A, SpiderError>`.
pub data Result {ℓ} (A : Type ℓ) : Type ℓ where
  ok : A → Result A
  err : SpiderError → Result A

abbrev pub is_ok {ℓ} : {A : Type ℓ} → Result A → Bool
is_ok (ok a) = true
is_ok (err e) = false

pub Result-cases {ℓ} :
    {A : Type ℓ} (r : Result A) → ((e : SpiderError) × (r ≡ err e)) ⊎ ((a : A) × (r ≡ ok a))
Result-cases (ok a) = inr (a, refl)
Result-cases (err e) = inl (e, refl)
