-- ===== src/Middleware/RetryByStatus.antt =====
-- src/middleware/retry_by_status.rs: downloads with a status of the options are tried again. The hook
-- reads the status of the response only.
use kun.Prelude.{ℕ, Bool, ◌&&◌, ◌==◌, any, ltb, Option, none, some, List, if◌then◌else◌}
use kun.Request.{Request, MiddlewareOptions, middleware_options, middleware_skips}
use kun.Middleware.Externals.{Externals}
use kun.Middleware.Flow.{Context, Download, continue, retry}
use kun.Middleware.RetryOptions.{
  retry_times, parse_count, parse_statuses, parse_backoff, element_or_last,
}
use kun.Error.{Result, ok}

pub record RetryByStatus : Type 0 where
  pub count : ℕ
  pub statuses : List ℕ
  pub backoff_steps : List ℕ

module _ (x : Externals) where
  unfoldable pub new_retry_by_status : MiddlewareOptions x.float.F → RetryByStatus
  new_retry_by_status options = record {
    count = elim (parse_count x options) [ none ↦ 1 | some n ↦ n ];
    statuses = parse_statuses x options;
    backoff_steps = parse_backoff x options;
  }

  unfoldable pub effective_count : RetryByStatus → Request x.float.F → ℕ
  effective_count self r =
      let own : Option ℕ = elim (middleware_options r "retry_by_status") [
        | none ↦ none
        | some options ↦ parse_count x options
      ] in
      elim own [ none ↦ self.count | some n ↦ n ]

  unfoldable pub effective_statuses : RetryByStatus → Request x.float.F → List ℕ
  effective_statuses self r = elim (middleware_options r "retry_by_status") [
    | none ↦ self.statuses
    | some options ↦ parse_statuses x options
  ]

  unfoldable pub effective_backoff : RetryByStatus → Request x.float.F → List ℕ
  effective_backoff self r = elim (middleware_options r "retry_by_status") [
    | none ↦ self.backoff_steps
    | some options ↦ parse_backoff x options
  ]

  unfoldable pub should_retry : RetryByStatus → Request x.float.F → (status : ℕ) → Bool
  should_retry self r status =
      any (λ s. s == status) (effective_statuses self r)
      && ltb (retry_times x r) (effective_count self r)

  unfoldable pub backoff : RetryByStatus → Request x.float.F → Option ℕ
  backoff self r = element_or_last (retry_times x r) (effective_backoff self r)

  unfoldable pub after_download : RetryByStatus → Context x.float.F → (status : ℕ) → Result Download
  after_download self c status =
      if middleware_skips c.request "retry_by_status"
      then ok continue
      else if should_retry self c.request status
      then ok (retry "retry_by_status" (backoff self c.request))
      else ok continue
