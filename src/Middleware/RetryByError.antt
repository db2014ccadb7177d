-- ===== src/Middleware/RetryByError.antt =====
-- src/middleware/retry_by_error.rs: downloads that fail are tried again. A retry that the middleware
-- asks for does not depend on the error.
use kun.Prelude.{ℕ, Bool, ltb, Option, none, some, List, if◌then◌else◌}
use kun.Request.{Request, MiddlewareOptions, middleware_options, middleware_skips}
use kun.Middleware.Externals.{Externals}
use kun.Middleware.Flow.{Context, Download, continue, retry}
use kun.Middleware.RetryOptions.{retry_times, parse_count, parse_backoff, element_or_last}
use kun.Error.{Result, ok}

pub record RetryByError : Type 0 where
  pub count : ℕ
  pub backoff_steps : List ℕ

module _ (x : Externals) where
  unfoldable pub new_retry_by_error : MiddlewareOptions x.float.F → RetryByError
  new_retry_by_error options = record {
    count = elim (parse_count x options) [ none ↦ 1 | some n ↦ n ];
    backoff_steps = parse_backoff x options;
  }

  unfoldable pub effective_count : RetryByError → Request x.float.F → ℕ
  effective_count self r =
      let own : Option ℕ = elim (middleware_options r "retry_by_error") [
        | none ↦ none
        | some options ↦ parse_count x options
      ] in
      elim own [ none ↦ self.count | some n ↦ n ]

  unfoldable pub effective_backoff : RetryByError → Request x.float.F → List ℕ
  effective_backoff self r = elim (middleware_options r "retry_by_error") [
    | none ↦ self.backoff_steps
    | some options ↦ parse_backoff x options
  ]

  unfoldable pub should_retry : RetryByError → Request x.float.F → Bool
  should_retry self r = ltb (retry_times x r) (effective_count self r)

  unfoldable pub backoff : RetryByError → Request x.float.F → Option ℕ
  backoff self r = element_or_last (retry_times x r) (effective_backoff self r)

  unfoldable pub download_error : RetryByError → Context x.float.F → Result Download
  download_error self c =
      if middleware_skips c.request "retry_by_error"
      then ok continue
      else if should_retry self c.request
      then ok (retry "retry_by_error" (backoff self c.request))
      else ok continue
