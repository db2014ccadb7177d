-- ===== src/Engine/Outcome/Tests.antt =====
-- Runs of the retries (src/engine/task.rs with the retry middleware), and the theorems at them.
use kun.Prelude.{◌≡◌, refl, some, [], ◌∷◌, arith}
use kun.Prelude.Map
use kun.Middleware.Tests.{externals, page}
use kun.Middleware.RetryByError
use kun.Middleware.RetryByError.{RetryByError}
use kun.Middleware.RetryByStatus
use kun.Middleware.RetryByStatus.{RetryByStatus}
use kun.Request.{middleware_skips, middleware_override, middleware_options}
use kun.Engine.Outcome.Retries.{
  CountsExactly, requeues, requeues-download_error, requeues-after_download,
}

counts : CountsExactly externals
counts = (λ n small. omega arith, λ n small. refl)

abbrev twice : RetryByError
twice = record { count = 2; backoff_steps = 100 ∷ [] }

abbrev on_busy : RetryByStatus
on_busy = record { count = 2; statuses = 429 ∷ 503 ∷ []; backoff_steps = [] }

requeues-download_error_example :
    requeues externals "spider" "t"
      (RetryByError.download_error externals twice)
      (1 ∷ 2 ∷ 3 ∷ [])
      page
    ≡ some 2
unfolding Map.lookup middleware_skips middleware_override middleware_options
    RetryByError.effective_count
requeues-download_error_example =
    requeues-download_error externals counts twice "spider" "t" (1 ∷ 2 ∷ 3 ∷ []) page refl refl
      (omega arith) (omega arith)

requeues-after_download_example :
    requeues externals "spider" "t"
      (λ c. RetryByStatus.after_download externals on_busy c 503)
      (1 ∷ 2 ∷ 3 ∷ [])
      page
    ≡ some 2
unfolding Map.lookup middleware_skips middleware_override middleware_options
    RetryByStatus.effective_count RetryByStatus.effective_statuses
requeues-after_download_example =
    requeues-after_download externals counts on_busy 503 "spider" "t" (1 ∷ 2 ∷ 3 ∷ []) page refl
      refl refl (omega arith) (omega arith)
