-- ===== src/Middleware/AutoThrottle/Tests.antt =====
-- Runs of src/middleware/auto_throttle.rs, and the theorem at a bucket.
use kun.Prelude.{ℕ, ◌≡◌, ◌≤◌, ◌+◌, ◌*◌, refl, [], ◌∷◌, arith}
use kun.Middleware.Tests.{externals}
use kun.Middleware.Flow.{delay}
use kun.Middleware.AutoThrottle.{start_slot, finish_slot, with_delay}
use kun.Middleware.AutoThrottle.Hooks.{error_delay, success_delay}
use kun.Middleware.AutoThrottle.Backoff.{starts, ends, after_calls, holds_back}

-- An error doubles the delay, within its bounds; a response moves it half the way to its latency.
error_run : error_delay externals 30 5 1000 2 ≡ 60
unfolding error_delay
error_run = refl

success_run : success_delay externals 30 90 1 5 1000 ≡ 60
unfolding success_delay
success_run = refl

holds_back_example :
    (millis : ℕ) × ((start_slot 0 104 (
        after_calls
          (starts 0 101 ∷ ends (λ d. d) 0 1 9 102 ∷ [])
          (finish_slot (λ d. 2 * d) 0 5 1000 100 (with_delay 0)))).1
      ≡ delay "auto_throttle" millis)
    × (100 + 5 ≤ 104 + millis)
holds_back_example =
    holds_back (λ d. 2 * d) 0 5 1000 100 (with_delay 0)
      (starts 0 101 ∷ ends (λ d. d) 0 1 9 102 ∷ []) 0 104 (omega arith) (omega arith)
      (omega arith, (omega arith, tt)) (omega arith)
