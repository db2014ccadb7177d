-- ===== src/Engine/Execute/Steps.antt =====
-- src/engine/task.rs: a stage of the middleware of the engine, and then of the step.
use kun.Prelude.{true}
use kun.Error.{SpiderError, Result}
use kun.Middleware.Flow.{Admission, Download, Context}
use kun.Middleware.Chain
use kun.Middleware.Chain.{Chain, Parse, ItemContext, admits, continues, next_flow}

module _ {F Response Item W : Type 0} where
  unfoldable pub run_middleware_before_download :
      (engine step : Chain F Response Item W) → Context F × W → (Context F × W) × Result Download
  run_middleware_before_download engine step s =
      next_flow continues (Chain.before_download step) (Chain.before_download engine s)

  unfoldable pub run_middleware_after_download :
      (engine step : Chain F Response Item W)
      → (Context F × Response) × W
      → ((Context F × Response) × W) × Result Download
  run_middleware_after_download engine step s =
      next_flow continues (Chain.after_download step) (Chain.after_download engine s)

  unfoldable pub run_middleware_download_error :
      (engine step : Chain F Response Item W)
      → SpiderError
      → Context F × W
      → (Context F × W) × Result Download
  run_middleware_download_error engine step error s =
      next_flow continues (Chain.download_error step error) (Chain.download_error engine error s)

  unfoldable pub run_middleware_before_parse :
      (engine step : Chain F Response Item W)
      → Parse F Response × W
      → (Parse F Response × W) × Result Admission
  run_middleware_before_parse engine step s =
      next_flow admits (Chain.before_parse step) (Chain.before_parse engine s)

  unfoldable pub run_middleware_parse_error :
      (engine step : Chain F Response Item W)
      → SpiderError
      → Parse F Response × W
      → (Parse F Response × W) × Result Admission
  run_middleware_parse_error engine step error s =
      next_flow admits (Chain.parse_error step error) (Chain.parse_error engine error s)

  unfoldable pub run_middleware_after_parse :
      (engine step : Chain F Response Item W)
      → Parse F Response × W
      → (Parse F Response × W) × Result (Unit {0})
  run_middleware_after_parse engine step s =
      next_flow (λ u. true) (Chain.after_parse step) (Chain.after_parse engine s)

  unfoldable pub run_middleware_before_item :
      (engine step : Chain F Response Item W)
      → ItemContext F Response Item × W
      → (ItemContext F Response Item × W) × Result Admission
  run_middleware_before_item engine step s =
      next_flow admits (Chain.before_item step) (Chain.before_item engine s)

  unfoldable pub run_middleware_after_item :
      (engine step : Chain F Response Item W)
      → ItemContext F Response Item × W
      → (ItemContext F Response Item × W) × Result (Unit {0})
  run_middleware_after_item engine step s =
      next_flow (λ u. true) (Chain.after_item step) (Chain.after_item engine s)
