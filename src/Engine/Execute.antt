-- ===== src/Engine/Execute.antt =====
-- src/engine/task.rs: `TaskExecutor`, which takes a task through its download, its parsing and its
-- items. What it calls of other parts (the robots policy, the downloaders, the spider, the pipeline, the
-- validator and the stores) is a record of functions over the shared state. Traces are not modelled, and
-- neither are the permits of the semaphores.
use kun.Prelude.{
  ℕ, max, ◌&&◌, Bool, true, false, not, ◌||◌, String, Option, none, some, List, [], ◌∷◌, ◌++◌, keep,
  if◌then◌else◌,
}
use kun.Error.{SpiderError, Result, ok, err, engine}
use kun.Scheduler.Task.{TaskId}
use kun.Request.{Request, http, browser}
use kun.Robots.Cache.{Decision}
use kun.Middleware.Externals.{Externals}
use kun.Middleware.Flow.{Admission, Download, Context}
use kun.Middleware.Chain
use kun.Middleware.Chain.{Chain, Parse, ItemContext, admits, continues, next_flow}
use kun.Engine.Domains.{is_domain_allowed}
use kun.Engine.Task.{TaskOutcome}
use kun.Engine.Outcome.{download_context, map_download_to_task_outcome, map_parse_to_task_outcome}
pub mod Steps
pub mod Output
pub mod Run
pub mod Stored
pub mod Returns
pub mod Heartbeat
pub mod Renewal
mod Tests

pub record CallbackOutput (F Item : Type 0) : Type 0 where
  pub items : List Item
  pub requests : List (Request F)

pub record Failure (F Response : Type 0) : Type 0 where
  pub request : Request F
  pub response : Option Response
  pub error : SpiderError

-- What the statistics and the signal bus are told.
pub data Note (F Response Item : Type 0) : Type 0 where
  record_request record_response record_robots_disallow record_robots_delay : Note F Response Item
  record_pipeline_drop record_item record_store_error : Note F Response Item
  spider_error : Request F → Option Response → SpiderError → Note F Response Item
  response_received : Response → Note F Response Item
  item_scraped : Item → Note F Response Item

-- The parts that the executor calls. `write_all` is the write of the items to each of the stores, all
-- joined; `robots_check` has the user agent of the settings.
pub record Services (F Response Item W : Type 0) : Type 0 where
  pub obeys_robots : Bool
  pub robots_check : Request F → W → W × Result Decision
  pub http_fetch : Request F → W → W × Result Response
  pub browser_fetch : Request F → W → W × Result Response
  pub dispatch : Response → W → W × Result (CallbackOutput F Item)
  pub handle_error : String → Failure F Response → W → W × Result (CallbackOutput F Item)
  pub process : Item → W → (Item × W) × Result Bool
  pub validate : Item → W → W × Result (Unit {0})
  pub has_stores : Bool
  pub write_all : List Item → W → W × Result (Unit {0})

-- The executor of a step of a spider.
pub record TaskExecutor (F Response Item W : Type 0) : Type 0 where
  pub services : Services F Response Item W
  pub engine_middleware : Chain F Response Item W
  pub step_chain : Chain F Response Item W
  pub allowed_domains : List String
  pub spider_name : String

-- The shared state, and what was told.
pub record Work (F Response Item W : Type 0) : Type 0 where
  pub shared : W
  pub log : List (Note F Response Item)

-- How a run ends: with a success, or with another outcome. `TaskOutcome` of Engine/Task has the
-- follow-up requests with the identities that are drawn when they are queued.
pub data Ended (F Item : Type 0) : Type 0 where
  success : (items : List Item) (follows : List (Request F)) → Ended F Item
  other : TaskOutcome F → Ended F Item

module _ {F Response Item : Type 0} where
  -- The notes of the items that were stored.
  abbrev pub scraped : List Item → List (Note F Response Item)
  scraped [] = []
  scraped (item ∷ items) = record_item ∷ item_scraped item ∷ scraped items

module _ {F Response Item W : Type 0} where
  abbrev pub tell : List (Note F Response Item) → Work F Response Item W → Work F Response Item W
  tell notes w = record w { log = w.log ++ notes }

  abbrev pub with_shared : W → Work F Response Item W → Work F Response Item W
  with_shared shared w = record w { shared = shared }

  unfoldable pub error_outcome :
      Request F
      → Option Response
      → SpiderError
      → Work F Response Item W
      → Work F Response Item W × Ended F Item
  error_outcome request response error w =
      (tell (spider_error request response error ∷ []) w, other (TaskOutcome.error error))

  unfoldable pub dispatch_items_to_stores :
      TaskExecutor F Response Item W
      → List Item
      → Work F Response Item W
      → Work F Response Item W × Result (Unit {0})
  dispatch_items_to_stores self items w =
      if not self.services.has_stores
      then (w, err (engine "step execute resolved no stores for item dispatch"))
      else let (shared, result) = self.services.write_all items w.shared in
        (with_shared shared w, result)
