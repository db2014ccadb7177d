-- ===== src/Middleware/Chain.antt =====
-- src/middleware/chain.rs, config.rs and traits.rs: the ordered chain of middleware around each stage.
-- A middleware is a record of its hooks; `W` is the state that they share, and a hook returns it and
-- its context, changed or not, beside its result.
use kun.Prelude.{
  ℤ, Bool, true, false, ◌&&◌, String, str_eq, Option, none, some, List, [], ◌∷◌, ◌++◌, keep,
  sort_by_key, if◌then◌else◌,
}
use kun.Error.{SpiderError, Result, ok, err}
use kun.Scheduler.Task.{TaskId}
use kun.Request.{Request, MiddlewareOptions, middleware_order, middleware_skips}
use kun.Middleware.Flow.{Admission, Download, Context}
pub mod Order
pub mod Skips

pub data Stage : Type 0 where
  enqueue download spider item : Stage

pub record Config (F : Type 0) : Type 0 where
  pub enabled : Bool
  pub stage : Stage
  pub order : ℤ
  pub options : MiddlewareOptions F

-- `context::Enqueue`.
pub record Enqueue (F : Type 0) : Type 0 where
  pub task_id : TaskId
  pub spider_name : Option String
  pub request : Request F

-- `context::Parse`.
pub record Parse (F Response : Type 0) : Type 0 where
  pub task_id : TaskId
  pub spider_name : Option String
  pub request : Request F
  pub response : Response

-- `context::Item`.
pub record ItemContext (F Response Item : Type 0) : Type 0 where
  pub task_id : TaskId
  pub spider_name : Option String
  pub request : Request F
  pub response : Option Response
  pub item : Item

-- `matches!(next, flow::Enqueue::Continue)`.
abbrev pub admits : Admission → Bool
admits Admission.continue = true
admits (Admission.drop r) = false

abbrev pub continues : Download → Bool
continues Download.continue = true
continues (Download.drop r) = false
continues (Download.delay r m) = false
continues (Download.retry r b) = false

-- The trait `Middleware`.
pub record Middleware (F Response Item W : Type 0) : Type 0 where
  pub before_enqueue : Enqueue F × W → (Enqueue F × W) × Result Admission
  pub after_enqueue : Enqueue F × W → (Enqueue F × W) × Result (Unit {0})
  pub before_download : Context F × W → (Context F × W) × Result Download
  pub after_download : (Context F × Response) × W → ((Context F × Response) × W) × Result Download
  pub download_error : SpiderError → Context F × W → (Context F × W) × Result Download
  pub before_parse : Parse F Response × W → (Parse F Response × W) × Result Admission
  pub parse_error : SpiderError → Parse F Response × W → (Parse F Response × W) × Result Admission
  pub after_parse : Parse F Response × W → (Parse F Response × W) × Result (Unit {0})
  pub before_item :
      ItemContext F Response Item × W → (ItemContext F Response Item × W) × Result Admission
  pub after_item :
      ItemContext F Response Item × W → (ItemContext F Response Item × W) × Result (Unit {0})

pub record Entry (F : Type 0) (M : Type 0) : Type 0 where
  pub key : String
  pub config : Config F
  pub middleware : M

abbrev pub same_stage : Stage → Stage → Bool
same_stage enqueue enqueue = true
same_stage download download = true
same_stage spider spider = true
same_stage item item = true
same_stage s k = false

abbrev or_else : Option ℤ → ℤ → ℤ
or_else none d = d
or_else (some a) d = a

module _ {S Flow : Type 0} where
  -- What the loop does with the answer of a hook.
  unfoldable pub next_flow :
      (Flow → Bool) → (S → S × Result Flow) → S × Result Flow → S × Result Flow
  next_flow goes_on rest (s, err e) = (s, err e)
  next_flow goes_on rest (s, ok f) = if goes_on f then rest s else (s, ok f)

module _ {F M : Type 0} where
  abbrev pub configured_order : Entry F M → ℤ
  configured_order e = e.config.order

  unfoldable pub push_boxed : String → Config F → M → List (Entry F M) → List (Entry F M)
  push_boxed key config middleware entries =
      sort_by_key configured_order
        (entries ++ record { key = key; config = config; middleware = middleware } ∷ [])

  -- The first entry of the key gets the new content, or a new entry comes last.
  unfoldable pub replace_or_add : String → Config F → M → List (Entry F M) → List (Entry F M)
  replace_or_add key config middleware [] =
      record { key = key; config = config; middleware = middleware } ∷ []
  replace_or_add key config middleware (e ∷ es) =
      if str_eq e.key key
      then record { key = e.key; config = config; middleware = middleware } ∷ es
      else e ∷ replace_or_add key config middleware es

  unfoldable pub upsert_boxed : String → Config F → M → List (Entry F M) → List (Entry F M)
  unfolding replace_or_add
  upsert_boxed key config middleware entries =
      sort_by_key configured_order (replace_or_add key config middleware entries)

  unfoldable pub matches_stage : Stage → Entry F M → Bool
  matches_stage kind e = e.config.enabled && same_stage e.config.stage kind

  -- The order of an entry for a request.
  unfoldable pub request_order : Request F → Entry F M → ℤ
  request_order r e = or_else (middleware_order r e.key) e.config.order

  unfoldable pub ordered_entries : List (Entry F M) → Stage → Request F → List (Entry F M)
  unfolding request_order matches_stage
  ordered_entries entries kind r = sort_by_key (request_order r) (keep (matches_stage kind) entries)

  module _ {S Flow : Type 0} (request : S → Request F) where
    -- The loop of a `before` or an `error` hook: the first answer that is not Continue ends it.
    unfoldable pub run_flow :
        Flow → (Flow → Bool) → (M → S → S × Result Flow) → List (Entry F M) → S → S × Result Flow
    unfolding next_flow
    run_flow goes goes_on hook [] s = (s, ok goes)
    run_flow goes goes_on hook (e ∷ es) s =
        let rest : S → S × Result Flow = λ s'. run_flow goes goes_on hook es s' in
        if middleware_skips (request s) e.key
        then rest s
        else next_flow goes_on rest (hook e.middleware s)

  -- The loop of an `after` hook.
  unfoldable pub run_all :
      {S : Type 0}
      → (S → Request F)
      → (M → S → S × Result (Unit {0}))
      → List (Entry F M)
      → S
      → S × Result (Unit {0})
  unfolding run_flow
  run_all request hook entries s = run_flow request tt (λ u. true) hook entries s

abbrev pub Chain : Type 0 → Type 0 → Type 0 → Type 0 → Type 0
Chain F Response Item W = List (Entry F (Middleware F Response Item W))

module _ {F Response Item W : Type 0} where
  unfoldable pub before_enqueue :
      Chain F Response Item W → Enqueue F × W → (Enqueue F × W) × Result Admission
  before_enqueue chain s =
      run_flow (λ t. t.0.request) Admission.continue admits (λ m. m.before_enqueue)
        (ordered_entries chain enqueue s.0.request) s

  unfoldable pub after_enqueue :
      Chain F Response Item W → Enqueue F × W → (Enqueue F × W) × Result (Unit {0})
  after_enqueue chain s =
      run_all (λ t. t.0.request) (λ m. m.after_enqueue) (ordered_entries chain enqueue s.0.request)
        s

  unfoldable pub before_download :
      Chain F Response Item W → Context F × W → (Context F × W) × Result Download
  before_download chain s =
      run_flow (λ t. t.0.request) Download.continue continues (λ m. m.before_download)
        (ordered_entries chain download s.0.request) s

  unfoldable pub after_download :
      Chain F Response Item W
      → (Context F × Response) × W
      → ((Context F × Response) × W) × Result Download
  after_download chain s =
      run_flow (λ t. t.0.0.request) Download.continue continues (λ m. m.after_download)
        (ordered_entries chain download s.0.0.request) s

  unfoldable pub download_error :
      Chain F Response Item W → SpiderError → Context F × W → (Context F × W) × Result Download
  download_error chain error s =
      run_flow (λ t. t.0.request) Download.continue continues (λ m. m.download_error error)
        (ordered_entries chain download s.0.request) s

  unfoldable pub before_parse :
      Chain F Response Item W → Parse F Response × W → (Parse F Response × W) × Result Admission
  before_parse chain s =
      run_flow (λ t. t.0.request) Admission.continue admits (λ m. m.before_parse)
        (ordered_entries chain spider s.0.request) s

  unfoldable pub parse_error :
      Chain F Response Item W
      → SpiderError
      → Parse F Response × W
      → (Parse F Response × W) × Result Admission
  parse_error chain error s =
      run_flow (λ t. t.0.request) Admission.continue admits (λ m. m.parse_error error)
        (ordered_entries chain spider s.0.request) s

  unfoldable pub after_parse :
      Chain F Response Item W → Parse F Response × W → (Parse F Response × W) × Result (Unit {0})
  after_parse chain s =
      run_all (λ t. t.0.request) (λ m. m.after_parse) (ordered_entries chain spider s.0.request) s

  unfoldable pub before_item :
      Chain F Response Item W
      → ItemContext F Response Item × W
      → (ItemContext F Response Item × W) × Result Admission
  before_item chain s =
      run_flow (λ t. t.0.request) Admission.continue admits (λ m. m.before_item)
        (ordered_entries chain item s.0.request) s

  unfoldable pub after_item :
      Chain F Response Item W
      → ItemContext F Response Item × W
      → (ItemContext F Response Item × W) × Result (Unit {0})
  after_item chain s =
      run_all (λ t. t.0.request) (λ m. m.after_item) (ordered_entries chain item s.0.request) s
