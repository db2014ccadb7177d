-- ===== src/Request.antt =====
-- src/request.rs: the fields of a request that the scheduler, the engine and the modelled middleware
-- read or write, and its middleware overrides. An errback is the name of its callback. The other
-- fields (headers, cookies, proxy, session, callback and the HTTP and browser settings) are left out.
use kun.Prelude.{ℕ, ℤ, Bool, true, false, String, Option, none, some, List, [], ◌∷◌}
use kun.Prelude.Map
use kun.Prelude.Map.{Map}
use kun.Scheduler.Task.{RequestOps}
use kun.Value.{Value}

pub data RequestMode : Type 0 where
  http browser : RequestMode

abbrev pub MiddlewareOptions : Type 0 → Type 0
MiddlewareOptions F = Map (Value F)

pub record MiddlewareUse (F : Type 0) : Type 0 where
  pub options : MiddlewareOptions F
  pub order : Option ℤ

pub data MiddlewareOverride (F : Type 0) : Type 0 where
  uses : MiddlewareUse F → MiddlewareOverride F
  skips : MiddlewareOverride F

pub record Request (F : Type 0) : Type 0 where
  pub url : String
  pub method : String
  pub mode : RequestMode
  pub body : Option (List ℕ)
  pub priority : ℤ
  pub meta : Map (Value F)
  pub errback : Option String
  pub skip_domain_filter : Bool
  pub middleware : Map (MiddlewareOverride F)

module _ {F : Type 0} where
  unfoldable pub middleware_override : Request F → String → Option (MiddlewareOverride F)
  unfolding Map.lookup
  middleware_override r name = Map.lookup name r.middleware

  unfoldable pub middleware_options : Request F → String → Option (MiddlewareOptions F)
  middleware_options r name = elim (middleware_override r name) [
    | none ↦ none
    | some o ↦ elim o [ uses config ↦ some config.options | skips ↦ none ]
  ]

  unfoldable pub middleware_order : Request F → String → Option ℤ
  middleware_order r name = elim (middleware_override r name) [
    | none ↦ none
    | some o ↦ elim o [ uses config ↦ config.order | skips ↦ none ]
  ]

  unfoldable pub middleware_skips : Request F → String → Bool
  middleware_skips r name = elim (middleware_override r name) [
    | none ↦ false
    | some o ↦ elim o [ uses config ↦ false | skips ↦ true ]
  ]

  -- `Request::skip`: each named middleware is skipped.
  unfoldable pub skip : List String → Request F → Request F
  skip [] r = r
  skip (name ∷ names) r = skip names (record r { middleware = Map.insert name skips r.middleware })

  -- The scheduler's view of a request.
  abbrev pub request_ops : RequestOps (Request F)
  request_ops = record {
    priority = λ r. r.priority;
    set_priority = λ p r. record r { priority = p };
  }
