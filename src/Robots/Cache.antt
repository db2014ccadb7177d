-- ===== src/Robots/Cache.antt =====
-- src/robots.rs and src/robots/cache.rs: what is kept of the robots policies of the origins, and what
-- an answer to a request for robots.txt means.
use kun.Prelude.{
  ℕ, ℤ, ltb, leb, ◌==◌, ◌-◌, Bool, true, false, ◌||◌, ◌&&◌, String, Option, none, some, List,
  if◌then◌else◌,
}
use kun.Prelude.Map
use kun.Prelude.Map.{Map}
use kun.Error.{Result, ok, err, SpiderError}
use kun.Scheduler.Task.{saturating_add}
use kun.Robots.Rules.{Rules}
use kun.Robots.Sites.{UnavailablePolicy, SiteRule, non_negative_milliseconds}

pub data Decision : Type 0 where
  allow disallow : Decision
  delay : (milliseconds : ℕ) → Decision

-- `cache::Policy` and `cache::Entry`.
pub data CachePolicy : Type 0 where
  allow_all disallow_all : CachePolicy
  body : String → CachePolicy

pub record Entry : Type 0 where
  pub origin : String
  pub fetched_at : ℕ
  pub policy : CachePolicy

-- The trait `Cache`, for backends with states in `C`.
pub record Cache (C : Type 0) : Type 0 where
  pub load : (origin : String) → C → C × Result (Option Entry)
  pub save : Entry → C → C × Result (Unit {0})

-- `cache::Memory`.
abbrev pub memory_cache : Cache (Map Entry)
memory_cache = record {
  load = λ origin entries. (entries, ok (Map.lookup origin entries));
  save = λ entry entries. (Map.insert entry.origin entry entries, ok tt);
}

pub data Policy (Regex : Type 0) : Type 0 where
  allow_all disallow_all : Policy Regex
  parsed : Rules Regex → Policy Regex

pub record CachedPolicy (Regex : Type 0) : Type 0 where
  pub fetched_at : ℕ
  pub policy : Policy Regex

pub record Memory (Regex C : Type 0) : Type 0 where
  pub cache : C
  pub cache_ttl : Option ℕ
  pub unavailable_policy : UnavailablePolicy
  pub unavailable_retry_delay : Option ℕ
  pub site_policies : List (SiteRule Regex)
  pub policies : Map (CachedPolicy Regex)
  pub request_deadlines : Map ℕ
  pub unavailable_retry_at : Map ℕ

-- What comes of the request for robots.txt: no client could be built, nothing was received, or a
-- status, with the body if it could be read.
pub data Reply : Type 0 where
  no_client : SpiderError → Reply
  no_response : Reply
  response : (status : ℕ) (body : Option String) → Reply

pub data FetchResult : Type 0 where
  cacheable : Entry → FetchResult
  unavailable : FetchResult

-- An answer with this status, that came at the time.
unfoldable pub fetched : (origin : String) (now status : ℕ) (text : Option String) → FetchResult
fetched origin now status text =
    if leb 200 status && leb status 299
    then elim text [
      | none ↦ unavailable
      | some content ↦
          cacheable (record { origin = origin; fetched_at = now; policy = body content })
    ]
    else if status == 401 || status == 403
    then cacheable (record { origin = origin; fetched_at = now; policy = CachePolicy.disallow_all })
    else if status == 404
    then cacheable (record { origin = origin; fetched_at = now; policy = CachePolicy.allow_all })
    else unavailable

unfoldable pub fetch_policy_entry : (origin : String) (now : ℕ) → Reply → Result FetchResult
fetch_policy_entry origin now (no_client e) = err e
fetch_policy_entry origin now no_response = ok unavailable
fetch_policy_entry origin now (response status text) = ok (fetched origin now status text)

module _ {Regex C : Type 0} where
  unfoldable pub with_cache_ttl : Memory Regex C → (milliseconds : ℤ) → Memory Regex C
  with_cache_ttl self milliseconds = record self {
    cache_ttl = some (non_negative_milliseconds milliseconds);
  }

  unfoldable pub without_cache_ttl : Memory Regex C → Memory Regex C
  without_cache_ttl self = record self { cache_ttl = none }

  unfoldable pub with_unavailable_policy : Memory Regex C → UnavailablePolicy → Memory Regex C
  with_unavailable_policy self policy = record self { unavailable_policy = policy }

  unfoldable pub with_unavailable_retry_delay : Memory Regex C → (milliseconds : ℤ) → Memory Regex C
  with_unavailable_retry_delay self milliseconds = record self {
    unavailable_retry_delay = some (non_negative_milliseconds milliseconds);
  }

  unfoldable pub without_unavailable_retry_delay : Memory Regex C → Memory Regex C
  without_unavailable_retry_delay self = record self { unavailable_retry_delay = none }

  unfoldable pub is_stale : Memory Regex C → (fetched_at current_time : ℕ) → Bool
  is_stale self fetched_at current_time = elim self.cache_ttl [
    | none ↦ false
    | some cache_ttl ↦ leb cache_ttl (current_time - fetched_at)
  ]

  unfoldable pub fresh_hot_policy :
      Memory Regex C → (origin : String) (current_time : ℕ) → Option (Policy Regex)
  fresh_hot_policy self origin current_time = elim (Map.lookup origin self.policies) [
    | none ↦ none
    | some cached ↦
        if is_stale self cached.fetched_at current_time then none else some cached.policy
  ]

  unfoldable pub remember_policy :
      (origin : String) (fetched_at : ℕ) → Policy Regex → Memory Regex C → Memory Regex C
  remember_policy origin fetched_at policy self = record self {
    policies =
        Map.insert origin (record { fetched_at = fetched_at; policy = policy }) self.policies;
  }

  -- Whether the origin is not to be asked again yet; a time that has come is forgotten.
  unfoldable pub is_unavailable_retry_pending :
      (origin : String) (current_time : ℕ) → Memory Regex C → Memory Regex C × Bool
  is_unavailable_retry_pending origin current_time self = elim self.unavailable_retry_delay [
    | none ↦ (self, false)
    | some retry_delay ↦ elim (Map.lookup origin self.unavailable_retry_at) [
      | none ↦ (self, false)
      | some retry_at ↦ if ltb current_time retry_at then (self, true) else (
        record self { unavailable_retry_at = Map.remove origin self.unavailable_retry_at },
        false,
      )
    ]
  ]

  unfoldable pub remember_unavailable_retry :
      (origin : String) (current_time : ℕ) → Memory Regex C → Memory Regex C
  remember_unavailable_retry origin current_time self = elim self.unavailable_retry_delay [
    | none ↦ self
    | some retry_delay ↦ record self {
      unavailable_retry_at =
          Map.insert origin (saturating_add current_time retry_delay) self.unavailable_retry_at;
    }
  ]

  unfoldable pub clear_unavailable_retry : (origin : String) → Memory Regex C → Memory Regex C
  clear_unavailable_retry origin self = record self {
    unavailable_retry_at = Map.remove origin self.unavailable_retry_at;
  }

unfoldable pub unavailable_rules : {Regex : Type 0} → UnavailablePolicy → Policy Regex
unavailable_rules UnavailablePolicy.allow_all = Policy.allow_all
unavailable_rules UnavailablePolicy.disallow_all = Policy.disallow_all
