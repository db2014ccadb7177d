-- ===== src/Robots/Memory.antt =====
-- src/robots.rs: the robots policies of the origins, which are fetched, cached and asked. The clock is
-- an argument: `now` at the start of a call, and `later` for the times that are read after the fetch.
-- What the server would answer is an argument too. A call is one step: the source awaits the fetch
-- between its locks, and calls that overlap there are not modelled.
use kun.Prelude.{
  ℕ, ltb, leb, ◌==◌, ◌-◌, ◌+◌, ◌^◌, min, Bool, true, false, not, ◌&&◌, ◌||◌, String, str_eq, Option,
  none, some, List, [], ◌∷◌, ◌++◌, if◌then◌else◌,
}
use kun.Prelude.Map
use kun.Prelude.Map.{Map}
use kun.Error.{Result, ok, err, SpiderError, request_build}
use kun.Scheduler.Task.{saturating_add}
use kun.Middleware.Externals.{Externals, Url}
use kun.Robots.Rules.{Patterns, Rules, is_allowed, rules_delay, max_millis}
use kun.Robots.Parse.{parse, is_empty}
use kun.Robots.Sites.{
  UnavailablePolicy, SiteAccess, SitePolicy, SiteRule, site_policy, origin_key, merge_sitemaps,
  Site, site_matcher,
}
use kun.Robots.Cache.{
  Decision, allow, disallow, delay, CachePolicy, body, Entry, Cache, Policy, parsed, Memory, Reply,
  FetchResult, cacheable, unavailable, fetch_policy_entry, is_stale, fresh_hot_policy,
  remember_policy, is_unavailable_retry_pending, remember_unavailable_retry,
  clear_unavailable_retry, unavailable_rules,
}
pub mod Quiet
pub mod Fetches
pub mod Fresh
pub mod Deadlines
pub mod Spacing

module _ (x : Externals) (p : Patterns) where
  unfoldable pub parse_policy : (body : String) → Policy p.Regex
  parse_policy text =
      let rules = parse x p text in
      if is_empty rules.groups && is_empty rules.sitemaps then Policy.allow_all else parsed rules

  unfoldable pub from_cache_policy : CachePolicy → Policy p.Regex
  from_cache_policy CachePolicy.allow_all = Policy.allow_all
  from_cache_policy CachePolicy.disallow_all = Policy.disallow_all
  from_cache_policy (body text) = parse_policy text

  unfoldable pub policy_allows : Policy p.Regex → Url → (user_agent : String) → Bool
  policy_allows Policy.allow_all url user_agent = true
  policy_allows Policy.disallow_all url user_agent = false
  policy_allows (parsed rules) url user_agent = is_allowed p rules url user_agent

  unfoldable pub policy_delay : Policy p.Regex → (user_agent : String) → Option ℕ
  policy_delay (parsed rules) user_agent = rules_delay p rules user_agent
  policy_delay other user_agent = none

  unfoldable pub policy_sitemaps : Policy p.Regex → List String
  policy_sitemaps (parsed rules) = rules.sitemaps
  policy_sitemaps other = []

  module _ {C : Type 0} (k : Cache C) where
    -- A cached entry is used, and kept at hand.
    unfoldable pub reuse :
        (origin : String) → Entry → Memory p.Regex C → Memory p.Regex C × Result (Policy p.Regex)
    reuse origin entry self =
        let policy = from_cache_policy entry.policy in
        (remember_policy origin entry.fetched_at policy self, ok policy)

    unfoldable pub fallback : SitePolicy → Memory p.Regex C → Policy p.Regex
    fallback site self =
        unavailable_rules
          (elim site.unavailable_policy [ none ↦ self.unavailable_policy | some policy ↦ policy ])

    -- What is used while robots.txt cannot be had: the stale entry, or the policy for this case.
    unfoldable pub without_answer :
        (origin : String)
        → SitePolicy
        → Option Entry
        → Memory p.Regex C
        → Memory p.Regex C × Result (Policy p.Regex)
    without_answer origin site none self = (self, ok (fallback site self))
    without_answer origin site (some entry) self = reuse origin entry self

    -- The server is asked, and its answer is saved.
    unfoldable pub after_fetch :
        (origin : String) (later : ℕ)
        → SitePolicy
        → Option Entry
        → Result FetchResult
        → Memory p.Regex C
        → Memory p.Regex C × Result (Policy p.Regex)
    after_fetch origin later site entry (err e) self = (self, err e)
    after_fetch origin later site entry (ok unavailable) self =
        without_answer origin site entry (remember_unavailable_retry origin later self)
    after_fetch origin later site entry (ok (cacheable new)) self =
        let cleared = clear_unavailable_retry origin self in
        let (cache, saved) = k.save new cleared.cache in
        let self' : Memory p.Regex C = record cleared { cache = cache } in
        elim saved [ err e ↦ (self', err e) | ok u ↦ reuse origin new self' ]

    unfoldable pub without_fresh :
        (origin : String) (now later : ℕ)
        → Reply
        → SitePolicy
        → Option Entry
        → Memory p.Regex C
        → Memory p.Regex C × Result (Policy p.Regex)
    without_fresh origin now later reply site entry self =
        let (self', pending) = is_unavailable_retry_pending origin now self in
        if pending
        then without_answer origin site entry self'
        else after_fetch origin later site entry (fetch_policy_entry origin later reply) self'

    unfoldable pub from_entry :
        (origin : String) (now later : ℕ)
        → Reply
        → SitePolicy
        → Option Entry
        → Memory p.Regex C
        → Memory p.Regex C × Result (Policy p.Regex)
    from_entry origin now later reply site none self =
        without_fresh origin now later reply site none self
    from_entry origin now later reply site (some entry) self =
        if is_stale self entry.fetched_at now
        then without_fresh origin now later reply site (some entry) self
        else reuse origin entry self

    unfoldable pub policy_for :
        Url
        → (now later : ℕ) → Reply
        → SitePolicy
        → Memory p.Regex C
        → Memory p.Regex C × Result (Policy p.Regex)
    policy_for url now later reply site self =
        let origin = origin_key url in
        elim (fresh_hot_policy self origin now) [
          | some policy ↦ (self, ok policy)
          | none ↦
              let (cache, loaded) = k.load origin self.cache in
              let self' : Memory p.Regex C = record self { cache = cache } in
              elim loaded [
                | err e ↦ (self', err e)
                | ok entry ↦ from_entry origin now later reply site entry self'
              ]
        ]

    -- `duration_from_millis`, whose range ends at 2^63 - 1.
    abbrev pub duration_millis : ℕ → ℕ
    duration_millis n = min n (2 ^ 63 - 1)

    abbrev pub option_millis : Option ℕ → Option ℕ
    option_millis none = none
    option_millis (some n) = some (duration_millis n)

    -- The next request to the origin waits for the delay of this one.
    unfoldable pub pace :
        (origin : String) (decided_at required_delay : ℕ)
        → Memory p.Regex C
        → Memory p.Regex C × Decision
    pace origin decided_at required_delay self =
        let next_allowed_at = Map.lookup_or 0 origin self.request_deadlines in
        if ltb decided_at next_allowed_at
        then (self, delay (duration_millis (next_allowed_at - decided_at)))
        else (
          record self {
            request_deadlines =
                Map.insert origin (saturating_add decided_at required_delay) self.request_deadlines;
          },
          allow,
        )

    unfoldable pub delayed_by :
        (origin : String) (decided_at : ℕ)
        → Option ℕ
        → Memory p.Regex C
        → Memory p.Regex C × Decision
    delayed_by origin decided_at none self = (self, allow)
    delayed_by origin decided_at (some required_delay) self =
        if required_delay == 0 then (self, allow) else pace origin decided_at required_delay self

    abbrev pub blocks : Option SiteAccess → (allowed : Bool) → Bool
    blocks none allowed = not allowed
    blocks (some SiteAccess.allow_all) allowed = false
    blocks (some SiteAccess.disallow_all) allowed = true

    unfoldable pub decide :
        Url
        → (user_agent : String) (decided_at : ℕ) → SitePolicy
        → Policy p.Regex
        → Memory p.Regex C
        → Memory p.Regex C × Decision
    decide url user_agent decided_at site policy self =
        if blocks site.access (policy_allows policy url user_agent)
        then (self, disallow)
        else delayed_by (origin_key url) decided_at
            (max_millis (option_millis (policy_delay policy user_agent)) (option_millis site.delay))
            self

    abbrev pub is_web : Url → Bool
    is_web url = str_eq url.scheme "http" || str_eq url.scheme "https"

    -- `check`, with the time at which it decides.
    unfoldable pub check :
        (request_url user_agent : String) (now later decided_at : ℕ)
        → Reply
        → Memory p.Regex C
        → Memory p.Regex C × Result Decision
    check request_url user_agent now later decided_at reply self = elim (x.parse_url request_url) [
      | none ↦ (self, err (request_build (x.parse_error request_url)))
      | some url ↦
          if not (is_web url)
          then (self, ok allow)
          else let site = site_policy p self.site_policies url in
            let (self', answer) = policy_for url now later reply site self in
            elim answer [
              | err e ↦ (self', err e)
              | ok policy ↦
                  let (self'', decision) = decide url user_agent decided_at site policy self' in
                  (self'', ok decision)
            ]
    ]

    -- `Robot::is_allowed`.
    unfoldable pub allows_request :
        (request_url user_agent : String) (now later : ℕ)
        → Reply
        → Memory p.Regex C
        → Memory p.Regex C × Result Bool
    allows_request request_url user_agent now later reply self = elim (x.parse_url request_url) [
      | none ↦ (self, err (request_build (x.parse_error request_url)))
      | some url ↦
          if not (is_web url)
          then (self, ok true)
          else let site = site_policy p self.site_policies url in
            let (self', answer) = policy_for url now later reply site self in
            (
              self',
              elim answer [
                | err e ↦ err e
                | ok policy ↦ ok (not (blocks site.access (policy_allows policy url user_agent)))
              ],
            )
    ]

    unfoldable pub sitemaps :
        (request_url : String) (now later : ℕ)
        → Reply
        → Memory p.Regex C
        → Memory p.Regex C × Result (List String)
    sitemaps request_url now later reply self = elim (x.parse_url request_url) [
      | none ↦ (self, err (request_build (x.parse_error request_url)))
      | some url ↦
          if not (is_web url)
          then (self, ok [])
          else let site = site_policy p self.site_policies url in
            let (self', answer) = policy_for url now later reply site self in
            (
              self',
              elim answer [
                | err e ↦ err e
                | ok policy ↦ ok (merge_sitemaps (policy_sitemaps policy) site.sitemaps)
              ],
            )
    ]

    unfoldable pub with_site_policy :
        Site → SitePolicy → Memory p.Regex C → Option (Memory p.Regex C)
    with_site_policy site policy self = elim (site_matcher p site) [
      | none ↦ none
      | some matcher ↦ some (record self {
        site_policies = self.site_policies ++ record { matcher = matcher; policy = policy } ∷ [];
      })
    ]

-- `Memory::new`.
abbrev pub new_memory : {Regex : Type 0} → Memory Regex (Map Entry)
new_memory = record {
  cache = [];
  cache_ttl = some 86400000;
  unavailable_policy = UnavailablePolicy.allow_all;
  unavailable_retry_delay = some 60000;
  site_policies = [];
  policies = [];
  request_deadlines = [];
  unavailable_retry_at = [];
}
