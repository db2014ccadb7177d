-- ===== src/Robots/Memory/Quiet.antt =====
-- src/robots.rs: an origin whose server did not answer, in the calls for it.
use kun.Prelude.{
  ℕ, ltb, ◌-◌, ◌+◌, ◌<◌, ◌^◌, min, ◌≡◌, refl, Bool, true, false, not, String, Option, none, some,
  arith, Bool-cases, Option-cases, inl, inr, if◌then◌else◌, ◌∙◌, sym,
}
use kun.Prelude.Map
use kun.Prelude.Map.{Map}
use kun.Error.{ok, Result-cases}
use kun.Middleware.Externals.{Externals, Url}
use kun.Robots.Rules.{Patterns}
use kun.Robots.Sites.{SitePolicy, origin_key}
use kun.Robots.Cache.{
  Entry, Cache, Memory, Reply, unavailable, fetch_policy_entry, is_stale, fresh_hot_policy,
  remember_policy, is_unavailable_retry_pending, remember_unavailable_retry,
}
use kun.Robots.Memory.{reuse, without_answer, after_fetch, without_fresh, from_entry, policy_for}

module _ (x : Externals) (p : Patterns) {C : Type 0} (k : Cache C) where
  -- The origin is not to be asked before the time.
  abbrev pub Quiet : (origin : String) (until : ℕ) → Memory p.Regex C → Type 0
  Quiet origin until self =
      ((d : ℕ) × (self.unavailable_retry_delay ≡ some d))
      × (Map.lookup origin self.unavailable_retry_at ≡ some until)

  pending-Quiet :
      (origin : String) (until now : ℕ) (self : Memory p.Regex C)
      → Quiet origin until self
      → now < until
      → is_unavailable_retry_pending origin now self ≡ (self, true)
  unfolding is_unavailable_retry_pending
  pending-Quiet origin until now self ((d, retries), at) early =
      let wait : ltb now until ≡ true = ground arith in ground (arith, retries, at, wait)

  pub without_fresh-Quiet :
      (origin : String) (until now later : ℕ) (reply : Reply) (site : SitePolicy)
      (entry : Option Entry) (self : Memory p.Regex C)
      → Quiet origin until self
      → now < until
      → without_fresh x p k origin now later reply site entry self
        ≡ without_answer x p k origin site entry self
  unfolding without_fresh
  without_fresh-Quiet origin until now later reply site entry self quiet early =
      rw (pending-Quiet origin until now self quiet early, without_fresh) refl

  -- Whether the call asks the server.
  unfoldable pub asks : (origin : String) (now : ℕ) → Option Entry → Memory p.Regex C → Bool
  asks origin now none self = not (is_unavailable_retry_pending origin now self).1
  asks origin now (some entry) self =
      if is_stale self entry.fetched_at now
      then not (is_unavailable_retry_pending origin now self).1
      else false

  from_entry-Quiet :
      (origin : String) (until now later later' : ℕ) (reply reply' : Reply) (site : SitePolicy)
      (entry : Option Entry) (self : Memory p.Regex C)
      → Quiet origin until self
      → now < until
      → from_entry x p k origin now later reply site entry self
        ≡ from_entry x p k origin now later' reply' site entry self
  unfolding from_entry
  from_entry-Quiet origin until now later later' reply reply' site none self quiet early =
      without_fresh-Quiet origin until now later reply site none self quiet early
      ∙ sym (without_fresh-Quiet origin until now later' reply' site none self quiet early)
  from_entry-Quiet origin until now later later' reply reply' site (some entry) self quiet early =
      elim (Bool-cases (is_stale self entry.fetched_at now)) [
        | inr fresh ↦ rw fresh refl
        | inl stale ↦ rw stale (
            without_fresh-Quiet origin until now later reply site (some entry) self quiet early
            ∙ sym (
                without_fresh-Quiet origin until now later' reply' site (some entry) self quiet
                  early))
      ]

  pub policy_for-Quiet :
      (url : Url) (until now later later' : ℕ) (reply reply' : Reply) (site : SitePolicy)
      (self : Memory p.Regex C)
      → Quiet (origin_key url) until self
      → now < until
      → policy_for x p k url now later reply site self
        ≡ policy_for x p k url now later' reply' site self
  unfolding policy_for
  policy_for-Quiet url until now later later' reply reply' site self quiet early =
      elim (Option-cases (fresh_hot_policy self (origin_key url) now)) [
        | inr (policy, hot) ↦ rw (hot, policy_for) refl
        | inl cold ↦ elim (Result-cases (k.load (origin_key url) self.cache).1) [
          | inl (e, failed) ↦ rw (cold, policy_for, failed) refl
          | inr (entry, loaded) ↦
              rw (cold, policy_for, loaded)
                (from_entry-Quiet (origin_key url) until now later later' reply reply' site entry
                  (record self { cache = (k.load (origin_key url) self.cache).0 }) quiet early)
        ]
      ]

  -- The state once the cache was read.
  abbrev pub loaded_state : (origin : String) → Memory p.Regex C → Memory p.Regex C
  loaded_state origin self = record self { cache = (k.load origin self.cache).0 }

  pub policy_for_cold :
      (url : Url) (now later : ℕ) (reply : Reply) (site : SitePolicy) (self : Memory p.Regex C)
      (entry : Option Entry)
      → fresh_hot_policy self (origin_key url) now ≡ none
      → (k.load (origin_key url) self.cache).1 ≡ ok entry
      → policy_for x p k url now later reply site self
        ≡ from_entry x p k
            (origin_key url)
            now
            later
            reply
            site
            entry
            (loaded_state (origin_key url) self)
  unfolding policy_for
  policy_for_cold url now later reply site self entry cold loaded =
      rw (cold, policy_for, loaded) refl

  -- The test for a pending retry changes nothing else.
  pub pending_keeps :
      (origin : String) (now : ℕ) (self : Memory p.Regex C)
      → ((is_unavailable_retry_pending origin now self).0.unavailable_retry_delay
          ≡ self.unavailable_retry_delay)
        × ((is_unavailable_retry_pending origin now self).0.cache_ttl ≡ self.cache_ttl)
        × ((is_unavailable_retry_pending origin now self).0.cache ≡ self.cache)
  unfolding is_unavailable_retry_pending
  pending_keeps origin now self = elim (Option-cases self.unavailable_retry_delay) [
    | inl never ↦ ground (arith, never)
    | inr (d, retries) ↦ elim (Option-cases (Map.lookup origin self.unavailable_retry_at)) [
      | inl unset ↦ ground (arith, retries, unset)
      | inr (retry_at, set) ↦ elim (Bool-cases (ltb now retry_at)) [
        | inl early ↦ ground (arith, retries, set, early)
        | inr due ↦ ground (arith, retries, set, due)
      ]
    ]
  ]

  pub without_answer-Quiet :
      (origin other : String) (until : ℕ) (site : SitePolicy) (entry : Option Entry)
      (self : Memory p.Regex C)
      → Quiet origin until self
      → Quiet origin until (without_answer x p k other site entry self).0
  unfolding without_answer reuse remember_policy
  without_answer-Quiet origin other until site none self quiet = quiet
  without_answer-Quiet origin other until site (some entry) self quiet = quiet

  remember_unavailable_retry-Quiet :
      (origin : String) (later d : ℕ) (self : Memory p.Regex C)
      → self.unavailable_retry_delay ≡ some d
      → later + d < 2 ^ 64
      → Quiet origin (later + d) (remember_unavailable_retry origin later self)
  unfolding remember_unavailable_retry
  remember_unavailable_retry-Quiet origin later d self retries small =
      let exact : min (later + d) (2 ^ 64 - 1) ≡ later + d = omega arith in
      rw (retries, remember_unavailable_retry, exact)
        ((d, retries), Map.lookup-insert_self origin (later + d) self.unavailable_retry_at)

  without_fresh_asked-Quiet :
      (origin : String) (now later d : ℕ) (reply : Reply) (site : SitePolicy) (entry : Option Entry)
      (self : Memory p.Regex C)
      → (is_unavailable_retry_pending origin now self).1 ≡ false
      → fetch_policy_entry origin later reply ≡ ok unavailable
      → self.unavailable_retry_delay ≡ some d
      → later + d < 2 ^ 64
      → Quiet origin (later + d) (without_fresh x p k origin now later reply site entry self).0
  unfolding without_fresh after_fetch
  without_fresh_asked-Quiet origin now later d reply site entry self due failed retries small =
      rw (due, without_fresh, failed)
        (without_answer-Quiet origin origin (later + d) site entry _ (
          remember_unavailable_retry-Quiet origin later d
            (is_unavailable_retry_pending origin now self).0
            ((pending_keeps origin now self).0 ∙ retries) small))

  pub from_entry_asked-Quiet :
      (origin : String) (now later d : ℕ) (reply : Reply) (site : SitePolicy) (entry : Option Entry)
      (self : Memory p.Regex C)
      → asks origin now entry self ≡ true
      → fetch_policy_entry origin later reply ≡ ok unavailable
      → self.unavailable_retry_delay ≡ some d
      → later + d < 2 ^ 64
      → Quiet origin (later + d) (from_entry x p k origin now later reply site entry self).0
  unfolding from_entry asks
  from_entry_asked-Quiet origin now later d reply site none self asked failed retries small =
      without_fresh_asked-Quiet origin now later d reply site none self (ground arith) failed
        retries small
  from_entry_asked-Quiet origin now later d reply site (some entry) self asked failed retries
        small =
      elim (Bool-cases (is_stale self entry.fetched_at now)) [
        | inr fresh ↦ absurd (ground (arith, asked, fresh))
        | inl stale ↦ rw stale (
            without_fresh_asked-Quiet origin now later d reply site (some entry) self
              (ground (arith, asked, stale)) failed retries small)
      ]
