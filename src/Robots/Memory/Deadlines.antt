-- ===== src/Robots/Memory/Deadlines.antt =====
-- src/robots.rs: what leaves the time at which the next request to an origin is due.
use kun.Prelude.{
  ℕ, ltb, ◌<◌, ◌==◌, ◌≡◌, refl, true, String, str_eq, eq_iff, ◌≢◌, Option, none, some, arith,
  Bool-cases, Option-cases, inl, inr, ◌∙◌,
}
use kun.Prelude.Map
use kun.Error.{Result, ok, err, Result-cases}
use kun.Middleware.Externals.{Externals, Url}
use kun.Robots.Rules.{Patterns}
use kun.Robots.Sites.{SitePolicy, origin_key}
use kun.Robots.Cache.{
  Entry, Cache, Policy, Memory, Reply, FetchResult, cacheable, unavailable, fetch_policy_entry,
  is_stale, fresh_hot_policy, remember_policy, is_unavailable_retry_pending,
  remember_unavailable_retry, clear_unavailable_retry,
}
use kun.Robots.Memory.{
  reuse, without_answer, after_fetch, without_fresh, from_entry, policy_for, pace, delayed_by,
  decide, blocks, policy_allows,
}

module _ (x : Externals) (p : Patterns) {C : Type 0} (k : Cache C) where
  deadlines-pending :
      (origin : String) (now : ℕ) (self : Memory p.Regex C)
      → (is_unavailable_retry_pending origin now self).0.request_deadlines ≡ self.request_deadlines
  unfolding is_unavailable_retry_pending
  deadlines-pending origin now self = elim (Option-cases self.unavailable_retry_delay) [
    | inl never ↦ ground (arith, never)
    | inr (d, retries) ↦ elim (Option-cases (Map.lookup origin self.unavailable_retry_at)) [
      | inl unset ↦ ground (arith, retries, unset)
      | inr (retry_at, set) ↦ elim (Bool-cases (ltb now retry_at)) [
        | inl early ↦ ground (arith, retries, set, early)
        | inr due ↦ ground (arith, retries, set, due)
      ]
    ]
  ]

  deadlines-without_answer :
      (origin : String) (site : SitePolicy) (entry : Option Entry) (self : Memory p.Regex C)
      → (without_answer x p k origin site entry self).0.request_deadlines ≡ self.request_deadlines
  unfolding without_answer reuse remember_policy
  deadlines-without_answer origin site none self = refl
  deadlines-without_answer origin site (some entry) self = refl

  deadlines-remember :
      (origin : String) (later : ℕ) (self : Memory p.Regex C)
      → (remember_unavailable_retry origin later self).request_deadlines ≡ self.request_deadlines
  unfolding remember_unavailable_retry
  deadlines-remember origin later self = elim (Option-cases self.unavailable_retry_delay) [
    | inl never ↦ ground (arith, never)
    | inr (d, retries) ↦ ground (arith, retries)
  ]

  deadlines-after_fetch :
      (origin : String) (later : ℕ) (site : SitePolicy) (entry : Option Entry)
      (fetched : Result FetchResult) (self : Memory p.Regex C)
      → (after_fetch x p k origin later site entry fetched self).0.request_deadlines
        ≡ self.request_deadlines
  unfolding after_fetch reuse remember_policy clear_unavailable_retry
  deadlines-after_fetch origin later site entry (err e) self = refl
  deadlines-after_fetch origin later site entry (ok unavailable) self =
      deadlines-without_answer origin site entry (remember_unavailable_retry origin later self)
      ∙ deadlines-remember origin later self
  deadlines-after_fetch origin later site entry (ok (cacheable new)) self =
      elim (Result-cases (k.save new self.cache).1) [
        | inl (e, failed) ↦ rw (failed, after_fetch) refl
        | inr (u, saved) ↦ rw (saved, after_fetch) refl
      ]

  deadlines-without_fresh :
      (origin : String) (now later : ℕ) (reply : Reply) (site : SitePolicy) (entry : Option Entry)
      (self : Memory p.Regex C)
      → (without_fresh x p k origin now later reply site entry self).0.request_deadlines
        ≡ self.request_deadlines
  unfolding without_fresh
  deadlines-without_fresh origin now later reply site entry self =
      let pending = is_unavailable_retry_pending origin now self in
      elim (Bool-cases pending.1) [
        | inl waits ↦
            rw (waits, without_fresh)
              (deadlines-without_answer origin site entry pending.0
                ∙ deadlines-pending origin now self)
        | inr due ↦
            rw (due, without_fresh)
              (deadlines-after_fetch origin later site entry (fetch_policy_entry origin later reply)
                  pending.0
                ∙ deadlines-pending origin now self)
      ]

  deadlines-from_entry :
      (origin : String) (now later : ℕ) (reply : Reply) (site : SitePolicy) (entry : Option Entry)
      (self : Memory p.Regex C)
      → (from_entry x p k origin now later reply site entry self).0.request_deadlines
        ≡ self.request_deadlines
  unfolding from_entry reuse remember_policy
  deadlines-from_entry origin now later reply site none self =
      deadlines-without_fresh origin now later reply site none self
  deadlines-from_entry origin now later reply site (some entry) self =
      elim (Bool-cases (is_stale self entry.fetched_at now)) [
        | inl stale ↦
            rw stale (deadlines-without_fresh origin now later reply site (some entry) self)
        | inr fresh ↦ rw fresh refl
      ]

  pub deadlines-policy_for :
      (url : Url) (now later : ℕ) (reply : Reply) (site : SitePolicy) (self : Memory p.Regex C)
      → (policy_for x p k url now later reply site self).0.request_deadlines
        ≡ self.request_deadlines
  unfolding policy_for
  deadlines-policy_for url now later reply site self =
      elim (Option-cases (fresh_hot_policy self (origin_key url) now)) [
        | inr (policy, hot) ↦ rw (hot, policy_for) refl
        | inl cold ↦ elim (Result-cases (k.load (origin_key url) self.cache).1) [
          | inl (e, failed) ↦ rw (cold, policy_for, failed) refl
          | inr (entry, loaded) ↦
              rw (cold, policy_for, loaded)
                (deadlines-from_entry (origin_key url) now later reply site entry
                  (record self { cache = (k.load (origin_key url) self.cache).0 }))
        ]
      ]

  -- The next request to the origin is due at the time.
  abbrev pub DueAt : (origin : String) (until : ℕ) → Memory p.Regex C → Type 0
  DueAt origin until self = Map.lookup_or 0 origin self.request_deadlines ≡ until

  pace-DueAt :
      (origin other : String) (until at required : ℕ) (self : Memory p.Regex C)
      → DueAt origin until self
      → at < until
      → DueAt origin until (pace x p k other at required self).0
  unfolding pace
  pace-DueAt origin other until at required self due early =
      elim (Bool-cases (str_eq other origin)) [
        | inl same ↦
            let equal : other ≡ origin = (eq_iff other origin).0 same in
            let waits : ltb at (Map.lookup_or 0 other self.request_deadlines) ≡ true =
              rw (equal, due) (ground arith) in
            rw (waits, pace) due
        | inr differs ↦ elim (Bool-cases (ltb at (Map.lookup_or 0 other self.request_deadlines))) [
          | inl waits ↦ rw (waits, pace) due
          | inr free ↦
              let other≢origin : other ≢ origin =
                λ e. absurd (ground (arith, eq_iff other origin)) in
              rw (free, pace)
                (Map.lookup_or-insert_ne 0 other origin _ self.request_deadlines other≢origin ∙ due)
        ]
      ]

  delayed_by-DueAt :
      (origin other : String) (until at : ℕ) (required : Option ℕ) (self : Memory p.Regex C)
      → DueAt origin until self
      → at < until
      → DueAt origin until (delayed_by x p k other at required self).0
  unfolding delayed_by
  delayed_by-DueAt origin other until at none self due early = due
  delayed_by-DueAt origin other until at (some required) self due early =
      elim (Bool-cases (required == 0)) [
        | inl at_once ↦ rw at_once due
        | inr waits ↦ rw waits (pace-DueAt origin other until at required self due early)
      ]

  pub decide-DueAt :
      (origin : String) (until : ℕ) (url : Url) (user_agent : String) (at : ℕ) (site : SitePolicy)
      (policy : Policy p.Regex) (self : Memory p.Regex C)
      → DueAt origin until self
      → at < until
      → DueAt origin until (decide x p k url user_agent at site policy self).0
  unfolding decide
  decide-DueAt origin until url user_agent at site policy self due early =
      elim (Bool-cases (blocks x p k site.access (policy_allows x p policy url user_agent))) [
        | inl blocked ↦ rw (blocked, decide) due
        | inr open_to ↦
            rw (open_to, decide)
              (delayed_by-DueAt origin (origin_key url) until at _ self due early)
      ]
