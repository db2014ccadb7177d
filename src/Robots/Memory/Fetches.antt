-- ===== src/Robots/Memory/Fetches.antt =====
-- src/robots.rs: when the server of an origin is asked for its robots.txt.
use kun.Prelude.{
  ℕ, List, [], ◌∷◌, All, str_eq, eq_iff, ltb, ◌+◌, ◌<◌, ◌^◌, ◌≡◌, true, false, String, Option, none,
  some, arith, Bool-cases, Option-cases, inl, inr, sym,
}
use mathlib.Core.Path.{subst}
use kun.Prelude.Map
use kun.Prelude.Map.{Map}
use kun.Error.{Result, ok, err, Result-cases}
use kun.Scheduler.Task.{saturating_add}
use kun.Middleware.Externals.{Externals, Url}
use kun.Robots.Rules.{Patterns}
use kun.Robots.Sites.{SitePolicy, origin_key}
use kun.Robots.Cache.{
  FetchResult, cacheable, clear_unavailable_retry, Entry, Cache, Memory, Reply, unavailable,
  fetch_policy_entry, is_stale, fresh_hot_policy, remember_policy, is_unavailable_retry_pending,
  remember_unavailable_retry,
}
use kun.Robots.Memory.{reuse, after_fetch, without_fresh, from_entry, policy_for}
use kun.Robots.Memory.Quiet.{
  Quiet, without_fresh-Quiet, asks, policy_for-Quiet, loaded_state, policy_for_cold,
  without_answer-Quiet, from_entry_asked-Quiet,
}

-- The arguments of a call of `policy_for`.
pub record Lookup : Type 0 where
  pub url : Url
  pub now : ℕ
  pub later : ℕ
  pub reply : Reply
  pub site : SitePolicy

module _ (x : Externals) (p : Patterns) {C : Type 0} (k : Cache C) where
  -- An origin keeps its pending retry through calls for other origins.
  removed-Quiet :
      (origin other : String) (until : ℕ) (retries : Map ℕ)
      → Map.lookup origin retries ≡ some until
      → str_eq other origin ≡ false
      → Map.lookup origin (Map.remove other retries) ≡ some until
  removed-Quiet origin other until retries at differs =
      ground (arith, Map.lookup-remove other origin retries)

  pending_other-Quiet :
      (origin other : String) (until now : ℕ) (self : Memory p.Regex C)
      → Quiet x p k origin until self
      → str_eq other origin ≡ false
      → Quiet x p k origin until (is_unavailable_retry_pending other now self).0
  unfolding is_unavailable_retry_pending
  pending_other-Quiet origin other until now self ((d, retries), at) differs =
      elim (Option-cases (Map.lookup other self.unavailable_retry_at)) [
        | inl unset ↦ rw (retries, is_unavailable_retry_pending, unset) ((d, retries), at)
        | inr (retry_at, set) ↦ elim (Bool-cases (ltb now retry_at)) [
          | inl early ↦ rw (retries, is_unavailable_retry_pending, set, early) ((d, retries), at)
          | inr due ↦
              rw (retries, is_unavailable_retry_pending, set, due)
                (
                  (d, retries),
                  removed-Quiet origin other until self.unavailable_retry_at at differs,
                )
        ]
      ]

  remembered_other-Quiet :
      (origin other : String) (until later : ℕ) (self : Memory p.Regex C)
      → Quiet x p k origin until self
      → str_eq other origin ≡ false
      → Quiet x p k origin until (remember_unavailable_retry other later self)
  unfolding remember_unavailable_retry
  remembered_other-Quiet origin other until later self ((d, retries), at) differs =
      rw (retries, remember_unavailable_retry)
        (
          (d, retries),
          ground (
            arith,
            at,
            Map.lookup-insert other origin (saturating_add later d) self.unavailable_retry_at,
          ),
        )

  after_fetch_other-Quiet :
      (origin other : String) (until later : ℕ) (site : SitePolicy) (entry : Option Entry)
      (fetched : Result FetchResult) (self : Memory p.Regex C)
      → Quiet x p k origin until self
      → str_eq other origin ≡ false
      → Quiet x p k origin until (after_fetch x p k other later site entry fetched self).0
  unfolding after_fetch reuse remember_policy clear_unavailable_retry
  after_fetch_other-Quiet origin other until later site entry (err e) self quiet differs = quiet
  after_fetch_other-Quiet origin other until later site entry (ok unavailable) self quiet differs =
      without_answer-Quiet x p k origin other until site entry _
        (remembered_other-Quiet origin other until later self quiet differs)
  after_fetch_other-Quiet origin other until later site entry (ok (cacheable new)) self
        (retries, at) differs =
      let kept = removed-Quiet origin other until self.unavailable_retry_at at differs in
      elim (Result-cases (k.save new self.cache).1) [
        | inl (e, failed) ↦ rw (failed, after_fetch) (retries, kept)
        | inr (u, saved) ↦ rw (saved, after_fetch) (retries, kept)
      ]

  without_fresh_other-Quiet :
      (origin other : String) (until now later : ℕ) (reply : Reply) (site : SitePolicy)
      (entry : Option Entry) (self : Memory p.Regex C)
      → Quiet x p k origin until self
      → str_eq other origin ≡ false
      → Quiet x p k origin until (without_fresh x p k other now later reply site entry self).0
  unfolding without_fresh
  without_fresh_other-Quiet origin other until now later reply site entry self quiet differs =
      let pending = is_unavailable_retry_pending other now self in
      let quiet' = pending_other-Quiet origin other until now self quiet differs in
      elim (Bool-cases pending.1) [
        | inl waits ↦
            rw (waits, without_fresh)
              (without_answer-Quiet x p k origin other until site entry pending.0 quiet')
        | inr due ↦
            rw (due, without_fresh)
              (after_fetch_other-Quiet origin other until later site entry
                (fetch_policy_entry other later reply) pending.0 quiet' differs)
      ]

  -- It keeps it through its own calls too, before the retry is due.
  without_fresh_any-Quiet :
      (origin other : String) (until now later : ℕ) (reply : Reply) (site : SitePolicy)
      (entry : Option Entry) (self : Memory p.Regex C)
      → Quiet x p k origin until self
      → now < until
      → Quiet x p k origin until (without_fresh x p k other now later reply site entry self).0
  without_fresh_any-Quiet origin other until now later reply site entry self quiet early =
      elim (Bool-cases (str_eq other origin)) [
        | inr differs ↦
            without_fresh_other-Quiet origin other until now later reply site entry self quiet
              differs
        | inl same ↦
            subst
              (λ o.
                Quiet x p k origin until (without_fresh x p k o now later reply site entry self).0)
              (sym ((eq_iff other origin).0 same))
              (subst (λ r. Quiet x p k origin until r.0)
                (sym (
                  without_fresh-Quiet x p k origin until now later reply site entry self quiet
                    early))
                (without_answer-Quiet x p k origin origin until site entry self quiet))
      ]

  from_entry_any-Quiet :
      (origin other : String) (until now later : ℕ) (reply : Reply) (site : SitePolicy)
      (entry : Option Entry) (self : Memory p.Regex C)
      → Quiet x p k origin until self
      → now < until
      → Quiet x p k origin until (from_entry x p k other now later reply site entry self).0
  unfolding from_entry reuse remember_policy
  from_entry_any-Quiet origin other until now later reply site none self quiet early =
      without_fresh_any-Quiet origin other until now later reply site none self quiet early
  from_entry_any-Quiet origin other until now later reply site (some entry) self quiet early =
      elim (Bool-cases (is_stale self entry.fetched_at now)) [
        | inl stale ↦ rw stale (
            without_fresh_any-Quiet origin other until now later reply site (some entry) self quiet
              early)
        | inr fresh ↦ rw fresh quiet
      ]

  policy_for_any-Quiet :
      (origin : String) (until : ℕ) (url : Url) (now later : ℕ) (reply : Reply) (site : SitePolicy)
      (self : Memory p.Regex C)
      → Quiet x p k origin until self
      → now < until
      → Quiet x p k origin until (policy_for x p k url now later reply site self).0
  unfolding policy_for
  policy_for_any-Quiet origin until url now later reply site self quiet early =
      elim (Option-cases (fresh_hot_policy self (origin_key url) now)) [
        | inr (policy, hot) ↦ rw (hot, policy_for) quiet
        | inl cold ↦ elim (Result-cases (k.load (origin_key url) self.cache).1) [
          | inl (e, failed) ↦ rw (cold, policy_for, failed) quiet
          | inr (entry, loaded) ↦
              rw (cold, policy_for, loaded)
                (from_entry_any-Quiet origin (origin_key url) until now later reply site entry
                  (loaded_state x p k (origin_key url) self) quiet early)
        ]
      ]

  -- The state after calls, for URLs of any origins.
  unfoldable pub lookups : List Lookup → Memory p.Regex C → Memory p.Regex C
  lookups [] self = self
  lookups (c ∷ calls) self =
      lookups calls (policy_for x p k c.url c.now c.later c.reply c.site self).0

  lookups-Quiet :
      (origin : String) (until : ℕ) (calls : List Lookup) (self : Memory p.Regex C)
      → Quiet x p k origin until self
      → All (λ c. c.now < until) calls
      → Quiet x p k origin until (lookups calls self)
  unfolding lookups
  lookups-Quiet origin until [] self quiet h = quiet
  lookups-Quiet origin until (c ∷ calls) self quiet (early, h) =
      lookups-Quiet origin until calls _
        (policy_for_any-Quiet origin until c.url c.now c.later c.reply c.site self quiet early) h

  -- A server that did not answer is left alone: after a call that asked it and got nothing to keep, and
  -- after any further calls before the retry delay has passed, for this and for other origins, a call
  -- for its origin before that time comes to the same whatever the server would answer, so it does not
  -- ask it. The call asked it if it found no fresh policy and no retry pending. The calls are one after
  -- the other.
  pub policy_for_backs_off :
      (url : Url) (now later d : ℕ) (reply : Reply) (site : SitePolicy) (self : Memory p.Regex C)
      (entry : Option Entry) (calls : List Lookup) (now' later' later'' : ℕ)
      (reply' reply'' : Reply) (site' : SitePolicy)
      → fresh_hot_policy self (origin_key url) now ≡ none
      → (k.load (origin_key url) self.cache).1 ≡ ok entry
      → asks x p k (origin_key url) now entry (loaded_state x p k (origin_key url) self) ≡ true
      → fetch_policy_entry (origin_key url) later reply ≡ ok unavailable
      → self.unavailable_retry_delay ≡ some d
      → later + d < 2 ^ 64
      → All (λ c. c.now < later + d) calls
      → now' < later + d
      → let after = lookups calls (policy_for x p k url now later reply site self).0 in
        policy_for x p k url now' later' reply' site' after
        ≡ policy_for x p k url now' later'' reply'' site' after
  policy_for_backs_off url now later d reply site self entry calls now' later' later'' reply'
        reply'' site' cold loaded asked failed retries small h early =
      let after = policy_for_cold x p k url now later reply site self entry cold loaded in
      let until = later + d in
      policy_for-Quiet x p k url until now' later' later'' reply' reply'' site' _
        (lookups-Quiet (origin_key url) until calls _
          (subst (λ r. Quiet x p k (origin_key url) until r.0) (sym after)
            (from_entry_asked-Quiet x p k (origin_key url) now later d reply site entry
              (loaded_state x p k (origin_key url) self) asked failed retries small))
          h)
        early
