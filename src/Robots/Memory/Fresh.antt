-- ===== src/Robots/Memory/Fresh.antt =====
-- src/robots.rs: a robots.txt that was had is used for as long as it is fresh.
use kun.Prelude.{
  ℕ, ◌≡◌, refl, true, false, String, Option, none, some, arith, Bool-cases, inl, inr, ap, ◌∙◌, sym,
}
use mathlib.Core.Path.{subst}
use kun.Prelude.Map
use kun.Error.{ok}
use kun.Middleware.Externals.{Externals, Url}
use kun.Robots.Rules.{Patterns}
use kun.Robots.Sites.{SitePolicy, origin_key}
use kun.Robots.Cache.{
  Entry, Cache, Memory, Reply, cacheable, fetch_policy_entry, is_stale, fresh_hot_policy,
  remember_policy, is_unavailable_retry_pending, clear_unavailable_retry,
}
use kun.Robots.Memory.{reuse, after_fetch, without_fresh, from_entry, policy_for, from_cache_policy}
use kun.Robots.Memory.Quiet.{asks, loaded_state, policy_for_cold, pending_keeps}

module _ (x : Externals) (p : Patterns) {C : Type 0} (k : Cache C) where
  -- The entry is at hand, for as long as it was before.
  abbrev Hot : (origin : String) → Entry → Option ℕ → Memory p.Regex C → Type 0
  Hot origin entry ttl self =
      (Map.lookup origin self.policies
        ≡ some
            (record { fetched_at = entry.fetched_at; policy = from_cache_policy x p entry.policy }))
      × (self.cache_ttl ≡ ttl)

  after_fetch-Hot :
      (origin : String) (later : ℕ) (site : SitePolicy) (entry : Option Entry) (new : Entry)
      (self : Memory p.Regex C) (saved : C)
      → k.save new self.cache ≡ (saved, ok tt)
      → Hot origin new self.cache_ttl
          (after_fetch x p k origin later site entry (ok (cacheable new)) self).0
  unfolding after_fetch reuse remember_policy clear_unavailable_retry
  after_fetch-Hot origin later site entry new self saved kept =
      rw (kept, after_fetch) (Map.lookup-insert_self origin _ self.policies, refl)

  without_fresh-Hot :
      (origin : String) (now later : ℕ) (reply : Reply) (site : SitePolicy) (entry : Option Entry)
      (new : Entry) (self : Memory p.Regex C) (saved : C)
      → (is_unavailable_retry_pending origin now self).1 ≡ false
      → fetch_policy_entry origin later reply ≡ ok (cacheable new)
      → k.save new self.cache ≡ (saved, ok tt)
      → Hot origin new self.cache_ttl (without_fresh x p k origin now later reply site entry self).0
  unfolding without_fresh
  without_fresh-Hot origin now later reply site entry new self saved due got kept =
      let (at, ttl) =
        after_fetch-Hot origin later site entry new (is_unavailable_retry_pending origin now self).0
          saved (ap (k.save new) ((pending_keeps x p k origin now self).2) ∙ kept) in
      rw (due, without_fresh, got) (at, ttl ∙ (pending_keeps x p k origin now self).1)

  from_entry-Hot :
      (origin : String) (now later : ℕ) (reply : Reply) (site : SitePolicy) (entry : Option Entry)
      (new : Entry) (self : Memory p.Regex C) (saved : C)
      → asks x p k origin now entry self ≡ true
      → fetch_policy_entry origin later reply ≡ ok (cacheable new)
      → k.save new self.cache ≡ (saved, ok tt)
      → Hot origin new self.cache_ttl (from_entry x p k origin now later reply site entry self).0
  unfolding from_entry asks
  from_entry-Hot origin now later reply site none new self saved asked got kept =
      without_fresh-Hot origin now later reply site none new self saved (ground arith) got kept
  from_entry-Hot origin now later reply site (some entry) new self saved asked got kept =
      elim (Bool-cases (is_stale self entry.fetched_at now)) [
        | inr fresh ↦ absurd (ground (arith, asked, fresh))
        | inl stale ↦ rw stale (
            without_fresh-Hot origin now later reply site (some entry) new self saved
              (ground (arith, asked, stale)) got kept)
      ]

  is_stale_same :
      (self self' : Memory p.Regex C) (fetched_at now : ℕ)
      → self'.cache_ttl ≡ self.cache_ttl
      → is_stale self' fetched_at now ≡ is_stale self fetched_at now
  unfolding is_stale
  is_stale_same self self' fetched_at now same = rw (same, is_stale) refl

  policy_for-Hot :
      (url : Url) (now later : ℕ) (reply : Reply) (site : SitePolicy) (entry : Entry)
      (before self : Memory p.Regex C)
      → Hot (origin_key url) entry before.cache_ttl self
      → is_stale before entry.fetched_at now ≡ false
      → policy_for x p k url now later reply site self
        ≡ (self, ok (from_cache_policy x p entry.policy))
  unfolding policy_for fresh_hot_policy
  policy_for-Hot url now later reply site entry before self (at, same) fresh =
      let still : is_stale self entry.fetched_at now ≡ false =
        is_stale_same before self entry.fetched_at now same ∙ fresh in
      let hot : fresh_hot_policy self (origin_key url) now
          ≡ some (from_cache_policy x p entry.policy) =
        rw (at, fresh_hot_policy, still) refl in
      rw (hot, policy_for) refl

  -- A robots.txt that was had is used: after a call that got an entry and saved it, every call for its
  -- origin at a time for which the entry is fresh gives the entry's policy and leaves everything as it
  -- is, whatever the server would answer. The call asked the server: it found no fresh policy and no
  -- retry pending.
  pub policy_for_fresh :
      (url : Url) (now later : ℕ) (reply : Reply) (site : SitePolicy) (self : Memory p.Regex C)
      (saved : C) (entry : Option Entry) (new : Entry) (now' later' : ℕ) (reply' : Reply)
      (site' : SitePolicy)
      → fresh_hot_policy self (origin_key url) now ≡ none
      → (k.load (origin_key url) self.cache).1 ≡ ok entry
      → asks x p k (origin_key url) now entry (loaded_state x p k (origin_key url) self) ≡ true
      → fetch_policy_entry (origin_key url) later reply ≡ ok (cacheable new)
      → k.save new (k.load (origin_key url) self.cache).0 ≡ (saved, ok tt)
      → is_stale self new.fetched_at now' ≡ false
      → policy_for x p k url now' later' reply' site'
          (policy_for x p k url now later reply site self).0
        ≡ (
          (policy_for x p k url now later reply site self).0,
          ok (from_cache_policy x p new.policy),
        )
  policy_for_fresh url now later reply site self saved entry new now' later' reply' site' cold
        loaded asked got kept fresh =
      let after = policy_for_cold x p k url now later reply site self entry cold loaded in
      policy_for-Hot url now' later' reply' site' new self _
        (subst (λ r. Hot (origin_key url) new self.cache_ttl r.0) (sym after)
          (from_entry-Hot (origin_key url) now later reply site entry new
            (loaded_state x p k (origin_key url) self) saved asked got kept))
        fresh
