-- ===== src/Robots/Memory/Spacing.antt =====
-- src/robots.rs: the requests to an origin keep the delay that its robots.txt asks for.
use mathlib.Core.Path.{subst}
use kun.Prelude.{
  ℕ, false, sym, ltb, ◌-◌, ◌+◌, ◌<◌, ◌^◌, ◌==◌, min, ◌≡◌, refl, true, String, some, List, [], ◌∷◌,
  All, arith, Bool-cases, Option-cases, inl, inr, ap, ◌∙◌,
}
use kun.Prelude.Map
use kun.Error.{Result, ok, Result-cases}
use kun.Scheduler.Task.{saturating_add}
use kun.Middleware.Externals.{Externals, Url}
use kun.Robots.Rules.{Patterns, max_millis}
use kun.Robots.Sites.{SitePolicy, site_policy, origin_key}
use kun.Robots.Cache.{Decision, allow, delay, Cache, Policy, Memory, Reply}
use kun.Robots.Memory.{
  policy_for, pace, delayed_by, option_millis, policy_delay, decide, check, blocks, policy_allows,
  is_web,
}
use kun.Robots.Memory.Deadlines.{DueAt, deadlines-policy_for, decide-DueAt}

-- The arguments of a call of `check`.
pub record Call : Type 0 where
  pub request_url : String
  pub user_agent : String
  pub now : ℕ
  pub later : ℕ
  pub decided_at : ℕ
  pub reply : Reply

module _ (x : Externals) (p : Patterns) {C : Type 0} (k : Cache C) where
  unfoldable pub call_check : Call → Memory p.Regex C → Memory p.Regex C × Result Decision
  call_check c self = check x p k c.request_url c.user_agent c.now c.later c.decided_at c.reply self

  check-DueAt :
      (origin : String) (until : ℕ) (c : Call) (self : Memory p.Regex C)
      → DueAt x p k origin until self
      → c.decided_at < until
      → DueAt x p k origin until (call_check c self).0
  unfolding call_check check
  check-DueAt origin until c self due early = elim (Option-cases (x.parse_url c.request_url)) [
    | inl no_url ↦ rw (no_url, check) due
    | inr (url, parsed) ↦ elim (Bool-cases (is_web x p k url)) [
      | inr other ↦ rw (parsed, check, other) due
      | inl web ↦
          let site = site_policy p self.site_policies url in
          let answer = policy_for x p k url c.now c.later c.reply site self in
          let due' : DueAt x p k origin until answer.0 =
            ap (Map.lookup_or 0 origin)
              (deadlines-policy_for x p k url c.now c.later c.reply site self)
            ∙ due in
          elim (Result-cases answer.1) [
            | inl (e, failed) ↦ rw (parsed, check, web, failed) due'
            | inr (policy, got) ↦
                rw (parsed, check, web, got)
                  (decide-DueAt x p k origin until url c.user_agent c.decided_at site policy
                    answer.0 due' early)
          ]
    ]
  ]

  -- The policies after the calls.
  unfoldable pub checks : List Call → Memory p.Regex C → Memory p.Regex C
  checks [] self = self
  checks (c ∷ calls) self = checks calls (call_check c self).0

  checks-DueAt :
      (origin : String) (until : ℕ) (calls : List Call) (self : Memory p.Regex C)
      → DueAt x p k origin until self
      → All (λ c. c.decided_at < until) calls
      → DueAt x p k origin until (checks calls self)
  unfolding checks
  checks-DueAt origin until [] self due h = due
  checks-DueAt origin until (c ∷ calls) self due (early, h) =
      checks-DueAt origin until calls (call_check c self).0
        (check-DueAt origin until c self due early) h

  pace_allowed-DueAt :
      (origin : String) (at required : ℕ) (self : Memory p.Regex C)
      → (pace x p k origin at required self).1 ≡ allow
      → at + required < 2 ^ 64
      → DueAt x p k origin (at + required) (pace x p k origin at required self).0
  unfolding pace
  pace_allowed-DueAt origin at required self allowed small =
      elim (Bool-cases (ltb at (Map.lookup_or 0 origin self.request_deadlines))) [
        | inl waits ↦ absurd (ground (arith, allowed, waits))
        | inr free ↦
            let exact : min (at + required) (2 ^ 64 - 1) ≡ at + required = omega arith in
            rw (free, pace)
              (Map.lookup_or-insert_self 0 origin (saturating_add at required)
                  self.request_deadlines
                ∙ exact)
      ]

  pace_early :
      (origin : String) (until at required : ℕ) (self : Memory p.Regex C)
      → DueAt x p k origin until self
      → at < until
      → until < 2 ^ 63
      → pace x p k origin at required self ≡ (self, delay (until - at))
  unfolding pace
  pace_early origin until at required self due early small =
      let waits : ltb at until ≡ true = ground arith in
      let exact : min (until - at) (2 ^ 63 - 1) ≡ until - at = omega arith in
      rw (due, pace, waits, exact) refl

  -- A call that is to be paced: its URL is one of the web, of this origin; its policy is had; neither
  -- the policy nor the site's own access blocks it; and the longer of their two delays is this one.
  abbrev pub IsPaced : (origin : String) (required : ℕ) → Call → Memory p.Regex C → Type 0
  IsPaced origin required c self =
      (url : Url) × (policy : Policy p.Regex) × (x.parse_url c.request_url ≡ some url)
      × (is_web x p k url ≡ true)
      × (origin_key url ≡ origin)
      × ((policy_for x p k url c.now c.later c.reply (site_policy p self.site_policies url) self).1
          ≡ ok policy)
      × (blocks x p k (site_policy p self.site_policies url).access
            (policy_allows x p policy url c.user_agent)
          ≡ false)
      × (max_millis (option_millis x p k (policy_delay x p policy c.user_agent))
            (option_millis x p k (site_policy p self.site_policies url).delay)
          ≡ some required)

  -- The policies once the policy of a call is had.
  abbrev informed : Url → Call → Memory p.Regex C → Memory p.Regex C
  informed url c self =
      (policy_for x p k url c.now c.later c.reply (site_policy p self.site_policies url) self).0

  decide_paced :
      (url : Url) (user_agent : String) (at required : ℕ) (site : SitePolicy)
      (policy : Policy p.Regex) (self : Memory p.Regex C)
      → blocks x p k site.access (policy_allows x p policy url user_agent) ≡ false
      → max_millis
          (option_millis x p k (policy_delay x p policy user_agent))
          (option_millis x p k site.delay)
        ≡ some required
      → (required == 0) ≡ false
      → decide x p k url user_agent at site policy self
        ≡ pace x p k (origin_key url) at required self
  unfolding decide delayed_by
  decide_paced url user_agent at required site policy self open_to long waits =
      rw (open_to, decide, long, delayed_by, waits) refl

  call_check_paced :
      (origin : String) (required : ℕ) (c : Call) (self : Memory p.Regex C)
      (h : IsPaced origin required c self)
      → (required == 0) ≡ false
      → call_check c self ≡ (
        (pace x p k origin c.decided_at required (informed h.0 c self)).0,
        ok (pace x p k origin c.decided_at required (informed h.0 c self)).1,
      )
  unfolding call_check check
  call_check_paced origin required c self (url, policy, parsed, web, here, got, open_to, long)
        waits =
      let site = site_policy p self.site_policies url in
      let decided =
        decide_paced url c.user_agent c.decided_at required site policy (informed url c self)
          open_to long waits
        ∙ ap (λ o. pace x p k o c.decided_at required (informed url c self)) here in
      rw (parsed, check, web, got) (ap (λ r. (r.0, ok r.1)) decided)

  informed-DueAt :
      (origin : String) (until : ℕ) (url : Url) (c : Call) (self : Memory p.Regex C)
      → DueAt x p k origin until self
      → DueAt x p k origin until (informed url c self)
  informed-DueAt origin until url c self due =
      ap (Map.lookup_or 0 origin) (
        deadlines-policy_for x p k url c.now c.later c.reply (site_policy p self.site_policies url)
          self)
      ∙ due

  -- Between two requests to an origin lies the delay of the first: after a check allowed a request with
  -- a delay, and after any checks of any requests that were decided before its end, a check of a
  -- request to the origin that is not blocked and has a delay of its own says to wait for exactly the
  -- rest of the first delay. A request has a delay when its URL is one of the web, its policy is had and
  -- does not block it, and the policy or the site's own setting asks for one. The calls are one after
  -- the other, and the times stay below 2^63.
  pub checks_wait :
      (origin : String) (first : Call) (required : ℕ) (self : Memory p.Regex C) (calls : List Call)
      (last : Call) (required' : ℕ)
      → IsPaced origin required first self
      → (required == 0) ≡ false
      → (call_check first self).1 ≡ ok allow
      → first.decided_at + required < 2 ^ 63
      → All (λ c. c.decided_at < first.decided_at + required) calls
      → IsPaced origin required' last (checks calls (call_check first self).0)
      → (required' == 0) ≡ false
      → last.decided_at < first.decided_at + required
      → (call_check last (checks calls (call_check first self).0)).1
        ≡ ok (delay (first.decided_at + required - last.decided_at))
  checks_wait origin first required self calls last required' paced waits allowed small h paced'
        waits' early =
      let until = first.decided_at + required in
      let checked = call_check_paced origin required first self paced waits in
      let had = informed paced.0 first self in
      let allowed' : (pace x p k origin first.decided_at required had).1 ≡ allow =
        ground (arith, ap (λ r. r.1) checked, allowed) in
      let due : DueAt x p k origin until (call_check first self).0 =
        subst (λ r. DueAt x p k origin until r.0) (sym checked)
          (pace_allowed-DueAt origin first.decided_at required had allowed' (omega arith)) in
      let after = checks calls (call_check first self).0 in
      ap (λ r. r.1) (call_check_paced origin required' last after paced' waits')
      ∙ ap (λ r. ok r.1)
          (pace_early origin until last.decided_at required' (informed paced'.0 last after)
            (informed-DueAt origin until paced'.0 last after
              (checks-DueAt origin until calls _ due h))
            early small)
