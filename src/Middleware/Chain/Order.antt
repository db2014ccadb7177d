-- ===== src/Middleware/Chain/Order.antt =====
-- src/middleware/chain.rs: in which order the entries of a stage run, and what an upsert does to the
-- keys of a chain.
use mathlib.Core.Path.{subst, fun_ext}
use kun.Prelude.{
  ℤ, false, max, ◌≡◌, refl, ap, ◌∙◌, none, some, Option-cases, inl, inr, Bool, String, str_eq,
  eq_iff, List, [], ◌∷◌, keep, count, arith, has_key, IsSortedByKey, keep-sort_by_key,
  sort_by_key-IsSortedByKey, count-sort_by_key, if◌then◌else◌,
}
use kun.Prelude.Map
use kun.Request.{Request, uses, skips, middleware_order, middleware_override}
use kun.Middleware.Chain.{
  Entry, Config, Stage, same_stage, configured_order, replace_or_add, upsert_boxed, matches_stage,
  request_order, ordered_entries,
}

module _ {F M : Type 0} where
  -- Whether an entry may run at a stage, and the place that it asks for: the one that the request
  -- gives to its key, and otherwise its own.
  abbrev pub runs_at : Stage → Entry F M → Bool
  runs_at kind e = if e.config.enabled then same_stage e.config.stage kind else false

  abbrev pub place_of : Request F → Entry F M → ℤ
  place_of r e = elim (Map.lookup e.key r.middleware) [
    | none ↦ e.config.order
    | some skips ↦ e.config.order
    | some (uses own) ↦ elim own.order [ none ↦ e.config.order | some order ↦ order ]
  ]

  request_order-place_of : (r : Request F) → request_order r ≡ place_of r
  unfolding request_order middleware_order middleware_override
  request_order-place_of r = fun_ext λ e. elim (Option-cases (Map.lookup e.key r.middleware)) [
    | inl unset ↦ rw (unset, request_order, middleware_order, middleware_override, place_of) refl
    | inr (skips, set) ↦
        rw (set, request_order, middleware_order, middleware_override, place_of) refl
    | inr (uses own, set) ↦ elim (Option-cases own.order) [
      | inl free ↦
          rw (set, request_order, middleware_order, middleware_override, place_of, free) refl
      | inr (order, placed) ↦
          rw (set, request_order, middleware_order, middleware_override, place_of, placed) refl
    ]
  ]

  matches_stage-runs_at : (kind : Stage) → matches_stage {F = F} {M = M} kind ≡ runs_at kind
  unfolding matches_stage
  matches_stage-runs_at kind = fun_ext λ e. ground arith

  -- For every request, what runs at a stage are the enabled entries of the stage, each as often as in
  -- the chain, in ascending order of the place that the request gives to their keys, or else of their
  -- own; those of one place run in the order of the chain.
  pub ordered_entries_stable :
      (entries : List (Entry F M)) (kind : Stage) (r : Request F)
      → IsSortedByKey (place_of r) (ordered_entries entries kind r)
        × ((order : ℤ)
            → keep (has_key (place_of r) order) (ordered_entries entries kind r)
              ≡ keep (has_key (place_of r) order) (keep (runs_at kind) entries))
  unfolding ordered_entries
  ordered_entries_stable entries kind r =
      subst
        (λ at.
          IsSortedByKey at (ordered_entries entries kind r)
          × ((order : ℤ)
              → keep (has_key at order) (ordered_entries entries kind r)
                ≡ keep (has_key at order) (keep (runs_at kind) entries)))
        (request_order-place_of r)
        (
          sort_by_key-IsSortedByKey (request_order r) (keep (matches_stage kind) entries),
          λ order.
              keep-sort_by_key (request_order r) order (keep (matches_stage kind) entries)
              ∙ ap (λ at. keep (has_key (request_order r) order) (keep at entries))
                  (matches_stage-runs_at kind),
        )

  abbrev pub keyed : String → Entry F M → Bool
  keyed key e = str_eq e.key key

  count-replace_or_add :
      (key other : String) (config : Config F) (middleware : M) (entries : List (Entry F M))
      → count (keyed other) (replace_or_add key config middleware entries) ≡ (
          if str_eq key other
          then max 1 (count (keyed other) entries)
          else count (keyed other) entries)
  unfolding replace_or_add
  count-replace_or_add key other config middleware [] = ground arith
  count-replace_or_add key other config middleware (e ∷ es) = ground (
    arith,
    eq_iff key other,
    eq_iff e.key key,
    eq_iff e.key other,
    count-replace_or_add key other config middleware es,
  )

  -- After an upsert its key has an entry, and no key has more entries than before, but for the one
  -- entry that a missing key gets.
  pub count-upsert_boxed :
      (key other : String) (config : Config F) (middleware : M) (entries : List (Entry F M))
      → count (keyed other) (upsert_boxed key config middleware entries) ≡ (
          if str_eq key other
          then max 1 (count (keyed other) entries)
          else count (keyed other) entries)
  unfolding upsert_boxed
  count-upsert_boxed key other config middleware entries = ground (
    arith,
    count-sort_by_key configured_order (keyed other) (replace_or_add key config middleware entries),
    count-replace_or_add key other config middleware entries,
  )
