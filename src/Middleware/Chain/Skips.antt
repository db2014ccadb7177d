-- ===== src/Middleware/Chain/Skips.antt =====
-- src/middleware/chain.rs: what a request skips does not run, and the first answer that is not
-- Continue ends a stage.
use kun.Prelude.{
  ◌≡◌, refl, Bool, true, String, str_eq, List, [], ◌∷◌, ◌++◌, keep, any, All, All-sort_by_key,
  arith, if◌then◌else◌, Bool-cases, inl, inr,
}
use kun.Prelude.Map
use kun.Error.{Result, ok, err}
use kun.Request.{Request, skips, middleware_override, middleware_skips, skip}
use kun.Middleware.Flow.{Context, continue}
use kun.Middleware.Chain.{
  Entry, download, Chain, request_order, matches_stage, ordered_entries, next_flow, run_flow,
  before_download, continues,
}

next_flow_assoc :
    {S Flow : Type 0} (goes_on : Flow → Bool) (f g both : S → S × Result Flow)
    → ((s : S) → both s ≡ next_flow goes_on g (f s))
    → (answer : S × Result Flow)
    → next_flow goes_on both answer ≡ next_flow goes_on g (next_flow goes_on f answer)
unfolding next_flow
next_flow_assoc goes_on f g both h (s, err e) = refl
next_flow_assoc goes_on f g both h (s, ok a) = elim (Bool-cases (goes_on a)) [
  | inl more ↦ rw more (h s)
  | inr stop ↦ rw (stop, stop) refl
]

module _ {F : Type 0} where
  skips_inserted :
      (name key : String) (r : Request F)
      → middleware_skips (record r { middleware = Map.insert name skips r.middleware }) key
        ≡ (if str_eq name key then true else middleware_skips r key)
  unfolding middleware_skips middleware_override
  skips_inserted name key r = ground (arith, Map.lookup-insert name key skips r.middleware)

  -- A skipped name is skipped, and no other middleware becomes skipped.
  pub middleware_skips-skip :
      (names : List String) (key : String) (r : Request F)
      → middleware_skips (skip names r) key
        ≡ (if any (λ n. str_eq n key) names then true else middleware_skips r key)
  unfolding skip
  middleware_skips-skip [] key r = refl
  middleware_skips-skip (n ∷ ns) key r = ground (
    arith,
    skips_inserted n key r,
    middleware_skips-skip ns key (record r { middleware = Map.insert n skips r.middleware }),
  )

  module _ {M S Flow : Type 0} (request : S → Request F) where
    run_flow_skipped :
        (goes : Flow) (goes_on : Flow → Bool) (hook : M → S → S × Result Flow)
        (entries : List (Entry F M)) (s : S)
        → All (λ e. middleware_skips (request s) e.key ≡ true) entries
        → run_flow request goes goes_on hook entries s ≡ (s, ok goes)
    unfolding run_flow
    run_flow_skipped goes goes_on hook [] s h = refl
    run_flow_skipped goes goes_on hook (e ∷ es) s (here, h) =
        rw (here, run_flow) (run_flow_skipped goes goes_on hook es s h)

    -- The hooks of a list of entries run one after the other: the hooks of its rest run only after
    -- each of the first answered Continue, and an error or another answer of those is the answer.
    pub run_flow-append :
        (goes : Flow) (goes_on : Flow → Bool) (hook : M → S → S × Result Flow)
        (first rest : List (Entry F M)) (s : S)
        → goes_on goes ≡ true
        → run_flow request goes goes_on hook (first ++ rest) s
          ≡ next_flow goes_on
              (run_flow request goes goes_on hook rest)
              (run_flow request goes goes_on hook first s)
    unfolding run_flow next_flow
    run_flow-append goes goes_on hook [] rest s h = rw h refl
    run_flow-append goes goes_on hook (e ∷ es) rest s h =
        elim (Bool-cases (middleware_skips (request s) e.key)) [
          | inl skipped ↦ rw (skipped, run_flow) (run_flow-append goes goes_on hook es rest s h)
          | inr on ↦
              rw (on, run_flow)
                (next_flow_assoc goes_on (run_flow request goes goes_on hook es)
                  (run_flow request goes goes_on hook rest)
                  (run_flow request goes goes_on hook (es ++ rest))
                  (λ s'. run_flow-append goes goes_on hook es rest s' h) (hook e.middleware s))
        ]

  All-keep :
      {M : Type 0} (P : Entry F M → Type 0) (p : Entry F M → Bool) (es : List (Entry F M))
      → All P es
      → All P (keep p es)
  All-keep P p [] h = tt
  All-keep P p (e ∷ es) h = elim (Bool-cases (p e)) [
    | inl kept ↦ rw kept (h.0, All-keep P p es h.1)
    | inr left ↦ rw left (All-keep P p es h.1)
  ]

  All-skipped :
      {M : Type 0} (names : List String) (r : Request F) (entries : List (Entry F M))
      → All (λ e. any (λ n. str_eq n e.key) names ≡ true) entries
      → All (λ e. middleware_skips (skip names r) e.key ≡ true) entries
  All-skipped names r [] h = tt
  All-skipped names r (e ∷ es) (here, h) =
      (rw (middleware_skips-skip names e.key r, here) refl, All-skipped names r es h)

  -- The download of a request that was told to skip each middleware of the chain by its name runs
  -- none of their hooks: the context and the shared state stay, and the download continues.
  pub skip-before_download :
      {Response Item W : Type 0} (chain : Chain F Response Item W) (c : Context F) (w : W)
      (names : List String) (r : Request F)
      → All (λ e. any (λ n. str_eq n e.key) names ≡ true) chain
      → c.request ≡ skip names r
      → before_download chain (c, w) ≡ ((c, w), ok continue)
  unfolding before_download ordered_entries
  skip-before_download chain c w names r h same =
      let skipped : All (λ e. middleware_skips c.request e.key ≡ true) chain =
        rw same (All-skipped names r chain h) in
      run_flow_skipped (λ t. t.0.request) continue continues (λ m. m.before_download)
        (ordered_entries chain download c.request) (c, w)
        (All-sort_by_key (request_order c.request) (λ e. middleware_skips c.request e.key ≡ true)
          (keep (matches_stage download) chain)
          (All-keep (λ e. middleware_skips c.request e.key ≡ true) (matches_stage download) chain
            skipped))
