-- ===== src/Robots/Parse/Kept.antt =====
-- src/robots.rs: what holds of every robots.txt that was read.
use kun.Prelude.{
  ℕ, ◌≡◌, refl, Bool, true, false, not, ◌&&◌, ◌||◌, String, str_eq, eq_iff, Option, none, List, [],
  ◌∷◌, ◌++◌, any, All, All-append, arith, Bool-cases, Option-cases, inl, inr, trim, split_once,
  lines, to_ascii_lowercase,
}
use kun.Middleware.Externals.{Externals}
use kun.Robots.Rules.{Patterns, Rule, allow, disallow}
use kun.Robots.Parse.{
  Reader, is_empty, is_some, finalize_group, read_agent, read_rule, read_crawl_delay,
  read_request_rate, read_sitemap, read_field, read_line, read_lines, start, parse, new_rule,
  parse_crawl_delay, parse_request_rate, strip_comment, strip_utf8_bom,
}

-- No text stands twice, and none is empty.
abbrev pub Sitemaps : List String → Type 0
Sitemaps [] = Unit
Sitemaps (s ∷ ss) = (str_eq s "" ≡ false) × (any (λ t. str_eq t s) ss ≡ false) × Sitemaps ss

any-append_one :
    {A : Type 0} (p : A → Bool) (xs : List A) (y : A) → any p (xs ++ y ∷ []) ≡ (any p xs || p y)
any-append_one p [] y = ground arith
any-append_one p (x ∷ xs) y = ground (arith, any-append_one p xs y)

is_empty-append : {A : Type 0} (xs : List A) (y : A) → is_empty (xs ++ y ∷ []) ≡ false
is_empty-append [] y = refl
is_empty-append (x ∷ xs) y = refl

Sitemaps-append :
    (ss : List String) (s : String)
    → Sitemaps ss
    → str_eq s "" ≡ false
    → any (λ t. str_eq t s) ss ≡ false
    → Sitemaps (ss ++ s ∷ [])
Sitemaps-append [] s h filled new = (filled, refl, tt)
Sitemaps-append (t ∷ ss) s (own, apart, h) filled new = (
  own,
  ground (arith, any-append_one (λ u. str_eq u t) ss s, eq_iff s t, eq_iff t s),
  Sitemaps-append ss s h filled (ground arith),
)

module _ {Regex : Type 0} where
  -- Each group has an agent; and what is read before the first agent of a group is not kept.
  abbrev pub IsRead : Reader Regex → Type 0
  IsRead s =
      All (λ g. is_empty g.agents ≡ false) s.groups
      × Sitemaps s.sitemaps
      × (is_empty s.current_agents ≡ true
          → (is_empty s.current_rules ≡ true)
            × (s.current_crawl_delay ≡ none)
            × (s.current_request_interval ≡ none))

  finalize_group-IsRead : (s : Reader Regex) → IsRead s → IsRead (finalize_group s)
  unfolding finalize_group
  finalize_group-IsRead s (groups, sitemaps, unused) =
      elim (Bool-cases (is_empty s.current_agents)) [
        | inl no_agents ↦ rw no_agents (groups, sitemaps, λ h. (refl, refl, refl))
        | inr agents ↦ rw agents (
          All-append (λ g. is_empty g.agents ≡ false) s.groups _ groups (agents, tt),
          sitemaps,
          λ h. (refl, refl, refl),
        )
      ]

  read_agent-IsRead : (value : String) (s : Reader Regex) → IsRead s → IsRead (read_agent value s)
  unfolding read_agent
  read_agent-IsRead value s h =
      elim (Bool-cases (
        not (is_empty s.current_agents)
        && (not (is_empty s.current_rules) || is_some s.current_crawl_delay))) [
          | inl full ↦
              let h' = finalize_group-IsRead s h in
              rw full (
                h'.0,
                h'.1,
                λ e. absurd (
                    ground (
                      arith,
                      is_empty-append (finalize_group s).current_agents (to_ascii_lowercase value),
                    )),
              )
          | inr begun ↦ rw begun (
            h.0,
            h.1,
            λ e.
                absurd
                  (ground (arith, is_empty-append s.current_agents (to_ascii_lowercase value))),
          )
        ]

  read_rule-IsRead : (rule : Rule Regex) (s : Reader Regex) → IsRead s → IsRead (read_rule rule s)
  unfolding read_rule
  read_rule-IsRead rule s h = elim (Bool-cases (is_empty s.current_agents)) [
    | inl unnamed ↦ rw unnamed h
    | inr named ↦ rw named (h.0, h.1, λ e. absurd (ground arith))
  ]

  read_crawl_delay-IsRead :
      (delay : Option ℕ) (s : Reader Regex) → IsRead s → IsRead (read_crawl_delay delay s)
  unfolding read_crawl_delay
  read_crawl_delay-IsRead delay s h = elim (Bool-cases (is_empty s.current_agents)) [
    | inl unnamed ↦ rw unnamed h
    | inr named ↦ rw named (h.0, h.1, λ e. absurd (ground arith))
  ]

  read_request_rate-IsRead :
      (interval : Option ℕ) (s : Reader Regex) → IsRead s → IsRead (read_request_rate interval s)
  unfolding read_request_rate
  read_request_rate-IsRead interval s h = elim (Bool-cases (is_empty s.current_agents)) [
    | inl unnamed ↦ rw unnamed h
    | inr named ↦ rw named (h.0, h.1, λ e. absurd (ground arith))
  ]

  read_sitemap-IsRead :
      (value : String) (s : Reader Regex) → IsRead s → IsRead (read_sitemap value s)
  unfolding read_sitemap
  read_sitemap-IsRead value s h =
      elim (Bool-cases (str_eq value "" || any (λ entry. str_eq entry value) s.sitemaps)) [
        | inl known ↦ rw known h
        | inr new ↦
            rw new (h.0, Sitemaps-append s.sitemaps value h.1 (ground arith) (ground arith), h.2)
      ]

module _ (x : Externals) (p : Patterns) where
  read_field-IsRead :
      (name value : String) (s : Reader p.Regex) → IsRead s → IsRead (read_field x p name value s)
  unfolding read_field
  read_field-IsRead name value s h = elim (Bool-cases (str_eq name "user-agent")) [
    | inl agent ↦ rw agent (read_agent-IsRead value s h)
    | inr n1 ↦ elim (Bool-cases (str_eq name "allow")) [
      | inl allows ↦ rw (n1, allows) (read_rule-IsRead (new_rule x p allow value) s h)
      | inr n2 ↦ elim (Bool-cases (str_eq name "disallow")) [
        | inl forbids ↦ rw (n1, n2, forbids) (read_rule-IsRead (new_rule x p disallow value) s h)
        | inr n3 ↦ elim (Bool-cases (str_eq name "crawl-delay")) [
          | inl delays ↦
              rw (n1, n2, n3, delays) (read_crawl_delay-IsRead (parse_crawl_delay x value) s h)
          | inr n4 ↦ elim (Bool-cases (str_eq name "request-rate")) [
            | inl rates ↦
                rw (n1, n2, n3, n4, rates)
                  (read_request_rate-IsRead (parse_request_rate x value) s h)
            | inr n5 ↦ elim (Bool-cases (str_eq name "sitemap")) [
              | inl maps ↦ rw (n1, n2, n3, n4, n5, maps) (read_sitemap-IsRead value s h)
              | inr other ↦ rw (n1, n2, n3, n4, n5, other) h
            ]
          ]
        ]
      ]
    ]
  ]

  read_line-IsRead : (line : String) (s : Reader p.Regex) → IsRead s → IsRead (read_line x p line s)
  unfolding read_line
  read_line-IsRead raw s h =
      let line = trim (strip_utf8_bom (strip_comment raw)) in
      elim (Bool-cases (str_eq line "")) [
        | inl blank ↦ rw blank (finalize_group-IsRead s h)
        | inr filled ↦ elim (Option-cases (split_once ":" line)) [
          | inl bare ↦ rw (filled, bare) h
          | inr ((name, value), found) ↦
              rw (filled, found)
                (read_field-IsRead (to_ascii_lowercase (trim name)) (trim value) s h)
        ]
      ]

  read_lines-IsRead :
      (texts : List String) (s : Reader p.Regex) → IsRead s → IsRead (read_lines x p texts s)
  unfolding read_lines
  read_lines-IsRead [] s h = h
  read_lines-IsRead (line ∷ rest) s h = read_lines-IsRead rest _ (read_line-IsRead line s h)

  -- Whatever its text is, a robots.txt is read as groups that each have an agent, and as sitemaps that
  -- are not empty and of which none stands twice.
  pub parse-IsRead :
      (body : String)
      → All (λ g. is_empty g.agents ≡ false) (parse x p body).groups
        × Sitemaps (parse x p body).sitemaps
  unfolding parse
  parse-IsRead body =
      let h =
        finalize_group-IsRead _
          (read_lines-IsRead (lines body) (start x p) (tt, tt, λ e. (refl, refl, refl))) in
      (h.0, h.1)
