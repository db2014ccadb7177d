-- ===== src/Robots/Sites.antt =====
-- src/robots.rs: the policies that the program sets for sites of its own choice, and the one that a
-- URL resolves to. A pattern whose text does not compile, which panics in the source, gives `none`.
use Prim.Native.Char.{code}
use Prim.Native.String
use kun.Prelude.{
  ℕ, suc, ltb, ◌==◌, ◌-◌, ◌^◌, min, Bool, true, false, not, ◌&&◌, ◌||◌, String, str_eq, Option,
  none, some, List, [], ◌∷◌, ◌++◌, any, concat, to_string, starts_with, contains, before_first,
  trim, trim_end_char, trim_start_matches, to_ascii_lowercase, eq_ignore_ascii_case, count_other, ℤ,
  pos, negsuc, if◌then◌else◌,
}
use kun.Middleware.Externals.{Externals, Url}
use kun.Robots.Rules.{Patterns, request_host, max_millis}
pub mod Specific
pub mod Strongest

pub data UnavailablePolicy : Type 0 where
  allow_all disallow_all : UnavailablePolicy

pub data Site : Type 0 where
  origin host pattern : String → Site

pub data SiteAccess : Type 0 where
  allow_all disallow_all : SiteAccess

pub record SitePolicy : Type 0 where
  pub access : Option SiteAccess
  pub delay : Option ℕ
  pub sitemaps : List String
  pub unavailable_policy : Option UnavailablePolicy

pub data SiteMatcher (Regex : Type 0) : Type 0 where
  origin host : String → SiteMatcher Regex
  pattern : (regex : Regex) (literal_len : ℕ) → SiteMatcher Regex

pub record SiteRule (Regex : Type 0) : Type 0 where
  pub matcher : SiteMatcher Regex
  pub policy : SitePolicy

unfoldable pub origin_key : Url → String
origin_key url =
    let base = concat (url.scheme ∷ "://" ∷ request_host url ∷ []) in
    elim url.port [ none ↦ base | some port ↦ concat (base ∷ ":" ∷ to_string port ∷ []) ]

unfoldable pub merge_sitemaps : (current extras : List String) → List String
merge_sitemaps current [] = current
merge_sitemaps current (sitemap ∷ extras) =
    merge_sitemaps
      (if any (λ entry. str_eq entry sitemap) current then current else current ++ sitemap ∷ [])
      extras

unfoldable pub site_pattern_specificity : (pattern : String) → ℕ
site_pattern_specificity text = count_other 42 text

-- The milliseconds of a duration, as the source counts them.
unfoldable pub non_negative_milliseconds : (milliseconds : ℤ) → ℕ
non_negative_milliseconds (pos n) = min n (2 ^ 64 - 1)
non_negative_milliseconds (negsuc n) = 0

unfoldable pub new_site_policy : SitePolicy
new_site_policy = record { access = none; delay = none; sitemaps = []; unavailable_policy = none }

unfoldable pub with_access : SitePolicy → SiteAccess → SitePolicy
with_access self access = record self { access = some access }

unfoldable pub with_delay : SitePolicy → (milliseconds : ℤ) → SitePolicy
with_delay self milliseconds = record self { delay = some (non_negative_milliseconds milliseconds) }

unfoldable pub with_sitemap : SitePolicy → (url : String) → SitePolicy
with_sitemap self url =
    if not (str_eq url "") && not (any (λ entry. str_eq entry url) self.sitemaps)
    then record self { sitemaps = self.sitemaps ++ url ∷ [] }
    else self

unfoldable pub with_unavailable_policy : SitePolicy → UnavailablePolicy → SitePolicy
with_unavailable_policy self policy = record self { unavailable_policy = some policy }

-- A class, a length and the place in the list.
abbrev pub Priority : Type 0
Priority = ℕ × ℕ × ℕ

-- The order of the triples, the first difference decides.
abbrev pub before_priority : Priority → Priority → Bool
before_priority (class, length, index) (class', length', index') =
    ltb class class'
    || (class == class' && (ltb length length' || (length == length' && ltb index index')))

-- The site policy of a URL, as the loop resolves it: a setting with the priority of its rule.
pub record Resolving : Type 0 where
  pub access : Option (Priority × SiteAccess)
  pub delay : Option ℕ
  pub sitemaps : List String
  pub unavailable_policy : Option (Priority × UnavailablePolicy)

-- A setting of a rule replaces the one so far if there is none or it has a lower priority.
unfoldable pub stronger {ℓ} :
    {A : Type ℓ}
    → (candidate : Option A) (priority : Priority) (current : Option (Priority × A))
    → Option (Priority × A)
stronger none priority current = current
stronger (some candidate) priority none = some (priority, candidate)
stronger (some candidate) priority (some (held, value)) =
    if before_priority held priority then some (priority, candidate) else some (held, value)

abbrev pub nothing : Resolving
nothing = record { access = none; delay = none; sitemaps = []; unavailable_policy = none }

abbrev pub setting {ℓ} : {A : Type ℓ} → Option (Priority × A) → Option A
setting none = none
setting (some (held, value)) = some value

module _ (p : Patterns) where
  site_regex_text : (pattern : String) → String
  site_regex_text String.[] = "$"
  site_regex_text (String.◌∷◌ c s) =
      let rest = site_regex_text s in
      if code c == 42
      then concat (".*" ∷ rest ∷ [])
      else concat (p.escape (String.◌∷◌ c "") ∷ rest ∷ [])

  unfoldable pub compile_site_pattern_regex : (pattern : String) → Option p.Regex
  unfolding site_regex_text
  compile_site_pattern_regex text = p.compile (concat ("^" ∷ site_regex_text text ∷ []))

  unfoldable pub site_matcher : Site → Option (SiteMatcher p.Regex)
  site_matcher (Site.origin text) = some (SiteMatcher.origin text)
  site_matcher (Site.host text) = some (SiteMatcher.host text)
  site_matcher (Site.pattern text) = elim (compile_site_pattern_regex text) [
    | none ↦ none
    | some regex ↦ some (SiteMatcher.pattern regex (site_pattern_specificity text))
  ]

  unfoldable pub matches : SiteMatcher p.Regex → Url → Bool
  matches (SiteMatcher.origin text) url = str_eq (origin_key url) text
  matches (SiteMatcher.host text) url = eq_ignore_ascii_case (request_host url) text
  matches (SiteMatcher.pattern regex literal_len) url =
      p.is_match regex (to_ascii_lowercase (request_host url))

  unfoldable pub priority : SiteMatcher p.Regex → (index : ℕ) → Priority
  priority (SiteMatcher.origin text) index = (3, String.len text, index)
  priority (SiteMatcher.host text) index = (2, String.len text, index)
  priority (SiteMatcher.pattern regex literal_len) index = (1, literal_len, index)

  -- One round of the loop of `site_policy`.
  unfoldable pub resolve_rule : SiteRule p.Regex → (index : ℕ) → Url → Resolving → Resolving
  resolve_rule rule index url found =
      if matches rule.matcher url
      then record {
        access = stronger rule.policy.access (priority rule.matcher index) found.access;
        delay = max_millis found.delay rule.policy.delay;
        sitemaps = merge_sitemaps found.sitemaps rule.policy.sitemaps;
        unavailable_policy =
            stronger rule.policy.unavailable_policy (priority rule.matcher index)
              found.unavailable_policy;
      }
      else found

  unfoldable pub resolve_from : List (SiteRule p.Regex) → (index : ℕ) → Url → Resolving → Resolving
  resolve_from [] index url found = found
  resolve_from (rule ∷ rules) index url found =
      resolve_from rules (suc index) url (resolve_rule rule index url found)

  unfoldable pub site_policy : List (SiteRule p.Regex) → Url → SitePolicy
  site_policy rules url =
      let found = resolve_from rules 0 url nothing in
      record {
        access = setting found.access;
        delay = found.delay;
        sitemaps = found.sitemaps;
        unavailable_policy = setting found.unavailable_policy;
      }

module _ (x : Externals) where
  -- The text before the first "/".
  abbrev before_slash : String → String
  before_slash s = before_first "/" s

  unfoldable pub normalize_site_origin : (value : String) → String
  normalize_site_origin value =
      let trimmed = trim value in
      elim (x.parse_url trimmed) [
        | some url ↦ origin_key url
        | none ↦ to_ascii_lowercase (trim_end_char 47 trimmed)
      ]

  unfoldable pub normalize_site_host : (value : String) → String
  normalize_site_host value =
      let trimmed = trim value in
      let lower_host : Url → String = λ url. to_ascii_lowercase (request_host url) in
      let without_scheme : Option Url =
        if starts_with "//" trimmed then x.parse_url (concat ("https:" ∷ trimmed ∷ [])) else none in
      let as_host : Option Url =
        if contains trimmed "://" then none else x.parse_url (concat ("https://" ∷ trimmed ∷ [])) in
      if str_eq trimmed "" then "" else elim (x.parse_url trimmed) [
        | some url ↦ lower_host url
        | none ↦ elim without_scheme [
          | some url ↦ lower_host url
          | none ↦ elim as_host [
            | some url ↦ lower_host url
            | none ↦ to_ascii_lowercase (before_slash (trim_end_char 47 trimmed))
          ]
        ]
      ]

  unfoldable pub normalize_site_pattern : (value : String) → String
  normalize_site_pattern value = to_ascii_lowercase (
      before_slash (
        trim_start_matches "https://"
          (trim_start_matches "http://" (trim_end_char 47 (trim value)))))

  unfoldable pub site_origin : String → Site
  site_origin value = Site.origin (normalize_site_origin value)

  unfoldable pub site_host : String → Site
  site_host value = Site.host (normalize_site_host value)

  unfoldable pub site_pattern : String → Site
  site_pattern value = Site.pattern (normalize_site_pattern value)
