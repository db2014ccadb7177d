-- ===== src/Engine/Domains.antt =====
-- src/engine.rs: the domain of a URL, and the test of the allowed domains.
use kun.Prelude.{
  Bool, true, false, ◌||◌, String, str_eq, concat, Option, none, some, List, [], ◌∷◌, any,
  after_first, before_first, ends_with,
}

-- The text between the first "://" and the next one, up to its first "/" and up to its first ":".
unfoldable pub extract_domain : String → Option String
extract_domain url = elim (after_first "://" url) [
  | none ↦ none
  | some after_scheme ↦ some (before_first ":" (before_first "/" (before_first "://" after_scheme)))
]

unfoldable pub is_domain_allowed : String → List String → Bool
unfolding extract_domain
is_domain_allowed url [] = true
is_domain_allowed url (d ∷ ds) = elim (extract_domain url) [
  | none ↦ false
  | some domain ↦ any (λ d. str_eq domain d || ends_with (concat ("." ∷ d ∷ [])) domain) (d ∷ ds)
]
