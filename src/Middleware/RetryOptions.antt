-- ===== src/Middleware/RetryOptions.antt =====
-- The options and the metadata that src/middleware/retry_by_status.rs and retry_by_error.rs read with
-- functions of the same text.
use kun.Prelude.{ℕ, Option, none, some, List, [], ◌∷◌, map, get_elem?}
use kun.Prelude.Map
use kun.Value.{Value, as_array, as_f64}
use kun.Request.{Request, MiddlewareOptions}
use kun.Middleware.Externals.{Externals}

module _ {ℓ} {A : Type ℓ} where
  -- `or_else`, `first` and `last`.
  abbrev pub or_else : Option A → Option A → Option A
  or_else none b = b
  or_else (some a) b = some a

  abbrev pub last : List A → Option A
  last [] = none
  last (a ∷ rest) = or_else (last rest) (some a)

  -- The element at the index, and the last one behind the end.
  unfoldable pub element_or_last : ℕ → List A → Option A
  element_or_last index values = or_else (get_elem? values index) (last values)

module _ {F : Type 0} where
  -- The numbers among the values (`filter_map(Value::as_f64)`).
  unfoldable pub numbers : List (Value F) → List F
  numbers [] = []
  numbers (v ∷ vs) = let rest = numbers vs in elim (as_f64 v) [ none ↦ rest | some n ↦ n ∷ rest ]

  unfoldable pub values_to_numbers : Value F → List F
  unfolding numbers
  values_to_numbers v = elim (as_array v) [
    | some values ↦ numbers values
    | none ↦ elim (as_f64 v) [ none ↦ [] | some n ↦ n ∷ [] ]
  ]

  unfoldable pub first_numeric : Value F → Option (Value F)
  first_numeric v =
      let first : Option (Value F) = elim (as_array v) [
        | none ↦ none
        | some values ↦ get_elem? values 0
      ] in
      or_else first (some v)

module _ (x : Externals) where
  -- The number of the metadata, 0 when there is none.
  unfoldable pub retry_number : Request x.float.F → x.float.F
  retry_number r =
      let found : Option x.float.F = elim (Map.lookup "_retry_times" r.meta) [
        | none ↦ none
        | some v ↦ as_f64 v
      ] in
      elim found [ none ↦ x.float.of_u64 0 | some n ↦ n ]

  unfoldable pub retry_times : Request x.float.F → ℕ
  retry_times r = x.float.to_u64 (retry_number r)

  unfoldable pub parse_count : MiddlewareOptions x.float.F → Option ℕ
  parse_count options =
      let value : Option (Value x.float.F) = elim (Map.lookup "count" options) [
        | none ↦ none
        | some v ↦ first_numeric v
      ] in
      let number : Option x.float.F = elim value [ none ↦ none | some v ↦ as_f64 v ] in
      elim number [ none ↦ none | some n ↦ some (x.float.to_u64 n) ]

  unfoldable pub numbers_of : Option (Value x.float.F) → List x.float.F
  numbers_of none = []
  numbers_of (some v) = values_to_numbers v

  unfoldable pub parse_statuses : MiddlewareOptions x.float.F → List ℕ
  parse_statuses options =
      map x.float.to_u16
        (numbers_of (or_else (Map.lookup "status" options) (Map.lookup "http_status" options)))

  unfoldable pub parse_backoff : MiddlewareOptions x.float.F → List ℕ
  parse_backoff options = map x.float.to_u64 (numbers_of (Map.lookup "backoff" options))
