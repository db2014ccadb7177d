-- ===== src/Prelude/Text.antt =====
-- Text as the source uses it: equality, concatenation and the decimal form of a number.
use Prim.Native.Nat.{ℕ, zero, suc, ◌/◌, ◌%◌}
use Prim.Native.String
use Prim.Native.String.{String}
use mathlib.Core.List.{List, [], ◌∷◌, ◌++◌}
use Prim.Native.Char.{code}
use mathlib.Core.Option.{Option, none, some}
use mathlib.Core.Bool.{Bool, true, false}
use text.Mathlib.Text.{◌==◌ as str_eq}
use kun.Prelude.Tests.{◌==◌, ltb, if◌then◌else◌}

-- The arguments of `format!` one after the other.
abbrev pub concat : List String → String
concat [] = ""
concat (s ∷ ss) = String.◌++◌ s (concat ss)

abbrev reverse : List String → List String
reverse [] = []
reverse (s ∷ ss) = reverse ss ++ s ∷ []

abbrev numerals : List String
numerals = "0" ∷ "1" ∷ "2" ∷ "3" ∷ "4" ∷ "5" ∷ "6" ∷ "7" ∷ "8" ∷ "9" ∷ []

numeral : ℕ → List String → String
numeral n [] = ""
numeral zero (s ∷ ss) = s
numeral (suc n) (s ∷ ss) = numeral n ss

-- The numerals of a number, the last one first, for as many places as are left.
places : ℕ → ℕ → List String
unfolding numeral
places zero n = []
places (suc left) n =
    let higher = places left (n / 10) in
    numeral (n % 10) numerals ∷ (if ltb 9 n then higher else [])

-- The decimal form of a number, which has fewer places than its value and one.
unfoldable pub to_string : ℕ → String
unfolding places
to_string n = concat (reverse (places (suc n) n))

-- `chars().count()`.
abbrev pub char_count : String → ℕ
char_count s = String.count s

unfoldable pub strip_prefix : String → String → Option String
strip_prefix String.[] s = some s
strip_prefix (String.◌∷◌ c p) String.[] = none
strip_prefix (String.◌∷◌ c p) (String.◌∷◌ d s) = if code c == code d then strip_prefix p s else none

-- The text behind the first separator, if it stands there, and the text before it.
unfoldable pub after_first : String → String → Option String
unfolding strip_prefix
after_first sep String.[] = none
after_first sep (String.◌∷◌ c s) = elim (strip_prefix sep (String.◌∷◌ c s)) [
  | none ↦ after_first sep s
  | some rest ↦ some rest
]

unfoldable pub before_first : String → String → String
unfolding strip_prefix
before_first sep String.[] = ""
before_first sep (String.◌∷◌ c s) = elim (strip_prefix sep (String.◌∷◌ c s)) [
  | none ↦ String.◌∷◌ c (before_first sep s)
  | some rest ↦ ""
]

unfoldable pub ends_with : String → String → Bool
ends_with end String.[] = str_eq end ""
ends_with end (String.◌∷◌ c s) = if str_eq end (String.◌∷◌ c s) then true else ends_with end s

-- `starts_with`.
unfoldable pub starts_with : String → String → Bool
starts_with p s = elim (strip_prefix p s) [ none ↦ false | some rest ↦ true ]

-- `join`.
unfoldable pub join : (separator : String) → List String → String
join separator [] = ""
join separator (s ∷ []) = s
join separator (s ∷ t ∷ ss) = String.◌++◌ s (String.◌++◌ separator (join separator (t ∷ ss)))
