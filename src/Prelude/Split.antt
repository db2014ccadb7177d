-- ===== src/Prelude/Split.antt =====
-- Text as the source takes it apart: white space, lines, separators, letters and numbers.
use Prim.Native.Nat.{ℕ, zero, suc, ◌+◌, ◌-◌, ◌*◌, ◌^◌}
use Prim.Native.String
use Prim.Native.String.{String}
use Prim.Native.Char.{Char, code}
use mathlib.Core.List.{List, [], ◌∷◌}
use mathlib.Core.Option.{Option, none, some}
use mathlib.Core.Bool.{Bool, true, false, ◌&&◌, ◌||◌}
use text.Mathlib.Text.{◌==◌ as str_eq}
use kun.Prelude.Tests.{◌==◌, leb, ltb, if◌then◌else◌}
use kun.Prelude.Text.{strip_prefix, after_first, before_first}

-- `char::is_whitespace`.
is_whitespace : ℕ → Bool
is_whitespace c =
    (leb 9 c && leb c 13)
    || c == 32
    || c == 0x85
    || c == 0xa0
    || c == 0x1680
    || (leb 0x2000 c && leb c 0x200a)
    || c == 0x2028
    || c == 0x2029
    || c == 0x202f
    || c == 0x205f
    || c == 0x3000

-- `value.trim().is_empty()`.
unfoldable pub is_blank : String → Bool
unfolding is_whitespace
is_blank String.[] = true
is_blank (String.◌∷◌ c s) = is_whitespace (code c) && is_blank s

-- `trim_start_matches`: the prefix is taken away as often as it stands there. Each round takes a
-- character away, so the number of characters is fuel enough.
strip_prefixes : ℕ → String → String → String
strip_prefixes zero p s = s
strip_prefixes (suc left) p s = elim (strip_prefix p s) [
  | none ↦ s
  | some rest ↦ strip_prefixes left p rest
]

unfoldable pub trim_start_matches : (p s : String) → String
unfolding strip_prefixes
trim_start_matches p s = strip_prefixes (String.count s) p s

-- `trim`.
unfoldable pub trim_start : String → String
unfolding is_whitespace
trim_start String.[] = ""
trim_start (String.◌∷◌ c s) =
    let rest = trim_start s in if is_whitespace (code c) then rest else String.◌∷◌ c s

unfoldable pub trim_end : String → String
unfolding is_whitespace
trim_end String.[] = ""
trim_end (String.◌∷◌ c s) =
    let rest = trim_end s in
    if is_whitespace (code c) && str_eq rest "" then "" else String.◌∷◌ c rest

unfoldable pub trim : String → String
unfolding trim_start trim_end
trim s = trim_end (trim_start s)

-- `trim_end_matches` of a character: as often as it stands at the end.
unfoldable pub trim_end_char : (end : ℕ) (s : String) → String
trim_end_char end String.[] = ""
trim_end_char end (String.◌∷◌ c s) =
    let rest = trim_end_char end s in
    if code c == end && str_eq rest "" then "" else String.◌∷◌ c rest

-- `to_ascii_lowercase`: a letter of the first text becomes the one of the second in its place.
lower_char : (upper lower : String) → Char → Char
lower_char String.[] lower c = c
lower_char (String.◌∷◌ u upper) String.[] c = c
lower_char (String.◌∷◌ u upper) (String.◌∷◌ l lower) c =
    let rest = lower_char upper lower c in if code u == code c then l else rest

unfoldable pub to_ascii_lowercase : String → String
unfolding lower_char
to_ascii_lowercase String.[] = ""
to_ascii_lowercase (String.◌∷◌ c s) =
    String.◌∷◌ (lower_char "ABCDEFGHIJKLMNOPQRSTUVWXYZ" "abcdefghijklmnopqrstuvwxyz" c)
      (to_ascii_lowercase s)

abbrev pub eq_ignore_ascii_case : String → String → Bool
eq_ignore_ascii_case s t = str_eq (to_ascii_lowercase s) (to_ascii_lowercase t)

-- `split_once`, and `contains`.
unfoldable pub split_once : (separator : String) → String → Option (String × String)
split_once separator s = elim (after_first separator s) [
  | none ↦ none
  | some rest ↦ some (before_first separator s, rest)
]

unfoldable pub contains : (s part : String) → Bool
contains s part =
    if str_eq part "" then true else elim (after_first part s) [ none ↦ false | some rest ↦ true ]

-- `lines`: "\n" ends a line, with a "\r" before it; no line is behind the last end.
begins_line_end : String → Bool
begins_line_end String.[] = false
begins_line_end (String.◌∷◌ c s) = code c == 10

on_first_line : Char → List String → List String
on_first_line c [] = String.◌∷◌ c "" ∷ []
on_first_line c (line ∷ lines) = String.◌∷◌ c line ∷ lines

unfoldable pub lines : String → List String
unfolding begins_line_end on_first_line
lines String.[] = []
lines (String.◌∷◌ c s) =
    let rest = lines s in
    if code c == 10
    then "" ∷ rest
    else if code c == 13 && begins_line_end s
    then rest
    else on_first_line c rest

-- How many characters are not the one given.
unfoldable pub count_other : (skipped : ℕ) (s : String) → ℕ
count_other skipped String.[] = 0
count_other skipped (String.◌∷◌ c s) = (if code c == skipped then 0 else 1) + count_other skipped s

-- `parse::<u64>`: decimal digits, with a "+" before them at most.
digits : (value : ℕ) → String → Option ℕ
digits value String.[] = some value
digits value (String.◌∷◌ c s) =
    let rest = digits (10 * value + (code c - 48)) s in
    if leb 48 (code c) && leb (code c) 57 then rest else none

unfoldable pub parse_u64 : String → Option ℕ
unfolding digits
parse_u64 s =
    let unsigned : String = elim (strip_prefix "+" s) [ none ↦ s | some rest ↦ rest ] in
    if str_eq unsigned ""
    then none
    else elim (digits 0 unsigned) [ none ↦ none | some n ↦ if ltb n (2 ^ 64) then some n else none ]
