-- ===== src/Prelude.antt =====
-- The names that the modules share: the libraries', passed on, and those of the children.
mod Tests
mod Lists
mod Int
mod Sort
mod Text
mod Split
pub mod Bits
pub mod Map
pub use Tests.*
pub use Lists.*
pub use Int.*
unfoldable pub use Sort.{sort_by_key}
pub use Sort.{
  insert_by_key, has_key, IsSortedByKey, keep-sort_by_key, sort_by_key-IsSortedByKey,
  All-sort_by_key, count-sort_by_key,
}
unfoldable pub use Text.{
  to_string, strip_prefix, after_first, before_first, ends_with, starts_with, join,
}
unfoldable pub use Split.{
  is_blank, trim_start_matches, trim, trim_end_char, to_ascii_lowercase, split_once, contains,
  lines, count_other, parse_u64,
}
pub use Split.{eq_ignore_ascii_case}
pub use Text.{concat, char_count}
pub use Prim.Native.Nat.{
  ℕ, zero, suc, ◌+◌, ◌-◌, ◌*◌, ◌/◌, ◌%◌, ◌^◌, ◌≤◌, ◌<◌, min, max, compare, Ordering,
}
pub use Prim.Native.String.{String}
pub use mathlib.Core.Path.{◌≡◌, refl, sym, ap, ◌∙◌}
pub use mathlib.Core.Logic.{◌≢◌, ◌↔◌, ◌⊎◌, inl, inr}
pub use mathlib.Core.Bool.{Bool, true, false, not, ◌&&◌, ◌||◌}
pub use mathlib.Core.Option.{Option, none, some}
pub use mathlib.Core.List.{List, [], ◌∷◌, ◌++◌, map}
pub use native.Mathlib.Omega.{arith}
pub use text.Mathlib.Text.{◌==◌ as str_eq}
pub use text.Mathlib.TextEquality.{eq_iff}
