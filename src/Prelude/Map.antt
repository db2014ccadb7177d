-- ===== src/Prelude/Map.antt =====
-- A `BTreeMap<String, V>` as an association list: the first entry of a key counts. The order of the
-- keys is not modelled.
use Prim.Native.String.{String}
use mathlib.Core.List.{List, [], ◌∷◌}
use mathlib.Core.Logic.{◌≢◌}
use mathlib.Core.Option.{Option, none, some}
use mathlib.Core.Path.{◌≡◌, refl}
use native.Mathlib.Omega.{arith}
use text.Mathlib.Text.{◌==◌}
use text.Mathlib.TextEquality.{eq_iff}
use kun.Prelude.Tests.{if◌then◌else◌}

abbrev pub Map {ℓ} : Type ℓ → Type ℓ
Map V = List (String × V)

module _ {ℓ} {V : Type ℓ} where
  unfoldable pub lookup : (key : String) (map : Map V) → Option V
  lookup key [] = none
  lookup key (entry ∷ rest) = if entry.0 == key then some entry.1 else lookup key rest

  unfoldable pub insert : (key : String) (value : V) (map : Map V) → Map V
  insert key value [] = (key, value) ∷ []
  insert key value (entry ∷ rest) =
      if entry.0 == key then (key, value) ∷ rest else entry ∷ insert key value rest

  -- `remove`: no entry of the key stays.
  unfoldable pub remove : (key : String) (map : Map V) → Map V
  remove key [] = []
  remove key (entry ∷ rest) = if entry.0 == key then remove key rest else entry ∷ remove key rest

  -- The value of `entry(k).or_insert(d)`.
  unfoldable pub lookup_or : V → String → Map V → V
  lookup_or d k m = elim (lookup k m) [ none ↦ d | some v ↦ v ]

  pub lookup-insert :
      (new key : String) (value : V) (map : Map V)
      → lookup key (insert new value map) ≡ (if new == key then some value else lookup key map)
  unfolding lookup insert
  lookup-insert new key value [] = refl
  lookup-insert new key value (entry ∷ rest) = ground (
    arith,
    lookup-insert new key value rest,
    eq_iff entry.0 key,
    eq_iff entry.0 new,
    eq_iff new key,
  )

  pub lookup-remove :
      (k j : String) (m : Map V) → lookup j (remove k m) ≡ (if k == j then none else lookup j m)
  unfolding lookup remove
  lookup-remove gone key [] = ground arith
  lookup-remove gone key (entry ∷ rest) =
      ground (
        arith,
        lookup-remove gone key rest,
        eq_iff entry.0 key,
        eq_iff entry.0 gone,
        eq_iff gone key,
      )

  pub lookup-insert_self : (k : String) (v : V) (m : Map V) → lookup k (insert k v m) ≡ some v
  lookup-insert_self k v m = ground (arith, eq_iff k k, lookup-insert k k v m)

  pub lookup_or-insert_self :
      (d : V) (k : String) (v : V) (m : Map V) → lookup_or d k (insert k v m) ≡ v
  unfolding lookup_or
  lookup_or-insert_self d k v m = ground (arith, lookup-insert_self k v m)

  pub lookup_or-insert_ne :
      (d : V) (k j : String) (v : V) (m : Map V)
      → k ≢ j
      → lookup_or d j (insert k v m) ≡ lookup_or d j m
  unfolding lookup_or
  lookup_or-insert_ne d k j v m h = ground (arith, eq_iff k j, lookup-insert k j v m)
