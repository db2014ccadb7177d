-- ===== src/Prelude/Lists.antt =====
-- Lists measured, searched and counted by native numbers.
use Prim.Native.Nat.{ℕ, zero, suc, ◌+◌, ◌≤◌}
use mathlib.Core.Bool.{Bool, true, false, not, ◌&&◌}
use mathlib.Core.List.{List, [], ◌∷◌, ◌++◌, map}
use mathlib.Core.Option.{Option, none, some}
use mathlib.Core.Path.{◌≡◌, refl, ap}
use native.Mathlib.Omega.{arith}
use kun.Prelude.Tests.{if◌then◌else◌}

module _ {ℓ} {A : Type ℓ} where
  abbrev pub length : List A → ℕ
  length [] = 0
  length (x ∷ xs) = suc (length xs)

  abbrev pub get_elem? : List A → ℕ → Option A
  get_elem? [] i = none
  get_elem? (x ∷ xs) zero = some x
  get_elem? (x ∷ xs) (suc i) = get_elem? xs i

  -- `Vec::remove(i)`, and the list as it is when `i` is out of range.
  abbrev pub remove_at : List A → ℕ → List A
  remove_at [] i = []
  remove_at (x ∷ xs) zero = xs
  remove_at (x ∷ xs) (suc i) = x ∷ remove_at xs i

  -- `Vec::insert(i, v)`, at the end when `i` is out of range.
  abbrev pub insert_at : List A → ℕ → A → List A
  insert_at xs zero v = v ∷ xs
  insert_at [] (suc i) v = v ∷ []
  insert_at (x ∷ xs) (suc i) v = x ∷ insert_at xs i v

  -- `iter().position(p)`.
  abbrev pub position : (A → Bool) → List A → Option ℕ
  position p [] = none
  position p (x ∷ xs) =
      if p x then some 0 else elim (position p xs) [ none ↦ none | some i ↦ some (suc i) ]

  -- `iter().filter(p)`, `iter().all(p)` and `iter().any(p)`.
  abbrev pub keep : (A → Bool) → List A → List A
  keep p [] = []
  keep p (x ∷ xs) = if p x then x ∷ keep p xs else keep p xs

  abbrev pub all : (A → Bool) → List A → Bool
  all p [] = true
  all p (x ∷ xs) = p x && all p xs

  abbrev pub any : (A → Bool) → List A → Bool
  any p [] = false
  any p (x ∷ xs) = if p x then true else any p xs

  -- How many elements have the property.
  abbrev pub count : (A → Bool) → List A → ℕ
  count p [] = 0
  count p (x ∷ xs) = (if p x then 1 else 0) + count p xs

  abbrev pub All {κ} : (A → Type κ) → List A → Type κ
  All P [] = Unit
  All P (x ∷ xs) = P x × All P xs

  pub length-append : (xs ys : List A) → length (xs ++ ys) ≡ length xs + length ys
  length-append [] ys = omega arith
  length-append (x ∷ xs) ys = omega (arith, length-append xs ys)

  pub count-append : (p : A → Bool) (xs ys : List A) → count p (xs ++ ys) ≡ count p xs + count p ys
  count-append p [] ys = omega arith
  count-append p (x ∷ xs) ys = omega (arith, count-append p xs ys)

  pub count-insert_at :
      (p : A → Bool) (xs : List A) (i : ℕ) (v : A)
      → count p (insert_at xs i v) ≡ (if p v then 1 else 0) + count p xs
  count-insert_at p xs zero v = refl
  count-insert_at p [] (suc i) v = omega arith
  count-insert_at p (x ∷ xs) (suc i) v = omega (arith, count-insert_at p xs i v)

  pub All-append {κ} : (P : A → Type κ) (xs ys : List A) → All P xs → All P ys → All P (xs ++ ys)
  All-append P [] ys h k = k
  All-append P (x ∷ xs) ys h k = (h.0, All-append P xs ys h.1 k)

  pub All-imp {κ μ} :
      (P : A → Type κ) (Q : A → Type μ)
      → ((a : A) → P a → Q a)
      → (xs : List A) → All P xs
      → All Q xs
  All-imp P Q f [] h = tt
  All-imp P Q f (x ∷ xs) h = (f x h.0, All-imp P Q f xs h.1)

  pub append-nil : (xs : List A) → xs ++ [] ≡ xs
  append-nil [] = refl
  append-nil (x ∷ xs) = ap (◌∷◌ x) (append-nil xs)

  -- The element at a position that was found has the property, and the list is that element and
  -- the rest.
  pub position_found :
      (p q : A → Bool) (xs : List A) (i : ℕ) (x : A)
      → position p xs ≡ some i
      → get_elem? xs i ≡ some x
      → (p x ≡ true) × (count q xs ≡ (if q x then 1 else 0) + count q (remove_at xs i))
  position_found p q [] i x h k = absurd (ground arith)
  position_found p q (y ∷ xs) zero x h k = ground arith
  position_found p q (y ∷ xs) (suc i) x h k =
      let ih = position_found p q xs i x in ground (arith, ih)

  pub position-none : (p : A → Bool) (xs : List A) → count p xs ≡ 0 → position p xs ≡ none
  position-none p [] h = refl
  position-none p (x ∷ xs) h = ground (arith, position-none p xs)

  pub all-get_elem? :
      (p : A → Bool) (xs : List A) (i : ℕ) (x : A)
      → all p xs ≡ true
      → get_elem? xs i ≡ some x
      → p x ≡ true
  all-get_elem? p [] i x h k = absurd (ground arith)
  all-get_elem? p (y ∷ xs) zero x h k = ground arith
  all-get_elem? p (y ∷ xs) (suc i) x h k = all-get_elem? p xs i x (ground arith) k

pub count-map {ℓ κ} :
    {A : Type ℓ} {B : Type κ} (p : A → Bool) (f : B → A) (xs : List B)
    → count p (map f xs) ≡ count (λ x. p (f x)) xs
count-map p f [] = refl
count-map p f (x ∷ xs) = omega (arith, count-map p f xs)

pub length-map {ℓ κ} :
    {A : Type ℓ} {B : Type κ} (f : B → A) (xs : List B) → length (map f xs) ≡ length xs
length-map f [] = refl
length-map f (x ∷ xs) = ap suc (length-map f xs)

module _ {ℓ} {A : Type ℓ} (p : A → Bool) (y : A) where
  -- An element behind a list without the property is found at the end.
  pub position-append :
      (xs : List A) → count p xs ≡ 0 → p y ≡ true → position p (xs ++ y ∷ []) ≡ some (length xs)
  position-append [] h k = ground arith
  position-append (x ∷ xs) h k = ground (arith, position-append xs)

module _ {ℓ} {A : Type ℓ} where
  pub get_elem?-append : (xs : List A) (y : A) → get_elem? (xs ++ y ∷ []) (length xs) ≡ some y
  get_elem?-append [] y = refl
  get_elem?-append (x ∷ xs) y = get_elem?-append xs y

  pub remove_at-append : (xs : List A) (y : A) → remove_at (xs ++ y ∷ []) (length xs) ≡ xs
  remove_at-append [] y = refl
  remove_at-append (x ∷ xs) y = ap (◌∷◌ x) (remove_at-append xs y)

  pub count-keep-not : (p : A → Bool) (xs : List A) → count p (keep (λ x. not (p x)) xs) ≡ 0
  count-keep-not p [] = refl
  count-keep-not p (x ∷ xs) = ground (arith, count-keep-not p xs)

  pub length-keep : (p : A → Bool) (xs : List A) → length (keep p xs) ≡ count p xs
  length-keep p [] = refl
  length-keep p (x ∷ xs) = ground (arith, length-keep p xs)

  pub count-le-length : (p : A → Bool) (xs : List A) → count p xs ≤ length xs
  count-le-length p [] = omega arith
  count-le-length p (x ∷ xs) = ground (arith, count-le-length p xs)

  pub count_mono :
      (p q : A → Bool)
      → ((a : A) → p a ≡ true → q a ≡ true)
      → (xs : List A) → count p xs ≤ count q xs
  count_mono p q h [] = omega arith
  count_mono p q h (x ∷ xs) = ground (arith, count_mono p q h xs, h x)
