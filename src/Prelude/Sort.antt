-- ===== src/Prelude/Sort.antt =====
-- `sort_by_key` of the standard library: a stable sort by an integer key.
use native.Mathlib.Omega.{arith}
use mathlib.Core.Path.{◌≡◌, refl, ap, ◌∙◌}
use mathlib.Core.Bool.{Bool, true, false, ◌&&◌}
use mathlib.Core.List.{List, [], ◌∷◌}
use mathlib.Core.Logic.{inl, inr}
use kun.Prelude.Tests.{if◌then◌else◌, Bool-cases}
use kun.Prelude.Int.{ℤ, leb_int}
use kun.Prelude.Lists.{keep, All, All-imp, count}

module _ {ℓ} {A : Type ℓ} (key : A → ℤ) where
  unfoldable pub insert_by_key : A → List A → List A
  insert_by_key x [] = x ∷ []
  insert_by_key x (y ∷ ys) = if leb_int (key x) (key y) then x ∷ y ∷ ys else y ∷ insert_by_key x ys

  unfoldable pub sort_by_key : List A → List A
  unfolding insert_by_key
  sort_by_key [] = []
  sort_by_key (x ∷ xs) = insert_by_key x (sort_by_key xs)

  abbrev pub has_key : ℤ → A → Bool
  has_key k x = leb_int (key x) k && leb_int k (key x)

  abbrev pub IsSortedByKey : List A → Type 0
  IsSortedByKey [] = Unit
  IsSortedByKey (x ∷ xs) = All (λ y. leb_int (key x) (key y) ≡ true) xs × IsSortedByKey xs

  apart : (k : ℤ) (x y : A) → leb_int (key x) (key y) ≡ false → has_key k x && has_key k y ≡ false
  apart k x y h = ground arith

  swap :
      (a b : Bool) (x y : A) (r : List A)
      → a && b ≡ false
      → (if b then y ∷ (if a then x ∷ r else r) else (if a then x ∷ r else r))
        ≡ (if a then x ∷ (if b then y ∷ r else r) else (if b then y ∷ r else r))
  swap true true x y r h = absurd (ground arith)
  swap true false x y r h = refl
  swap false true x y r h = refl
  swap false false x y r h = refl

  keep-insert_by_key :
      (k : ℤ) (x : A) (ys : List A)
      → keep (has_key k) (insert_by_key x ys) ≡ keep (has_key k) (x ∷ ys)
  unfolding insert_by_key
  keep-insert_by_key k x [] = refl
  keep-insert_by_key k x (y ∷ ys) = elim (Bool-cases (leb_int (key x) (key y))) [
    | inl e ↦ rw (e, insert_by_key) refl
    | inr e ↦
        rw (e, insert_by_key)
          (ap (λ l. if has_key k y then y ∷ l else l) (keep-insert_by_key k x ys)
            ∙ swap (has_key k x) (has_key k y) x y (keep (has_key k) ys) (apart k x y e))
  ]

  pub keep-sort_by_key :
      (k : ℤ) (xs : List A) → keep (has_key k) (sort_by_key xs) ≡ keep (has_key k) xs
  unfolding sort_by_key
  keep-sort_by_key k [] = refl
  keep-sort_by_key k (x ∷ xs) =
      ground (arith, keep-insert_by_key k x (sort_by_key xs), keep-sort_by_key k xs)

  pub All-insert_by_key :
      (P : A → Type 0) (x : A) (ys : List A) → P x → All P ys → All P (insert_by_key x ys)
  unfolding insert_by_key
  All-insert_by_key P x [] h k = (h, tt)
  All-insert_by_key P x (y ∷ ys) h k = elim (Bool-cases (leb_int (key x) (key y))) [
    | inl e ↦ rw (e, insert_by_key) (h, k)
    | inr e ↦ rw (e, insert_by_key) (k.0, All-insert_by_key P x ys h k.1)
  ]

  insert_by_key-IsSortedByKey :
      (x : A) (ys : List A) → IsSortedByKey ys → IsSortedByKey (insert_by_key x ys)
  unfolding insert_by_key
  insert_by_key-IsSortedByKey x [] s = (tt, tt)
  insert_by_key-IsSortedByKey x (y ∷ ys) s = elim (Bool-cases (leb_int (key x) (key y))) [
    | inl e ↦
        rw (e, insert_by_key)
          (
            (
              e,
              All-imp (λ z. leb_int (key y) (key z) ≡ true) (λ z. leb_int (key x) (key z) ≡ true)
                  (λ z h. ground arith) ys s.0,
            ),
            s,
          )
    | inr e ↦
        rw (e, insert_by_key)
          (
            All-insert_by_key (λ z. leb_int (key y) (key z) ≡ true) x ys (ground arith) s.0,
            insert_by_key-IsSortedByKey x ys s.1,
          )
  ]

  pub sort_by_key-IsSortedByKey : (xs : List A) → IsSortedByKey (sort_by_key xs)
  unfolding sort_by_key
  sort_by_key-IsSortedByKey [] = tt
  sort_by_key-IsSortedByKey (x ∷ xs) =
      insert_by_key-IsSortedByKey x (sort_by_key xs) (sort_by_key-IsSortedByKey xs)

  pub All-sort_by_key : (P : A → Type 0) (xs : List A) → All P xs → All P (sort_by_key xs)
  unfolding sort_by_key
  All-sort_by_key P [] h = tt
  All-sort_by_key P (x ∷ xs) h =
      All-insert_by_key P x (sort_by_key xs) h.0 (All-sort_by_key P xs h.1)

  count-insert_by_key :
      (p : A → Bool) (x : A) (ys : List A) → count p (insert_by_key x ys) ≡ count p (x ∷ ys)
  unfolding insert_by_key
  count-insert_by_key p x [] = refl
  count-insert_by_key p x (y ∷ ys) = ground (arith, count-insert_by_key p x ys)

  pub count-sort_by_key : (p : A → Bool) (xs : List A) → count p (sort_by_key xs) ≡ count p xs
  unfolding sort_by_key
  count-sort_by_key p [] = refl
  count-sort_by_key p (x ∷ xs) =
      ground (arith, count-insert_by_key p x (sort_by_key xs), count-sort_by_key p xs)
