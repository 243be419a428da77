-- ===== src/Server/Rows.antt =====
-- The rows of a table that a query finds by a column without equal values.
use dockstack.Prelude.{
  ◌≡◌, inl, inr, refl, Bool, true, Option, none, some, List, [], ◌∷◌, ◌++◌, keep, if◌then◌else◌,
  Bool-cases, arith,
}

module _ {A : Type 0} where
  -- `SELECT … WHERE p`, for one row at most
  unfoldable pub first : (A → Bool) → List A → Option A
  first p [] = none
  first p (x ∷ xs) = if p x then some x else first p xs

  -- No two rows meet the condition.
  unfoldable pub AtMostOne : (A → Bool) → List A → Type 0
  AtMostOne p [] = Unit
  AtMostOne p (x ∷ xs) = (p x ≡ true → first p xs ≡ none) × AtMostOne p xs

  -- The row, if it is kept.
  unfoldable pub only : (A → Bool) → Option A → Option A
  only q none = none
  only q (some x) = if q x then some x else none

  first-keep-none : (p q : A → Bool) (xs : List A) → first p xs ≡ none → first p (keep q xs) ≡ none
  unfolding first
  first-keep-none p q [] h = refl
  first-keep-none p q (x ∷ xs) h = ground (arith, first-keep-none p q xs)

  pub first-keep :
      (p q : A → Bool) (xs : List A) → AtMostOne p xs → first p (keep q xs) ≡ only q (first p xs)
  unfolding first AtMostOne only
  first-keep p q [] h = refl
  first-keep p q (x ∷ xs) (h, hs) = elim (Bool-cases (p x)) [
    | inl found ↦ elim (Bool-cases (q x)) [
      | inl kept ↦ rw (kept, found, kept) refl
      | inr gone ↦ rw (gone, found, gone) (first-keep-none p q xs (h found))
    ]
    | inr other ↦ elim (Bool-cases (q x)) [
      | inl kept ↦ rw (kept, other) (first-keep p q xs hs)
      | inr gone ↦ rw (gone, other) (first-keep p q xs hs)
    ]
  ]

  pub first-append :
      (p : A → Bool) (xs ys : List A) → first p xs ≡ none → first p (xs ++ ys) ≡ first p ys
  unfolding first
  first-append p [] ys h = refl
  first-append p (x ∷ xs) ys h = ground (arith, first-append p xs ys)
