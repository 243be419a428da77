-- ===== src/Prelude/Sorting.antt =====
-- `Array.prototype.sort` with a comparator: the stable sort, which a consistent comparator fixes.
use mathlib.Core.Path.{◌≡◌, refl, ap}
use mathlib.Core.Bool.{Bool, true, false}
use mathlib.Core.List.{List, [], ◌∷◌, ◌++◌, Perm}
use mathlib.Core.List.Perm
use native.Mathlib.Omega.{arith}
use mathlib.Core.Logic.{inl, inr}
use dockstack.Prelude.Tests.{if◌then◌else◌, Bool-cases}
use dockstack.Prelude.Lists.{All, All-keep, keep}

-- What a comparator must satisfy: `le a b` is `compare(a, b) <= 0`.
pub record IsOrder {ℓ} {A : Type ℓ} (le : A → A → Bool) : Type ℓ where
  pub total : (a b : A) → le a b ≡ false → le b a ≡ true
  pub trans : (a b c : A) → le a b ≡ true → le b c ≡ true → le a c ≡ true

module _ {ℓ} {A : Type ℓ} (le : A → A → Bool) where
  unfoldable pub insert : A → List A → List A
  insert x [] = x ∷ []
  insert x (y ∷ ys) = if le x y then x ∷ y ∷ ys else y ∷ insert x ys

  unfoldable pub sort : List A → List A
  unfolding insert
  sort [] = []
  sort (x ∷ xs) = insert x (sort xs)

  abbrev pub IsSorted : List A → Type ℓ
  IsSorted [] = Unit
  IsSorted (x ∷ xs) = All (λ y. le x y ≡ true) xs × IsSorted xs

  -- Behind the last element that is not greater.
  unfoldable pub insert_last : A → List A → List A
  insert_last e [] = e ∷ []
  insert_last e (y ∷ ys) = if le y e then y ∷ insert_last e ys else e ∷ y ∷ ys

  insert-perm : (x : A) (xs : List A) → Perm (insert x xs) (x ∷ xs)
  unfolding insert
  insert-perm x [] = Perm.refl (x ∷ [])
  insert-perm x (y ∷ ys) = elim (Bool-cases (le x y)) [
    | inl e ↦ rw e (Perm.refl (x ∷ y ∷ ys))
    | inr e ↦ rw e (Perm.trans (Perm.cons y (insert-perm x ys)) (Perm.swap x y ys))
  ]

  -- Sorting neither loses nor invents an element.
  pub sort-perm : (xs : List A) → Perm (sort xs) xs
  unfolding sort
  sort-perm [] = Perm.refl []
  sort-perm (x ∷ xs) = Perm.trans (insert-perm x (sort xs)) (Perm.cons x (sort-perm xs))

module _ {ℓ} {A : Type ℓ} (le : A → A → Bool) (o : IsOrder le) where
  All-insert : (P : A → Type 0) (x : A) (xs : List A) → P x → All P xs → All P (insert le x xs)
  unfolding insert
  All-insert P x [] p h = (p, tt)
  All-insert P x (y ∷ ys) p (q, h) = ground (arith, All-insert P x ys p h)

  All-le :
      (x y : A) (ys : List A)
      → le x y ≡ true
      → All (λ z. le y z ≡ true) ys
      → All (λ z. le x z ≡ true) ys
  All-le x y [] h k = tt
  All-le x y (z ∷ zs) h (k, ks) = (o.trans x y z h k, All-le x y zs h ks)

  insert-IsSorted : (x : A) (xs : List A) → IsSorted le xs → IsSorted le (insert le x xs)
  unfolding insert
  insert-IsSorted x [] h = (tt, tt)
  insert-IsSorted x (y ∷ ys) (a, h) = elim (Bool-cases (le x y)) [
    | inl e ↦ rw e ((e, All-le x y ys e a), (a, h))
    | inr e ↦ rw e (All-insert (λ z. le y z ≡ true) x ys (o.total x y e) a, insert-IsSorted x ys h)
  ]

  pub All-sort : (P : A → Type 0) (xs : List A) → All P xs → All P (sort le xs)
  unfolding sort
  All-sort P [] h = tt
  All-sort P (x ∷ xs) (h, hs) = All-insert P x (sort le xs) h (All-sort P xs hs)

  pub sort-IsSorted : (xs : List A) → IsSorted le (sort le xs)
  unfolding sort
  sort-IsSorted [] = tt
  sort-IsSorted (x ∷ xs) = insert-IsSorted x (sort le xs) (sort-IsSorted xs)

  insert-insert_last :
      (x e : A) (ys : List A)
      → insert le x (insert_last le e ys) ≡ insert_last le e (insert le x ys)
  unfolding insert insert_last
  insert-insert_last x e [] = ground arith
  insert-insert_last x e (y ∷ ys) =
      ground (arith, insert-insert_last x e ys, o.trans x y e, o.trans x e y, o.total y e)

  -- Appending one element and sorting is inserting it behind its equals.
  pub sort-append_one :
      (xs : List A) (e : A) → sort le (xs ++ e ∷ []) ≡ insert_last le e (sort le xs)
  unfolding sort insert_last
  sort-append_one [] e = refl
  sort-append_one (x ∷ xs) e = rw (sort-append_one xs e) (insert-insert_last x e (sort le xs))

  insert_least : (x : A) (xs : List A) → All (λ y. le x y ≡ true) xs → insert le x xs ≡ x ∷ xs
  unfolding insert
  insert_least x [] h = refl
  insert_least x (y ∷ ys) (h, _) = rw h

  sort_of_IsSorted : (xs : List A) → IsSorted le xs → sort le xs ≡ xs
  unfolding sort
  sort_of_IsSorted [] h = refl
  sort_of_IsSorted (x ∷ xs) (a, h) = rw (sort_of_IsSorted xs h) (insert_least x xs a)

  -- Sorting a sorted list with one element more is sorting all of them.
  pub sort-sort_append :
      (xs : List A) (e : A) → sort le (sort le xs ++ e ∷ []) ≡ sort le (xs ++ e ∷ [])
  sort-sort_append xs e = rw (
    sort-append_one (sort le xs) e,
    sort-append_one xs e,
    sort_of_IsSorted (sort le xs) (sort-IsSorted xs),
  )

  keep-insert :
      (p : A → Bool) (x : A) (ys : List A)
      → IsSorted le ys
      → keep p (insert le x ys) ≡ (if p x then insert le x (keep p ys) else keep p ys)
  unfolding insert
  keep-insert p x [] h = refl
  keep-insert p x (y ∷ ys) (a, h) = elim (Bool-cases (le x y)) [
    | inl e ↦
        let least =
          insert_least x (keep p (y ∷ ys))
            (All-keep (λ z. le x z ≡ true) p (y ∷ ys) (e, All-le x y ys e a)) in
        ground (arith, least)
    | inr e ↦ ground (arith, keep-insert p x ys h)
  ]

  -- Filtering what is sorted is sorting what is filtered.
  pub keep-sort : (p : A → Bool) (xs : List A) → keep p (sort le xs) ≡ sort le (keep p xs)
  unfolding sort
  keep-sort p [] = refl
  keep-sort p (x ∷ xs) = elim (Bool-cases (p x)) [
    | inl e ↦
        rw (keep-insert p x (sort le xs) (sort-IsSorted xs), e) (ap (insert le x) (keep-sort p xs))
    | inr e ↦ rw (keep-insert p x (sort le xs) (sort-IsSorted xs), e) (keep-sort p xs)
  ]
