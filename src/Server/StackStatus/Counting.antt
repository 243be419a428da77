-- ===== src/Server/StackStatus/Counting.antt =====
-- The elements that meet one of two conditions, counted.
use dockstack.Prelude.{
  ◌+◌, ◌<◌, ◌≡◌, ◌⊎◌, inl, inr, refl, ap, Bool, true, false, not, ◌&&◌, ◌||◌, List, [], ◌∷◌, any,
  keep, length, ltb, ◌==◌, Bool-cases, arith,
}

module _ {A : Type 0} (p q : A → Bool) where
  -- The lists of two conditions are empty if no element meets either.
  pub both_empty :
      (cs : List A)
      → ((length (keep p cs) == 0) && (length (keep q cs) == 0)) ≡ not (any (λ c. p c || q c) cs)
  both_empty [] = refl
  both_empty (c ∷ cs) = ground (arith, both_empty cs)

  pub none_kept : (cs : List A) → (length (keep p cs) == 0) ≡ not (any p cs)
  none_kept [] = refl
  none_kept (c ∷ cs) = ground (arith, none_kept cs)

  pub length-keep-any :
      (cs : List A)
      → ((any (λ c. not (p c)) cs ≡ false) × (keep p cs ≡ cs))
        ⊎ ((any (λ c. not (p c)) cs ≡ true) × (length (keep p cs) < length cs))
  length-keep-any [] = inl (refl, refl)
  length-keep-any (c ∷ cs) = elim (Bool-cases (p c)) [
    | inl met ↦ elim (length-keep-any cs) [
      | inl (all, same) ↦ inl (rw (met, all) refl, rw met (ap (λ ds. c ∷ ds) same))
      | inr (some_not, less) ↦ inr (rw (met, some_not) refl, rw met (omega (arith, less)))
    ]
    | inr unmet ↦ elim (length-keep-any cs) [
      | inl (all, same) ↦ inr (rw unmet refl, rw unmet (omega (arith, ap length same)))
      | inr (some_not, less) ↦ inr (rw unmet refl, rw unmet (omega (arith, less)))
    ]
  ]

  none_of_other :
      (cs : List A)
      → ((c : A) → p c ≡ true → q c ≡ false)
      → any (λ c. not (p c)) cs ≡ false
      → length (keep q cs) ≡ 0
  none_of_other [] apart h = refl
  none_of_other (c ∷ cs) apart h = elim (Bool-cases (p c)) [
    | inl met ↦ ground (arith, met, apart c met, h, none_of_other cs apart)
    | inr unmet ↦ absurd (ground (arith, unmet, h))
  ]

  pub some_left :
      (cs : List A)
      → ((c : A) → p c ≡ true → q c ≡ false)
      → (ltb (length (keep p cs) + length (keep q cs)) (length cs) || ltb 0 (length (keep q cs)))
        ≡ any (λ c. not (p c)) cs
  some_left cs apart = elim (length-keep-any cs) [
    | inl (all, same) ↦ rw all (ground (arith, ap length same, none_of_other cs apart all))
    | inr (some_not, less) ↦ rw some_not (ground (arith, less))
  ]
