-- ===== src/AppSidebar/Initials.antt =====
-- The initials of a user name.
use dockstack.Prelude.{
  ℕ, ◌≡◌, ◌↔◌, ◌≢◌, refl, sym, ◌∙◌, ap, ◌≤◌, false, List, [], ◌∷◌, map, All, concat, length, take,
  Text, split, push, ◌==◌, Bool-cases, arith, inl, inr,
}
use dockstack.AppSidebar.{first_unit, joined_units}

length-take_two : (t : Text) → length (take 2 t) ≤ 2
length-take_two [] = omega arith
length-take_two (a ∷ []) = omega arith
length-take_two (a ∷ b ∷ t) = omega arith

take_two_nonempty : (t : Text) → take 2 t ≡ [] → t ≡ []
take_two_nonempty [] h = refl
take_two_nonempty (a ∷ []) h = cc
take_two_nonempty (a ∷ b ∷ t) h = cc

-- The text is made of spaces.
abbrev pub IsBlank : Text → Type 0
IsBlank = All (λ c. c ≡ b' ')

joined_units_space : (cs : Text) → joined_units (b' ' ∷ cs) ≡ joined_units cs
unfolding joined_units split
joined_units_space cs = refl

unit_push : (c : ℕ) (parts : List Text) → concat (map first_unit (push c parts)) ≢ []
unfolding push first_unit
unit_push c [] h = ground arith
unit_push c (p ∷ ps) h = ground arith

joined_units_other : (c : ℕ) (cs : Text) → (c == b' ') ≡ false → joined_units (c ∷ cs) ≢ []
unfolding joined_units split
joined_units_other c cs e h = unit_push c (split b' ' cs) (rw e at h)

joined_units-IsBlank : (name : Text) → joined_units name ≡ [] → IsBlank name
joined_units-IsBlank [] h = tt
joined_units-IsBlank (c ∷ cs) h = elim (Bool-cases (c == b' ')) [
  | inl e ↦
      let same : c ≡ b' ' = ground arith in
      (
        same,
        joined_units-IsBlank cs
            (sym (joined_units_space cs) ∙ ap (λ d. joined_units (d ∷ cs)) (sym same) ∙ h),
      )
  | inr e ↦ absurd (joined_units_other c cs e h)
]

blank_joined_units : (name : Text) → IsBlank name → joined_units name ≡ []
unfolding joined_units split
blank_joined_units [] h = refl
blank_joined_units (c ∷ cs) (e, es) =
    ap (λ d. joined_units (d ∷ cs)) e ∙ joined_units_space cs ∙ blank_joined_units cs es

-- Before they are put in upper case, the initials are at most two code units, and they are missing
-- exactly for a name of spaces alone.
joined_units-length :
    (name : Text)
    → (length (take 2 (joined_units name)) ≤ 2) × ((take 2 (joined_units name) ≡ []) ↔ IsBlank name)
joined_units-length name = (
  length-take_two (joined_units name),
  (
    (λ h. joined_units-IsBlank name (take_two_nonempty (joined_units name) h)),
    (λ h. ap (take 2) (blank_joined_units name h)),
  ),
)
