-- ===== src/StackForms/Names.antt =====
-- The names that the forms accept.
use dockstack.Prelude.{
  ◌≡◌, ◌≢◌, ◌↔◌, refl, ap, Bool, true, false, some, List, [], ◌∷◌, Text, arith, text_eq_iff, ◌∙◌,
}
use dockstack.Api.Keys.Clashes.{NoSlash}
use dockstack.StackForms.{
  between, is_name_char, all_name_chars, matches_name, name_issues, required_message,
  letters_message, min_length_issue, no_issue, is_valid_name, create_field_error,
  rename_field_error, exists_message,
}

-- The issues of a name: none exactly if every character is in the class and there is one; for the
-- empty text both messages; for any other text with a character outside the class just the second.
name_issues_cases :
    (value : Text)
    → ((name_issues value ≡ []) ↔ (matches_name value ≡ true))
      × (name_issues [] ≡ required_message ∷ letters_message ∷ [])
      × (value ≢ [] → matches_name value ≡ false → name_issues value ≡ letters_message ∷ [])
unfolding name_issues min_length_issue
name_issues_cases [] = (((λ h. cc), (λ h. cc)), refl, (λ ne h. absurd (ne refl)))
name_issues_cases (c ∷ cs) = ground arith

slash_not_char : is_name_char b'/' ≡ false
unfolding is_name_char between
slash_not_char = refl

all_name_chars-NoSlash : (value : Text) → all_name_chars value ≡ true → NoSlash value
unfolding all_name_chars
all_name_chars-NoSlash [] h = tt
all_name_chars-NoSlash (c ∷ cs) h = (
  (λ e. let k = ap is_name_char e ∙ slash_not_char in ground arith),
  all_name_chars-NoSlash cs (ground arith),
)

no_issue_iff : (issues : List Text) → no_issue issues ≡ true → issues ≡ []
unfolding no_issue
no_issue_iff [] h = refl
no_issue_iff (i ∷ is) h = cc

matches_name-NoSlash : (value : Text) → matches_name value ≡ true → NoSlash value
unfolding matches_name
matches_name-NoSlash [] h = tt
matches_name-NoSlash (c ∷ cs) h = all_name_chars-NoSlash (c ∷ cs) h

-- A valid name holds no slash.
is_valid_name-NoSlash : (value : Text) → is_valid_name value ≡ true → NoSlash value
unfolding is_valid_name
is_valid_name-NoSlash value h =
    let (cases, _, _) = name_issues_cases value in
    matches_name-NoSlash value (cases.0 (no_issue_iff (name_issues value) h))

-- The dialog for a new stack reports that a name is taken exactly if the name passes the schema and a
-- stack has it; the dialog that renames a stack also leaves the stack's own name alone.
field_error_iff :
    (exists : Text → Bool)
    → (stack_name value : Text)
    → ((create_field_error exists value ≡ some (exists_message value))
        ↔ ((is_valid_name value ≡ true) × (exists value ≡ true)))
      × ((rename_field_error exists stack_name value ≡ some (exists_message value))
          ↔ ((is_valid_name value ≡ true) × (value ≢ stack_name) × (exists value ≡ true)))
unfolding create_field_error rename_field_error
field_error_iff exists stack_name value =
    (ground arith, ground (arith, text_eq_iff value stack_name))
