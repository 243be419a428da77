-- ===== src/Tests/EditorTests.antt =====
-- An editor in which either all is selected or the cursor stands at the end.
use dockstack.Prelude.{◌≡◌, refl, sym, Bool, true, false, some, [], ◌++◌, append-nil, Text, codes}
use dockstack.Editor.{Monaco}
use dockstack.Editor.CopyPaste.{MonacoLaws}

-- The text, and whether the cursor stands at its end.
record Small : Type 0 where
  value : Text
  at_end : Bool

unfoldable in_range : Bool → Text → Text
in_range true value = []
in_range false value = value

unfoldable before_range : Bool → Text → Text
before_range true value = value
before_range false value = []

abbrev small : Monaco
small = record {
  State = Small;
  Range = Bool;
  get_value = λ s. s.value;
  get_selection = λ s. some s.at_end;
  is_empty = λ r. r;
  get_value_in_range = λ r s. in_range r s.value;
  execute_edits = λ r t s. record { value = before_range r s.value ++ t; at_end = true };
}

parted_small : (r : Bool) (value : Text) → value ≡ before_range r value ++ (in_range r value ++ [])
unfolding in_range before_range
parted_small true value = sym (append-nil value)
parted_small false value = sym (append-nil value)

edited_small : (a t : Text) → a ++ t ≡ a ++ (t ++ [])
edited_small a t = rw (append-nil t) refl

small_laws : MonacoLaws small
small_laws = record {
  before = λ r s. before_range r s.value;
  behind = λ r s. [];
  parted = λ r s. parted_small r s.value;
  edited = λ r t s. edited_small (before_range r s.value) t;
}

abbrev all_selected : Small
all_selected = record { value = codes "a: 1"; at_end = false }

abbrev cursor : Small
cursor = record { value = codes "a: 1"; at_end = true }
