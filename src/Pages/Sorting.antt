-- ===== src/Pages/Sorting.antt =====
-- Whether the comparators of the tables are comparators.
use dockstack.Prelude.{◌≡◌, ◌≢◌, Option, none, some, [], Text}
use dockstack.Pages.{Order, less, equal, greater}

abbrev pub opposite : Order → Order
opposite less = greater
opposite equal = equal
opposite greater = less

-- `localeCompare` answers the other way round when its texts change places, and puts every text that is
-- not empty behind the empty one.
pub record IsLocaleCompare (cmp : Text → Text → Order) : Type 0 where
  pub swapped : (a b : Text) → cmp b a ≡ opposite (cmp a b)
  pub empty_first : (a : Text) → a ≢ [] → cmp a [] ≡ greater

-- Both have a stack, or neither, or the only one that has one has the empty name.
abbrev pub AreComparable : Option Text → Option Text → Type 0
AreComparable none none = Unit {0}
AreComparable (some a) (some b) = Unit {0}
AreComparable none (some b) = b ≡ []
AreComparable (some a) none = a ≡ []
