-- ===== src/Tests/TableTests.antt =====
-- A table library that keeps the laws, and the tables, pages and buttons at concrete inputs.
use dockstack.Prelude.{
  ℕ, ◌≡◌, ◌≢◌, inl, inr, refl, Bool, true, false, Option, none, some, [], ◌∷◌, contains, text_eq,
  text_eq_iff, text_eq_self, Bool-cases, Text, codes, decimal, ltb, if◌then◌else◌,
}
use dockstack.Table.{
  click_sortable, filterable_value, choose_filter, desc, Sorted, unsorted, TableLibrary, TableLaws,
  direction, filterable_value, choose_filter, table_body, loading, press_table_row,
}
use dockstack.Prune.{images, PruneResult, prune_message}
use dockstack.Pages.{Order, less, equal, greater, without_https, tags_cell}
use dockstack.Pages.StatusFilter.{IsIncludesString}

-- One column is sorted at most, and the filters are a function.
record TableState : Type 0 where
  sorting : Option (Text × Bool)
  filters : Text → Option Text

unfoldable sorted_in : Text → Option (Text × Bool) → Sorted
sorted_in column none = unsorted
sorted_in column (some (c, b)) = if text_eq c column then direction b else unsorted

abbrev simple_table : TableLibrary
simple_table = record {
  State = TableState;
  get_is_sorted = λ column t. sorted_in column t.sorting;
  toggle_sorting = λ column b t. record t { sorting = some (column, b) };
  get_filter_value = λ column t. t.filters column;
  set_filter_value =
      λ column v t. record t { filters = λ n. if text_eq column n then v else t.filters n };
}

text_eq_other : (a b : Text) → a ≢ b → text_eq a b ≡ false
text_eq_other a b h = elim (Bool-cases (text_eq a b)) [
  | inl e ↦ absurd (h ((text_eq_iff a b).0 e))
  | inr e ↦ e
]

simple_laws : TableLaws simple_table
unfolding sorted_in
simple_laws = record {
  toggled = λ c b t. rw (text_eq_self c) refl;
  toggled_other = λ c d b t h. rw (text_eq_other c d h) refl;
  toggled_filter = λ c d b t. refl;
  removed = λ c t. rw (text_eq_self c) refl;
  kept = λ c v t h. rw (text_eq_self c) refl;
  emptied = λ c t. inr (rw (text_eq_self c) refl);
  filtered_other = λ c d v t h. rw (text_eq_other c d h) refl;
}

abbrev fresh : TableState
fresh = record { sorting = none; filters = λ _. none }

abbrev clicked_twice : TableState
clicked_twice =
    click_sortable simple_table (codes "name") (click_sortable simple_table (codes "name") fresh)

twice_desc : simple_table.get_is_sorted (codes "name") clicked_twice ≡ desc
unfolding sorted_in text_eq click_sortable
twice_desc = refl

-- The item "all" takes the filter away.
all_shown :
    filterable_value simple_table
      (codes "status")
      (choose_filter simple_table (codes "status") (codes "all") fresh)
    ≡ codes "all"
unfolding text_eq filterable_value choose_filter
all_shown = refl

loading_rows : table_body {A = ℕ} true (1 ∷ []) ≡ loading
unfolding table_body
loading_rows = refl

enter_row : press_table_row {A = ℕ} false (codes "Enter") 7 ≡ some 7
unfolding press_table_row text_eq
enter_row = refl

-- the whole megabytes, for the messages below
abbrev megabytes : ℕ → Text
megabytes n = decimal n

abbrev pruned : PruneResult
pruned = record { deleted = some (codes "a" ∷ codes "b" ∷ []); space_reclaimed = 5 }

two_images : prune_message megabytes images pruned ≡ codes "Pruned 2 images, freed 5 MB"
unfolding prune_message decimal
two_images = refl

-- The order of the code units.
unfoldable compare : Text → Text → Order
compare [] [] = equal
compare [] (b ∷ bs) = less
compare (a ∷ as') [] = greater
compare (a ∷ as') (b ∷ bs) =
    let rest = compare as' bs in if ltb a b then less else if ltb b a then greater else rest

contains-IsIncludesString : IsIncludesString (λ t v. contains v t)
contains-IsIncludesString = record { finds = λ s v. refl }

bare_address : without_https (codes "https://a.b") ≡ codes "a.b"
unfolding without_https
bare_address = refl

null_tags : tags_cell none ≡ none
unfolding tags_cell
null_tags = refl
