-- ===== src/Table.antt =====
-- web/src/components/ui/data-table.tsx: the headers, the search field and the rows of a table. The table
-- itself (TanStack Table) is a parameter: its operations are a record, and what the client relies on is
-- another.
pub mod Headers
use dockstack.Prelude.{
  ◌≡◌, ◌≢◌, ◌⊎◌, ◌||◌, Bool, true, false, Option, none, some, List, [], ◌∷◌, text_eq, Text, codes,
  if◌then◌else◌,
}

-- `column.getIsSorted()`
pub data Sorted : Type 0 where
  unsorted asc desc : Sorted

-- `getIsSorted`, `toggleSorting(desc)`, `getFilterValue` and `setFilterValue` of the column with an id
pub record TableLibrary : Type 1 where
  pub State : Type 0
  pub get_is_sorted : Text → State → Sorted
  pub toggle_sorting : Text → (desc : Bool) → State → State
  pub get_filter_value : Text → State → Option Text
  pub set_filter_value : Text → Option Text → State → State

abbrev pub direction : Bool → Sorted
direction true = desc
direction false = asc

-- The library sorts by one column, in the direction that is asked for; a filter is kept for each
-- column, `undefined` removes it, and an empty one may be removed as well.
pub record TableLaws (lib : TableLibrary) : Type 0 where
  pub toggled :
      (c : Text) (b : Bool) (t : lib.State)
      → lib.get_is_sorted c (lib.toggle_sorting c b t) ≡ direction b
  pub toggled_other :
      (c d : Text) (b : Bool) (t : lib.State)
      → c ≢ d
      → lib.get_is_sorted d (lib.toggle_sorting c b t) ≡ unsorted
  pub toggled_filter :
      (c d : Text) (b : Bool) (t : lib.State)
      → lib.get_filter_value d (lib.toggle_sorting c b t) ≡ lib.get_filter_value d t
  pub removed :
      (c : Text) (t : lib.State) → lib.get_filter_value c (lib.set_filter_value c none t) ≡ none
  pub kept :
      (c v : Text) (t : lib.State)
      → v ≢ []
      → lib.get_filter_value c (lib.set_filter_value c (some v) t) ≡ some v
  pub emptied :
      (c : Text) (t : lib.State)
      → (lib.get_filter_value c (lib.set_filter_value c (some []) t) ≡ none)
        ⊎ (lib.get_filter_value c (lib.set_filter_value c (some []) t) ≡ some [])
  pub filtered_other :
      (c d : Text) (v : Option Text) (t : lib.State)
      → c ≢ d
      → lib.get_filter_value d (lib.set_filter_value c v t) ≡ lib.get_filter_value d t

-- `sorted === "asc"`
is_asc : Sorted → Bool
is_asc unsorted = false
is_asc asc = true
is_asc desc = false

-- `?? "all"` and `?? ""`
value_or : Text → Option Text → Text
value_or d none = d
value_or d (some v) = v

abbrev pub all_value : Text
all_value = codes "all"

module _ (lib : TableLibrary) where
  -- the `onClick` of `SortableHeader`
  unfoldable pub click_sortable : Text → lib.State → lib.State
  unfolding is_asc
  click_sortable column t = lib.toggle_sorting column (is_asc (lib.get_is_sorted column t)) t

  -- `current` of `FilterableHeader`, and its `onValueChange`
  unfoldable pub filterable_value : Text → lib.State → Text
  unfolding value_or
  filterable_value column t = value_or all_value (lib.get_filter_value column t)

  unfoldable pub choose_filter : Text → Text → lib.State → lib.State
  choose_filter column v t =
      lib.set_filter_value column (if text_eq v all_value then none else some v) t

  -- `value` of `TableSearch`, and its `onChange`
  unfoldable pub search_value : Text → lib.State → Text
  unfolding value_or
  search_value column_id t = value_or [] (lib.get_filter_value column_id t)

  unfoldable pub change_search : Text → Text → lib.State → lib.State
  change_search column_id v t = lib.set_filter_value column_id (some v) t

-- the body of `DataTable`
pub data Body {ℓ} (A : Type ℓ) : Type ℓ where
  loading no_results : Body A
  shown_rows : List A → Body A

rows_or_none {ℓ} : {A : Type ℓ} → List A → Body A
rows_or_none [] = no_results
rows_or_none (r ∷ rs) = shown_rows (r ∷ rs)

-- `rows` is `table.getRowModel().rows`
unfoldable pub table_body {ℓ} : {A : Type ℓ} → (is_loading : Bool) → (rows : List A) → Body A
unfolding rows_or_none
table_body true rows = loading
table_body false rows = rows_or_none rows

-- `onClick` and `onKeyDown` of a row, where `onRowClick` is given: the row that it is called with;
-- `in_action` says whether the target lies in an element with `data-row-action`
unfoldable pub click_table_row {ℓ} : {A : Type ℓ} → (in_action : Bool) → A → Option A
click_table_row in_action row = if in_action then none else some row

unfoldable pub press_table_row {ℓ} : {A : Type ℓ} → (in_action : Bool) → (key : Text) → A → Option A
press_table_row in_action key row =
    if in_action
    then none
    else if text_eq key (codes "Enter") || text_eq key (codes " ")
    then some row
    else none
