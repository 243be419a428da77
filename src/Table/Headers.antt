-- ===== src/Table/Headers.antt =====
-- What the headers and the search field show of what they set, for any table library that keeps the laws.
use dockstack.Prelude.{
  ◌≡◌, ◌≢◌, refl, sym, ap, ◌∙◌, Bool, none, some, [], ◌∷◌, text_eq, text_eq_iff, Text,
  if◌then◌else◌, Bool-cases, inl, inr,
}
use dockstack.Table.{
  direction, Sorted, unsorted, asc, desc, TableLibrary, TableLaws, is_asc, value_or, all_value,
  click_sortable, filterable_value, choose_filter, search_value, change_search,
}

module _ (lib : TableLibrary) (laws : TableLaws lib) where
  open laws use {toggled, toggled_other, removed, kept, emptied, filtered_other}

  click_once :
      (c : Text) (t : lib.State) (s : Sorted)
      → lib.get_is_sorted c t ≡ s
      → lib.get_is_sorted c (click_sortable lib c t) ≡ direction (is_asc s)
  unfolding click_sortable
  click_once c t s e =
      toggled c (is_asc (lib.get_is_sorted c t)) t ∙ ap (λ x. direction (is_asc x)) e

  up : (s : Sorted) → s ≢ asc → direction (is_asc s) ≡ asc
  unfolding is_asc
  up unsorted ne = refl
  up asc ne = absurd (ne refl)
  up desc ne = refl

  down : direction (is_asc asc) ≡ desc
  unfolding is_asc
  down = refl

  desc_not_asc : desc ≢ asc
  desc_not_asc e = cc

  -- A click on the header of a column that is not sorted upwards sorts it upwards, a second click
  -- downwards and a third upwards again; meanwhile no other column is sorted.
  click_sortable_cycle :
      (c d : Text) (t : lib.State)
      → lib.get_is_sorted c t ≢ asc
      → c ≢ d
      → let one = click_sortable lib c t in
        let two = click_sortable lib c one in
        (lib.get_is_sorted c one ≡ asc)
        × (lib.get_is_sorted c two ≡ desc)
        × (lib.get_is_sorted c (click_sortable lib c two) ≡ asc)
        × (lib.get_is_sorted d one ≡ unsorted)
  unfolding click_sortable
  click_sortable_cycle c d t ne other =
      let one = click_sortable lib c t in
      let two = click_sortable lib c one in
      let first = click_once c t (lib.get_is_sorted c t) refl ∙ up (lib.get_is_sorted c t) ne in
      let second = click_once c one asc first ∙ down in
      (
        first,
        second,
        click_once c two desc second ∙ up desc desc_not_asc,
        toggled_other c d (is_asc (lib.get_is_sorted c t)) t other,
      )

  chosen :
      (c v : Text) (t : lib.State) → v ≢ [] → filterable_value lib c (choose_filter lib c v t) ≡ v
  unfolding filterable_value choose_filter value_or
  chosen c v t ne =
      let value : Bool → Text = (λ b.
        value_or all_value
          (lib.get_filter_value c (lib.set_filter_value c (if b then none else some v) t))) in
      elim (Bool-cases (text_eq v all_value)) [
        | inl e ↦
            ap value e ∙ ap (value_or all_value) (removed c t) ∙ sym ((text_eq_iff v all_value).0 e)
        | inr e ↦ ap value e ∙ ap (value_or all_value) (kept c v t ne)
      ]

  searched : (c v : Text) (t : lib.State) → search_value lib c (change_search lib c v t) ≡ v
  unfolding search_value change_search value_or
  searched c [] t = elim (emptied c t) [ inl e ↦ rw e refl | inr e ↦ rw e refl ]
  searched c (x ∷ v) t = rw (kept c (x ∷ v) t (λ e. cc)) refl

  -- An item of a filter that is not the empty text, "all" included, is shown once it has been chosen,
  -- and so is any text in the search field; neither changes what another column shows.
  filterable_value-choose_filter :
      (c d v w : Text) (t : lib.State)
      → c ≢ d
      → v ≢ []
      → (filterable_value lib c (choose_filter lib c v t) ≡ v)
        × (search_value lib c (change_search lib c w t) ≡ w)
        × (filterable_value lib d (choose_filter lib c v t) ≡ filterable_value lib d t)
        × (search_value lib d (change_search lib c w t) ≡ search_value lib d t)
  unfolding filterable_value choose_filter search_value change_search
  filterable_value-choose_filter c d v w t other full = (
    chosen c v t full,
    searched c w t,
    ap (value_or all_value)
        (filtered_other c d (if text_eq v all_value then none else some v) t other),
    ap (value_or []) (filtered_other c d (some w) t other),
  )
