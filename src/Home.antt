-- ===== src/Home.antt =====
-- web/src/routes/_private/index.tsx: the list of stacks, and the buttons of a row.
pub mod Buttons
use dockstack.Prelude.{
  Bool, true, false, ◌||◌, Option, none, some, List, [], ◌∷◌, ◌++◌, Text, codes, if◌then◌else◌,
}
use dockstack.Api.{Call}
use dockstack.Api.Stacks.{
  post_stack_action_up, post_stack_action_stop, post_stack_action_down, post_stack_action_restart,
  post_stack_action_pull,
}
use dockstack.Api.Keys.{
  get_images_stale_query_key, get_stacks_drift_query_key, get_stacks_query_key,
  get_stacks_updates_query_key,
}
use dockstack.Effect.{Effect, toast_success, toast_error, invalidate, mutate, navigate}
use dockstack.StackPage.{is_outdated}
use dockstack.Table.{click_table_row}

-- the five buttons of a row, in their order
pub data RowAction : Type 0 where
  pull_row restart_row stop_row down_row up_row : RowAction

abbrev pub row_actions : List RowAction
row_actions = pull_row ∷ restart_row ∷ stop_row ∷ down_row ∷ up_row ∷ []

unfoldable pub row_call : RowAction → Text → Call
row_call pull_row name = post_stack_action_pull name
row_call restart_row name = post_stack_action_restart name
row_call stop_row name = post_stack_action_stop name
row_call down_row name = post_stack_action_down name
row_call up_row name = post_stack_action_up name

-- `invalidate`
unfoldable pub invalidate_list : List Effect
invalidate_list =
    invalidate get_stacks_query_key
    ∷ invalidate get_stacks_updates_query_key
    ∷ invalidate get_stacks_drift_query_key
    ∷ invalidate get_images_stale_query_key
    ∷ []

abbrev past : RowAction → Text
past up_row = codes "started"
past stop_row = codes "stopped"
past down_row = codes "down"
past restart_row = codes "restarted"
past pull_row = codes "pulled"

-- the `onSuccess` and `onError` of the five mutations
unfoldable pub row_succeeded : RowAction → Text → List Effect
unfolding invalidate_list
row_succeeded action name =
    toast_success (codes "\"" ++ (name ++ (codes "\" " ++ past action))) ∷ invalidate_list

unfoldable pub row_failed : (message : Text) → List Effect
row_failed message = toast_error message ∷ []

-- the mutations of one row that are under way
pub record StackActions : Type 0 where
  pub name : Text
  pub up_pending : Bool
  pub stop_pending : Bool
  pub down_pending : Bool
  pub restart_pending : Bool
  pub pull_pending : Bool

-- `anyPending`, which disables all five buttons
unfoldable pub any_pending : StackActions → Bool
any_pending s =
    s.up_pending || (s.stop_pending || (s.down_pending || (s.restart_pending || s.pull_pending)))

start_action : RowAction → StackActions → StackActions
start_action pull_row s = record s { pull_pending = true }
start_action restart_row s = record s { restart_pending = true }
start_action stop_row s = record s { stop_pending = true }
start_action down_row s = record s { down_pending = true }
start_action up_row s = record s { up_pending = true }

-- a click on a button of the row: nothing where it is disabled
unfoldable pub click_row_action : RowAction → StackActions → StackActions × List Effect
unfolding any_pending start_action
click_row_action action s =
    if any_pending s then (s, []) else (start_action action s, mutate (row_call action s.name) ∷ [])

-- the mutation of a button has ended, one way or the other
unfoldable pub finish_action : RowAction → StackActions → StackActions
finish_action pull_row s = record s { pull_pending = false }
finish_action restart_row s = record s { restart_pending = false }
finish_action stop_row s = record s { stop_pending = false }
finish_action down_row s = record s { down_pending = false }
finish_action up_row s = record s { up_pending = false }

-- the badges in the name's cell, and the button Update
pub record NameCell : Type 0 where
  pub update_badge : Bool
  pub drift_badge : Bool
  pub update_button : Bool

unfoldable pub name_cell :
    Option (List (Text × Text)) → Option (List (Text × Text)) → Text → NameCell
name_cell updates drift name = record {
  update_badge = is_outdated updates name;
  drift_badge = is_outdated drift name;
  update_button = is_outdated updates name;
}

-- `onRowClick` and `getRowAriaLabel` of the table
unfoldable pub open_stack : (name : Text) → List Effect
open_stack name = navigate (codes "/stacks/" ++ name) none ∷ []

unfoldable pub row_aria_label : (name : Text) → Text
row_aria_label name = codes "Open stack " ++ name

-- a row of the table: the cells lie outside an element with `data-row-action`, but for the buttons
pub data Target : Type 0 where
  cell : Target
  button : RowAction → Target

opened : Option Text → List Effect
unfolding open_stack
opened none = []
opened (some name) = open_stack name

-- a click on a row of the table, on a cell or on a button
unfoldable pub click_stack_row : Target → StackActions → StackActions × List Effect
unfolding click_row_action opened
click_stack_row cell s = (s, opened (click_table_row false s.name))
click_stack_row (button action) s =
    let (after, effects) = click_row_action action s in
    (after, effects ++ opened (click_table_row true s.name))
