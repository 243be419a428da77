-- ===== src/StackPage.antt =====
-- web/src/routes/_private/stacks.$name.tsx: the page of a stack.
pub mod Refresh
pub mod Dialogs
use dockstack.Prelude.{
  ℕ, Bool, true, false, not, ◌&&◌, ◌||◌, Option, none, some, List, [], ◌∷◌, ◌++◌, includes, text_eq,
  Text, codes, if◌then◌else◌,
}
use dockstack.Sse.{StackAction, up, stop, down, restart, pull, update}
use dockstack.Status.{StackStatus, is_running}
use dockstack.Api.Stacks.{post_stacks, delete_stacks_name}
use dockstack.Api.Keys.{
  get_images_stale_query_key, get_stacks_drift_query_key, get_stacks_name_containers_query_key,
  get_stacks_name_query_key, get_stacks_query_key, get_stacks_updates_query_key,
}
use dockstack.Effect.{
  Effect, toast_success, toast_error, invalidate, invalidate_router, navigate, mutate,
}

-- `tabSchema`: `none` for a search that the schema refuses
pub data Tab : Type 0 where
  services files logs terminal : Tab

abbrev pub tab_name : Tab → Text
tab_name services = codes "services"
tab_name files = codes "files"
tab_name logs = codes "logs"
tab_name terminal = codes "terminal"

pick_tab : List Tab → Text → Option Tab
pick_tab [] text = none
pick_tab (tab ∷ tabs) text = if text_eq (tab_name tab) text then some tab else pick_tab tabs text

unfoldable pub parse_tab : Option Text → Option Tab
unfolding pick_tab
parse_tab none = some files
parse_tab (some text) = pick_tab (services ∷ files ∷ logs ∷ terminal ∷ []) text

-- `beforeLoad` and `StackPage`: the stack exists if the request for it succeeds
pub data Page : Type 0 where
  stack_not_found stack_details : Page

unfoldable pub stack_page : (request_ok : Bool) → Page
stack_page true = stack_details
stack_page false = stack_not_found

-- `StackNotFound`: the button Create, and its mutation; `body` is the JSON text of `{ name }`
unfoldable pub click_create : (body : Text → Text) → Text → List Effect
click_create body name = mutate (post_stacks (body name)) ∷ []

unfoldable pub create_succeeded : Text → List Effect
create_succeeded name =
    toast_success (codes "Stack " ++ (name ++ codes " created"))
    ∷ invalidate_router
    ∷ invalidate get_stacks_query_key
    ∷ invalidate get_stacks_drift_query_key
    ∷ []

unfoldable pub create_failed : (message : Text) → List Effect
create_failed message = toast_error message ∷ []

-- `data?.[name] === "outdated"`
entry_of : List (Text × Text) → Text → Text
entry_of [] name = []
entry_of ((k, v) ∷ entries) name = if text_eq k name then v else entry_of entries name

unfoldable pub is_outdated : Option (List (Text × Text)) → Text → Bool
unfolding entry_of
is_outdated none name = false
is_outdated (some entries) name = text_eq (entry_of entries name) (codes "outdated")

-- the actions that the menu asks for before their dialog opens
pub data Pending : Type 0 where
  pull_pending restart_pending down_pending : Pending

abbrev pub pending_action : Pending → StackAction
pending_action pull_pending = pull
pending_action restart_pending = restart
pending_action down_pending = down

-- the state of `StackDetails`, with what its three queries hold
pub record StackDetails : Type 0 where
  pub name : Text
  pub status_of : Option StackStatus
  pub updates : Option (List (Text × Text))
  pub drift : Option (List (Text × Text))
  pub pending : Option Pending
  pub destroy_open : Bool

abbrev same_pending : Pending → Pending → Bool
same_pending pull_pending pull_pending = true
same_pending restart_pending restart_pending = true
same_pending down_pending down_pending = true
same_pending _ _ = false

-- `open={pendingAction === action}`
pending_open : Option Pending → Pending → Bool
pending_open none action = false
pending_open (some p) action = same_pending p action

unfoldable pub dialog_open : StackDetails → Pending → Bool
unfolding pending_open
dialog_open s action = pending_open s.pending action

-- an item of the menu, and the `onOpenChange` of the three dialogs
unfoldable pub choose : Pending → StackDetails → StackDetails
choose action s = record s { pending = some action }

unfoldable pub on_open_change : Bool → StackDetails → StackDetails
on_open_change true s = s
on_open_change false s = record s { pending = none }

-- the item Destroy, and the `onOpenChange` of its dialog
unfoldable pub set_destroy_open : Bool → StackDetails → StackDetails
set_destroy_open b s = record s { destroy_open = b }

-- the title of a dialog of the menu
unfoldable pub pending_title : Pending → Text → Text
pending_title pull_pending name = codes "Pulling " ++ name
pending_title restart_pending name = codes "Restarting " ++ name
pending_title down_pending name = codes "Taking down " ++ name

-- what the header shows
pub record Header : Type 0 where
  pub badge : Option StackStatus
  pub update_badge : Bool
  pub drift_badge : Bool
  -- the button that brings the stack up: its label, its dialog's title, and whether it pulses
  pub up_label : Text
  pub up_title : Text
  pub up_outlined : Bool
  pub up_pulses : Bool
  pub stop_shown : Bool
  pub update_shown : Bool

unfoldable pub header : StackDetails → Header
header s =
    let running = is_running s.status_of in
    let update_available = is_outdated s.updates s.name in
    let drift_outdated = is_outdated s.drift s.name in
    record {
      badge = s.status_of;
      update_badge = update_available;
      drift_badge = drift_outdated;
      up_label = if running then codes "Deploy" else codes "Start";
      up_title = if running then codes "Deploying " ++ s.name else codes "Starting " ++ s.name;
      up_outlined = update_available;
      up_pulses = drift_outdated;
      stop_shown = running;
      update_shown = update_available;
    }

-- `invalidateStatus`, the `onDone` of every action dialog of the page
unfoldable pub invalidate_status : Text → List Effect
invalidate_status name =
    invalidate (get_stacks_name_query_key name)
    ∷ invalidate (get_stacks_name_containers_query_key name)
    ∷ invalidate get_stacks_query_key
    ∷ invalidate get_stacks_updates_query_key
    ∷ invalidate get_stacks_drift_query_key
    ∷ invalidate get_images_stale_query_key
    ∷ []

-- the button Destroy and its mutation
unfoldable pub click_destroy : StackDetails → List Effect
click_destroy s = mutate (delete_stacks_name s.name) ∷ []

unfoldable pub destroy_succeeded : StackDetails → List Effect
destroy_succeeded s =
    toast_success (codes "Stack " ++ (s.name ++ codes " destroyed"))
    ∷ invalidate get_stacks_query_key
    ∷ invalidate get_stacks_drift_query_key
    ∷ navigate (codes "/") none
    ∷ []

unfoldable pub destroy_failed : (message : Text) → List Effect
destroy_failed message = toast_error message ∷ []
