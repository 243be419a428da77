-- ===== src/Containers.antt =====
-- web/src/components/containers/container-actions.tsx: the buttons of a container.
pub mod Buttons
use dockstack.Prelude.{
  Bool, true, false, not, ◌||◌, Option, none, some, List, [], ◌∷◌, ◌++◌, Text, codes, if◌then◌else◌,
}
use dockstack.Api.{Call}
use dockstack.Api.Containers.{
  post_containers_id_start, post_containers_id_stop, post_containers_id_restart,
  delete_containers_id,
}
use dockstack.Api.Keys.{
  Key, get_containers_query_key, get_stacks_query_key, get_stacks_name_query_key,
  get_stacks_name_containers_query_key,
}
use dockstack.Effect.{Effect, toast_success, toast_error, invalidate, mutate}
use dockstack.Status.{StackStatus, missing, container_running}

-- `stackName ? a(stackName) : b`: the empty text counts as no name
unfoldable pub if_named : Option Text → (Text → Key) → Key → Key
if_named none a b = b
if_named (some []) a b = b
if_named (some (c ∷ cs)) a b = a (c ∷ cs)

-- `invalidate`
unfoldable pub invalidations : (stack_name : Option Text) → List Effect
invalidations stack_name =
    invalidate get_containers_query_key
    ∷ invalidate (if_named stack_name get_stacks_name_query_key get_stacks_query_key)
    ∷ invalidate (if_named stack_name get_stacks_name_containers_query_key get_stacks_query_key)
    ∷ []

pub data Action : Type 0 where
  start stop restart remove : Action

action_done : Action → Text
action_done start = codes " started"
action_done stop = codes " stopped"
action_done restart = codes " restarted"
action_done remove = codes " removed"

-- the `onSuccess` of the mutation of an action
unfoldable pub action_succeeded : Action → (name : Text) → (stack_name : Option Text) → List Effect
unfolding action_done
action_succeeded action name stack_name =
    toast_success (name ++ action_done action) ∷ invalidations stack_name

-- their `onError`
unfoldable pub action_failed : (message : Text) → List Effect
action_failed message = toast_error message ∷ []

-- the `onClick` of the button of an action
unfoldable pub request_of : Action → (id : Text) → Call
request_of start id = post_containers_id_start id
request_of stop id = post_containers_id_stop id
request_of restart id = post_containers_id_restart id
request_of remove id = delete_containers_id id

-- `startM.isPending` and the others
pub record Pending : Type 0 where
  pub start_pending : Bool
  pub stop_pending : Bool
  pub restart_pending : Bool
  pub remove_pending : Bool

unfoldable pub busy : Pending → Bool
busy p = p.start_pending || (p.stop_pending || (p.restart_pending || p.remove_pending))

pub record Button : Type 0 where
  pub action : Action
  pub disabled : Bool

-- what `ContainerActions` renders, `none` for null
unfoldable pub container_actions : StackStatus → Pending → Option (List Button)
unfolding busy container_running
container_actions missing p = none
container_actions status p =
    let running = container_running status in
    some (
      (if running
        then record { action = stop; disabled = busy p }
        else record { action = start; disabled = busy p })
      ∷ record { action = restart; disabled = busy p || not running }
      ∷ record { action = remove; disabled = busy p }
      ∷ [])

-- a click on a button: a disabled one does nothing
unfoldable pub click_button : Button → (id : Text) → List Effect
unfolding request_of
click_button button id = if button.disabled then [] else mutate (request_of button.action id) ∷ []
