-- ===== src/StackFiles.antt =====
-- web/src/components/stacks/files.tsx: the editor of a stack's compose file and .env file, and the
-- two handlers of internal/server/api/stacks.go that read and write them.
pub mod Server
pub mod Dirty
pub mod Saving
use dockstack.Prelude.{
  ℕ, Bool, true, false, not, ◌&&◌, ◌||◌, Option, none, some, List, [], ◌∷◌, length, text_eq, Text,
  codes, ◌==◌, if◌then◌else◌,
}
use dockstack.Api.{Call}
use dockstack.Api.Keys.{
  get_stacks_name_files_query_key, get_stacks_name_query_key, get_stacks_drift_query_key,
}
use dockstack.Api.Stacks.{post_stacks_name_env}
use dockstack.Effect.{Effect, toast_success, toast_error, invalidate, mutate}

-- `StackFilesResponseBody`; `env` is null where the stack has no .env file
pub record StackFilesResponse : Type 0 where
  pub compose : Text
  pub compose_file : Text
  pub env : Option Text

-- `StackFilesSaveRequest`; an `env` that is undefined is left out of the JSON text
pub record StackFilesSaveRequest : Type 0 where
  pub compose : Text
  pub compose_file : Text
  pub env : Option Text

pub record ComposeValidation : Type 0 where
  pub compose_available : Bool
  pub errors : Option (List Text)
  pub warnings : Option (List Text)

-- the state of `StackFiles`; `data_of` is `filesQuery.data`
pub record StackFiles : Type 0 where
  pub stack_name : Text
  pub compose : Text
  pub env_content : Option Text
  pub validation : Option ComposeValidation
  pub data_of : Option StackFilesResponse

pub mount : Text → StackFiles
mount stack_name = record {
  stack_name = stack_name;
  compose = [];
  env_content = none;
  validation = none;
  data_of = none;
}

-- `if (filesQuery.data.env) setEnvContent(filesQuery.data.env)`: null and "" change nothing
pub synced_env : Option Text → Option Text → Option Text
synced_env (some (c ∷ cs)) env_content = some (c ∷ cs)
synced_env (some []) env_content = env_content
synced_env none env_content = env_content

-- the query has new data, and the effect on it runs
pub receive_data : StackFilesResponse → StackFiles → StackFiles
unfolding synced_env
receive_data d s = record s {
  data_of = some d;
  compose = d.compose;
  env_content = synced_env d.env s.env_content;
}

-- the `onChange` of the two editors
pub edit_compose : Text → StackFiles → StackFiles
edit_compose value s = record s { compose = value; validation = none }

pub edit_env : Text → StackFiles → StackFiles
edit_env value s = record s { env_content = some value; validation = none }

-- `envContent !== filesQuery.data.env`: the left is a text or undefined, the right a text or null
unfoldable pub env_differs : Option Text → Option Text → Bool
env_differs (some a) (some b) = not (text_eq a b)
env_differs (some a) none = true
env_differs none (some b) = true
env_differs none none = true

unfoldable pub dirty_against : StackFiles → Option StackFilesResponse → Bool
unfolding env_differs
dirty_against s none = false
dirty_against s (some d) = not (text_eq s.compose d.compose) || env_differs s.env_content d.env

-- `isDirty`, on which the Save button is shown
unfoldable pub is_dirty : StackFiles → Bool
unfolding dirty_against
is_dirty s = dirty_against s s.data_of

-- the Save button
save_of : StackFiles → Option StackFilesResponse → Option StackFilesSaveRequest
save_of s none = none
save_of s (some d) =
    some (record { compose = s.compose; compose_file = d.compose_file; env = s.env_content })

pub save_request : StackFiles → Option StackFilesSaveRequest
unfolding save_of
save_request s = if is_dirty s then save_of s s.data_of else none

-- `saveMutation`
pub save_succeeded : ComposeValidation → StackFiles → StackFiles × List Effect
save_succeeded v s = (
  record s { validation = some v },
  invalidate (get_stacks_name_files_query_key s.stack_name)
      ∷ invalidate (get_stacks_name_query_key s.stack_name)
      ∷ invalidate get_stacks_drift_query_key
      ∷ toast_success (codes "Saved")
      ∷ [],
)

pub save_failed : StackFiles → StackFiles × List Effect
save_failed s = (s, toast_error (codes "Failed to save") ∷ [])

-- the button Create .env, which is shown while `envContent` is undefined, and its mutation
shows_create : Option Text → Bool
shows_create none = true
shows_create (some env) = false

pub shows_create_env : StackFiles → Bool
unfolding shows_create
shows_create_env s = shows_create s.env_content

pub click_create_env : StackFiles → List Effect
click_create_env s = mutate (post_stacks_name_env s.stack_name) ∷ []

pub create_env_succeeded : StackFiles → List Effect
create_env_succeeded s =
    invalidate (get_stacks_name_files_query_key s.stack_name)
    ∷ invalidate get_stacks_drift_query_key
    ∷ []

-- `ValidationAlerts`
pub data Alerts : Type 0 where
  unavailable : Alerts
  problems : (errors warnings : List Text) → Alerts
  nothing : Alerts

abbrev or_empty : Option (List Text) → List Text
or_empty none = []
or_empty (some xs) = xs

pub validation_alerts : ComposeValidation → Alerts
validation_alerts v =
    if not v.compose_available
    then unavailable
    else if length (or_empty v.errors) == 0 && length (or_empty v.warnings) == 0
    then nothing
    else problems (or_empty v.errors) (or_empty v.warnings)
