-- ===== src/Settings.antt =====
-- The settings pages (web/src/routes/_private/settings/security.tsx and account.tsx), and the passkeys of
-- them and of web/src/routes/auth/sign-in.tsx. A body is the JSON text of the call's argument.
pub mod Passkey
pub mod ApiKeys
use dockstack.Prelude.{
  ℕ, Bool, true, false, not, ◌||◌, Option, none, some, List, [], ◌∷◌, ◌++◌, length, text_eq, Text,
  codes, ltb, if◌then◌else◌,
}
use dockstack.Api.{Call}
use dockstack.Api.Auth.{
  post_auth_change_password, post_auth_sessions_id_revoke, post_auth_sessions_revoke_others,
  post_auth_api_keys, delete_auth_api_keys_id, delete_auth_passkey_id,
  post_auth_passkey_register_begin, post_auth_passkey_register_finish, post_auth_passkey_auth_begin,
  post_auth_passkey_auth_finish, patch_auth_user, post_auth_change_email,
}
use dockstack.Api.Keys.{
  get_auth_api_keys_query_key, get_auth_passkeys_query_key, get_auth_session_query_key,
  get_auth_sessions_query_key,
}
use dockstack.Effect.{Effect, toast_success, toast_error, invalidate, reset_form, mutate}

-- `ChangePassword`: `onSubmit`, and the `onSuccess` of its mutation
unfoldable pub submit_password : (body : Text) → List Effect
submit_password body = mutate (post_auth_change_password body) ∷ []

unfoldable pub password_changed : List Effect
password_changed = toast_success (codes "Password changed") ∷ reset_form ∷ []

-- the `onError` of every mutation of the two pages
unfoldable pub mutation_failed : (message : Text) → List Effect
mutation_failed message = toast_error message ∷ []

-- `SessionsSection`
pub record AuthSession : Type 0 where
  pub id : Text
  pub user_agent : Text
  pub is_current : Bool

-- what is shown of a session: its device, and the identifier that the button Revoke sends, if there is
-- one
pub record SessionRow : Type 0 where
  pub device : Text
  pub marked_current : Bool
  pub revoke_id : Option Text

device_of : Text → Text
device_of [] = codes "Unknown device"
device_of (c ∷ cs) = c ∷ cs

session_row : AuthSession → SessionRow
unfolding device_of
session_row s = record {
  device = device_of s.user_agent;
  marked_current = s.is_current;
  revoke_id = if s.is_current then none else some s.id;
}

session_rows : List AuthSession → List SessionRow
unfolding session_row
session_rows [] = []
session_rows (s ∷ ss) = session_row s ∷ session_rows ss

-- the rows, and whether the button for the other devices is shown
unfoldable pub sessions_section : Option (List AuthSession) → List SessionRow × Bool
unfolding session_rows
sessions_section none = ([], false)
sessions_section (some sessions) = (session_rows sessions, ltb 1 (length sessions))

unfoldable pub revoke : (id : Text) → List Effect
revoke id = mutate (post_auth_sessions_id_revoke id) ∷ []

unfoldable pub revoke_others : List Effect
revoke_others = mutate post_auth_sessions_revoke_others ∷ []

unfoldable pub sessions_revoked : List Effect
sessions_revoked = invalidate get_auth_sessions_query_key ∷ []

-- `ApiKeysSection`: `createdKey`
pub record CreatedKey : Type 0 where
  pub name : Text
  pub key : Text

unfoldable pub submit_api_key : (body : Text) → List Effect
submit_api_key body = mutate (post_auth_api_keys body) ∷ []

-- the name of the variables, `variables.data.name ?? ""`
name_or_empty : Option Text → Text
name_or_empty none = []
name_or_empty (some name) = name

unfoldable pub api_key_created :
    (key : Text) → (name : Option Text) → Option CreatedKey × List Effect
unfolding name_or_empty
api_key_created key name = (
  some (record { name = name_or_empty name; key = key }),
  invalidate get_auth_api_keys_query_key ∷ reset_form ∷ [],
)

-- the `onOpenChange` of the dialog, and its button Done
unfoldable pub key_dialog_changed : Bool → Option CreatedKey → Option CreatedKey
key_dialog_changed true created = created
key_dialog_changed false created = none

unfoldable pub key_dialog_done : Option CreatedKey → Option CreatedKey
key_dialog_done created = none

-- `copyKey`: what is written to the clipboard, and the notification; `write_ok` says whether the
-- clipboard takes it
unfoldable pub copy_key : (write_ok : Bool) → Option CreatedKey → Option Text × List Effect
copy_key write_ok none = (none, [])
copy_key true (some created) = (some created.key, toast_success (codes "API key copied") ∷ [])
copy_key false (some created) = (none, toast_error (codes "Failed to copy") ∷ [])

unfoldable pub delete_api_key : (id : Text) → List Effect
delete_api_key id = mutate (delete_auth_api_keys_id id) ∷ []

unfoldable pub api_key_deleted : List Effect
api_key_deleted = invalidate get_auth_api_keys_query_key ∷ []

-- What a step of a passkey ceremony comes to: the options, the credential, or the last answer.
pub data StepResult : Type 0 where
  done : Text → StepResult
  failed : (message : Text) → StepResult

-- The server, and the browser's `startRegistration` or `startAuthentication`.
pub record PasskeyPlatform : Type 0 where
  pub answer : Call → StepResult
  pub ask_authenticator : (options : Text) → StepResult
  pub finish_body : (credential : Text) → Text

-- a ceremony: what it comes to, and the calls that were sent
pub record Ceremony : Type 0 where
  pub result : StepResult
  pub calls : List Call

finish_with : PasskeyPlatform → Call → (Text → Call) → StepResult → Ceremony
finish_with p begin finish (failed message) = record { result = failed message; calls = begin ∷ [] }
finish_with p begin finish (done credential) =
    let call = finish (p.finish_body credential) in
    record { result = p.answer call; calls = begin ∷ call ∷ [] }

continue_with : PasskeyPlatform → Call → (Text → Call) → StepResult → Ceremony
unfolding finish_with
continue_with p begin finish (failed message) = record {
  result = failed message;
  calls = begin ∷ [];
}
continue_with p begin finish (done options) =
    finish_with p begin finish (p.ask_authenticator options)

ceremony : PasskeyPlatform → Call → (Text → Call) → Ceremony
unfolding continue_with
ceremony p begin finish = continue_with p begin finish (p.answer begin)

-- the `mutationFn` of `addPasskey`, and that of `passkeyMutation`
unfoldable pub add_passkey : PasskeyPlatform → Ceremony
unfolding ceremony
add_passkey p = ceremony p post_auth_passkey_register_begin post_auth_passkey_register_finish

unfoldable pub sign_in_passkey : PasskeyPlatform → Ceremony
unfolding ceremony
sign_in_passkey p = ceremony p post_auth_passkey_auth_begin post_auth_passkey_auth_finish

-- the `onSuccess` and the `onError` of `addPasskey`
added : StepResult → List Effect
added (done answer) =
    toast_success (codes "Passkey added") ∷ invalidate get_auth_passkeys_query_key ∷ []
added (failed message) = toast_error message ∷ []

unfoldable pub passkey_added : Ceremony → List Effect
unfolding added
passkey_added c = added c.result

unfoldable pub delete_passkey : (id : Text) → List Effect
delete_passkey id = mutate (delete_auth_passkey_id id) ∷ []

unfoldable pub passkey_deleted : List Effect
passkey_deleted = invalidate get_auth_passkeys_query_key ∷ []

-- `AccountSettings`: the data of the profile form
pub record Profile : Type 0 where
  pub name : Text
  pub avatar : Text
  pub username : Option Text

truthy : Text → Option Text
truthy [] = none
truthy (c ∷ cs) = some (c ∷ cs)

unfoldable pub profile_data : (trim : Text → Text) → (name avatar username : Text) → Profile
unfolding truthy
profile_data trim name avatar username = record {
  name = name;
  avatar = avatar;
  username = truthy (trim username);
}

unfoldable pub submit_profile :
    (body : Profile → Text) → (trim : Text → Text) → (name avatar username : Text) → List Effect
submit_profile body trim name avatar username =
    mutate (patch_auth_user (body (profile_data trim name avatar username))) ∷ []

unfoldable pub submit_email : (body : Text) → List Effect
submit_email body = mutate (post_auth_change_email body) ∷ []

-- the `onSuccess` of the two mutations of the account page
unfoldable pub profile_updated : List Effect
profile_updated =
    toast_success (codes "Profile updated") ∷ invalidate get_auth_session_query_key ∷ []

unfoldable pub email_updated : List Effect
email_updated = toast_success (codes "Email updated") ∷ invalidate get_auth_session_query_key ∷ []
