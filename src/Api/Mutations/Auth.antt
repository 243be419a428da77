-- ===== src/Api/Mutations/Auth.antt =====
-- web/src/lib/api/generated/default/default.ts: the mutations under /api/auth.
use dockstack.Prelude.{Option, [], ◌∷◌, Text, codes}
use dockstack.Api.Keys.{Key}
use dockstack.Api.Auth.{
  post_auth_api_keys, delete_auth_api_keys_id, post_auth_change_email, post_auth_change_password,
  post_auth_forgot_password, post_auth_is_username_available, post_auth_passkey_auth_begin,
  post_auth_passkey_auth_finish, post_auth_passkey_register_begin,
  post_auth_passkey_register_finish, delete_auth_passkey_id, post_auth_reset_password,
  post_auth_sessions_revoke_others, post_auth_sessions_id_revoke, post_auth_sign_in_email,
  post_auth_sign_in_username, post_auth_sign_out, patch_auth_user,
}
use dockstack.Api.Hooks.{MutationOverrides, MutationOptions, mutation_options}

unfoldable pub post_auth_api_keys_mutation_key : Key
post_auth_api_keys_mutation_key = codes "postAuthApiKeys" ∷ []

unfoldable pub post_auth_api_keys_mutation_options :
    Option (MutationOverrides Text) → MutationOptions Text
post_auth_api_keys_mutation_options options =
    mutation_options post_auth_api_keys_mutation_key post_auth_api_keys options

pub use_post_auth_api_keys {ℓ} :
    {A : Type ℓ} → (use_mutation : MutationOptions Text → A) → Option (MutationOverrides Text) → A
use_post_auth_api_keys use_mutation options =
    use_mutation (post_auth_api_keys_mutation_options options)

unfoldable pub delete_auth_api_keys_id_mutation_key : Key
delete_auth_api_keys_id_mutation_key = codes "deleteAuthApiKeysId" ∷ []

unfoldable pub delete_auth_api_keys_id_mutation_options :
    Option (MutationOverrides Text) → MutationOptions Text
delete_auth_api_keys_id_mutation_options options =
    mutation_options delete_auth_api_keys_id_mutation_key delete_auth_api_keys_id options

pub use_delete_auth_api_keys_id {ℓ} :
    {A : Type ℓ} → (use_mutation : MutationOptions Text → A) → Option (MutationOverrides Text) → A
use_delete_auth_api_keys_id use_mutation options =
    use_mutation (delete_auth_api_keys_id_mutation_options options)

unfoldable pub post_auth_change_email_mutation_key : Key
post_auth_change_email_mutation_key = codes "postAuthChangeEmail" ∷ []

unfoldable pub post_auth_change_email_mutation_options :
    Option (MutationOverrides Text) → MutationOptions Text
post_auth_change_email_mutation_options options =
    mutation_options post_auth_change_email_mutation_key post_auth_change_email options

pub use_post_auth_change_email {ℓ} :
    {A : Type ℓ} → (use_mutation : MutationOptions Text → A) → Option (MutationOverrides Text) → A
use_post_auth_change_email use_mutation options =
    use_mutation (post_auth_change_email_mutation_options options)

unfoldable pub post_auth_change_password_mutation_key : Key
post_auth_change_password_mutation_key = codes "postAuthChangePassword" ∷ []

unfoldable pub post_auth_change_password_mutation_options :
    Option (MutationOverrides Text) → MutationOptions Text
post_auth_change_password_mutation_options options =
    mutation_options post_auth_change_password_mutation_key post_auth_change_password options

pub use_post_auth_change_password {ℓ} :
    {A : Type ℓ} → (use_mutation : MutationOptions Text → A) → Option (MutationOverrides Text) → A
use_post_auth_change_password use_mutation options =
    use_mutation (post_auth_change_password_mutation_options options)

unfoldable pub post_auth_forgot_password_mutation_key : Key
post_auth_forgot_password_mutation_key = codes "postAuthForgotPassword" ∷ []

unfoldable pub post_auth_forgot_password_mutation_options :
    Option (MutationOverrides Text) → MutationOptions Text
post_auth_forgot_password_mutation_options options =
    mutation_options post_auth_forgot_password_mutation_key post_auth_forgot_password options

pub use_post_auth_forgot_password {ℓ} :
    {A : Type ℓ} → (use_mutation : MutationOptions Text → A) → Option (MutationOverrides Text) → A
use_post_auth_forgot_password use_mutation options =
    use_mutation (post_auth_forgot_password_mutation_options options)

unfoldable pub post_auth_is_username_available_mutation_key : Key
post_auth_is_username_available_mutation_key = codes "postAuthIsUsernameAvailable" ∷ []

unfoldable pub post_auth_is_username_available_mutation_options :
    Option (MutationOverrides Text) → MutationOptions Text
post_auth_is_username_available_mutation_options options =
    mutation_options post_auth_is_username_available_mutation_key post_auth_is_username_available
      options

pub use_post_auth_is_username_available {ℓ} :
    {A : Type ℓ} → (use_mutation : MutationOptions Text → A) → Option (MutationOverrides Text) → A
use_post_auth_is_username_available use_mutation options =
    use_mutation (post_auth_is_username_available_mutation_options options)

unfoldable pub post_auth_passkey_auth_begin_mutation_key : Key
post_auth_passkey_auth_begin_mutation_key = codes "postAuthPasskeyAuthBegin" ∷ []

unfoldable pub post_auth_passkey_auth_begin_mutation_options :
    Option (MutationOverrides Unit) → MutationOptions Unit
post_auth_passkey_auth_begin_mutation_options options =
    mutation_options post_auth_passkey_auth_begin_mutation_key (λ _. post_auth_passkey_auth_begin)
      options

pub use_post_auth_passkey_auth_begin {ℓ} :
    {A : Type ℓ} → (use_mutation : MutationOptions Unit → A) → Option (MutationOverrides Unit) → A
use_post_auth_passkey_auth_begin use_mutation options =
    use_mutation (post_auth_passkey_auth_begin_mutation_options options)

unfoldable pub post_auth_passkey_auth_finish_mutation_key : Key
post_auth_passkey_auth_finish_mutation_key = codes "postAuthPasskeyAuthFinish" ∷ []

unfoldable pub post_auth_passkey_auth_finish_mutation_options :
    Option (MutationOverrides Text) → MutationOptions Text
post_auth_passkey_auth_finish_mutation_options options =
    mutation_options post_auth_passkey_auth_finish_mutation_key post_auth_passkey_auth_finish
      options

pub use_post_auth_passkey_auth_finish {ℓ} :
    {A : Type ℓ} → (use_mutation : MutationOptions Text → A) → Option (MutationOverrides Text) → A
use_post_auth_passkey_auth_finish use_mutation options =
    use_mutation (post_auth_passkey_auth_finish_mutation_options options)

unfoldable pub post_auth_passkey_register_begin_mutation_key : Key
post_auth_passkey_register_begin_mutation_key = codes "postAuthPasskeyRegisterBegin" ∷ []

unfoldable pub post_auth_passkey_register_begin_mutation_options :
    Option (MutationOverrides Unit) → MutationOptions Unit
post_auth_passkey_register_begin_mutation_options options =
    mutation_options post_auth_passkey_register_begin_mutation_key
      (λ _. post_auth_passkey_register_begin) options

pub use_post_auth_passkey_register_begin {ℓ} :
    {A : Type ℓ} → (use_mutation : MutationOptions Unit → A) → Option (MutationOverrides Unit) → A
use_post_auth_passkey_register_begin use_mutation options =
    use_mutation (post_auth_passkey_register_begin_mutation_options options)

unfoldable pub post_auth_passkey_register_finish_mutation_key : Key
post_auth_passkey_register_finish_mutation_key = codes "postAuthPasskeyRegisterFinish" ∷ []

unfoldable pub post_auth_passkey_register_finish_mutation_options :
    Option (MutationOverrides Text) → MutationOptions Text
post_auth_passkey_register_finish_mutation_options options =
    mutation_options post_auth_passkey_register_finish_mutation_key
      post_auth_passkey_register_finish options

pub use_post_auth_passkey_register_finish {ℓ} :
    {A : Type ℓ} → (use_mutation : MutationOptions Text → A) → Option (MutationOverrides Text) → A
use_post_auth_passkey_register_finish use_mutation options =
    use_mutation (post_auth_passkey_register_finish_mutation_options options)

unfoldable pub delete_auth_passkey_id_mutation_key : Key
delete_auth_passkey_id_mutation_key = codes "deleteAuthPasskeyId" ∷ []

unfoldable pub delete_auth_passkey_id_mutation_options :
    Option (MutationOverrides Text) → MutationOptions Text
delete_auth_passkey_id_mutation_options options =
    mutation_options delete_auth_passkey_id_mutation_key delete_auth_passkey_id options

pub use_delete_auth_passkey_id {ℓ} :
    {A : Type ℓ} → (use_mutation : MutationOptions Text → A) → Option (MutationOverrides Text) → A
use_delete_auth_passkey_id use_mutation options =
    use_mutation (delete_auth_passkey_id_mutation_options options)

unfoldable pub post_auth_reset_password_mutation_key : Key
post_auth_reset_password_mutation_key = codes "postAuthResetPassword" ∷ []

unfoldable pub post_auth_reset_password_mutation_options :
    Option (MutationOverrides Text) → MutationOptions Text
post_auth_reset_password_mutation_options options =
    mutation_options post_auth_reset_password_mutation_key post_auth_reset_password options

pub use_post_auth_reset_password {ℓ} :
    {A : Type ℓ} → (use_mutation : MutationOptions Text → A) → Option (MutationOverrides Text) → A
use_post_auth_reset_password use_mutation options =
    use_mutation (post_auth_reset_password_mutation_options options)

unfoldable pub post_auth_sessions_revoke_others_mutation_key : Key
post_auth_sessions_revoke_others_mutation_key = codes "postAuthSessionsRevokeOthers" ∷ []

unfoldable pub post_auth_sessions_revoke_others_mutation_options :
    Option (MutationOverrides Unit) → MutationOptions Unit
post_auth_sessions_revoke_others_mutation_options options =
    mutation_options post_auth_sessions_revoke_others_mutation_key
      (λ _. post_auth_sessions_revoke_others) options

pub use_post_auth_sessions_revoke_others {ℓ} :
    {A : Type ℓ} → (use_mutation : MutationOptions Unit → A) → Option (MutationOverrides Unit) → A
use_post_auth_sessions_revoke_others use_mutation options =
    use_mutation (post_auth_sessions_revoke_others_mutation_options options)

unfoldable pub post_auth_sessions_id_revoke_mutation_key : Key
post_auth_sessions_id_revoke_mutation_key = codes "postAuthSessionsIdRevoke" ∷ []

unfoldable pub post_auth_sessions_id_revoke_mutation_options :
    Option (MutationOverrides Text) → MutationOptions Text
post_auth_sessions_id_revoke_mutation_options options =
    mutation_options post_auth_sessions_id_revoke_mutation_key post_auth_sessions_id_revoke options

pub use_post_auth_sessions_id_revoke {ℓ} :
    {A : Type ℓ} → (use_mutation : MutationOptions Text → A) → Option (MutationOverrides Text) → A
use_post_auth_sessions_id_revoke use_mutation options =
    use_mutation (post_auth_sessions_id_revoke_mutation_options options)

unfoldable pub post_auth_sign_in_email_mutation_key : Key
post_auth_sign_in_email_mutation_key = codes "postAuthSignInEmail" ∷ []

unfoldable pub post_auth_sign_in_email_mutation_options :
    Option (MutationOverrides Text) → MutationOptions Text
post_auth_sign_in_email_mutation_options options =
    mutation_options post_auth_sign_in_email_mutation_key post_auth_sign_in_email options

pub use_post_auth_sign_in_email {ℓ} :
    {A : Type ℓ} → (use_mutation : MutationOptions Text → A) → Option (MutationOverrides Text) → A
use_post_auth_sign_in_email use_mutation options =
    use_mutation (post_auth_sign_in_email_mutation_options options)

unfoldable pub post_auth_sign_in_username_mutation_key : Key
post_auth_sign_in_username_mutation_key = codes "postAuthSignInUsername" ∷ []

unfoldable pub post_auth_sign_in_username_mutation_options :
    Option (MutationOverrides Text) → MutationOptions Text
post_auth_sign_in_username_mutation_options options =
    mutation_options post_auth_sign_in_username_mutation_key post_auth_sign_in_username options

pub use_post_auth_sign_in_username {ℓ} :
    {A : Type ℓ} → (use_mutation : MutationOptions Text → A) → Option (MutationOverrides Text) → A
use_post_auth_sign_in_username use_mutation options =
    use_mutation (post_auth_sign_in_username_mutation_options options)

unfoldable pub post_auth_sign_out_mutation_key : Key
post_auth_sign_out_mutation_key = codes "postAuthSignOut" ∷ []

unfoldable pub post_auth_sign_out_mutation_options :
    Option (MutationOverrides Unit) → MutationOptions Unit
post_auth_sign_out_mutation_options options =
    mutation_options post_auth_sign_out_mutation_key (λ _. post_auth_sign_out) options

pub use_post_auth_sign_out {ℓ} :
    {A : Type ℓ} → (use_mutation : MutationOptions Unit → A) → Option (MutationOverrides Unit) → A
use_post_auth_sign_out use_mutation options =
    use_mutation (post_auth_sign_out_mutation_options options)

unfoldable pub patch_auth_user_mutation_key : Key
patch_auth_user_mutation_key = codes "patchAuthUser" ∷ []

unfoldable pub patch_auth_user_mutation_options :
    Option (MutationOverrides Text) → MutationOptions Text
patch_auth_user_mutation_options options =
    mutation_options patch_auth_user_mutation_key patch_auth_user options

pub use_patch_auth_user {ℓ} :
    {A : Type ℓ} → (use_mutation : MutationOptions Text → A) → Option (MutationOverrides Text) → A
use_patch_auth_user use_mutation options = use_mutation (patch_auth_user_mutation_options options)
