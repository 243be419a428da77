-- ===== src/Api/Mutations/Distinct.antt =====
-- The keys of the mutations, and what they send.
use dockstack.Prelude.{◌≡◌, refl, true, none, List, [], ◌∷◌, All, Text, text_eq, map}
use dockstack.Api.Hooks.{mutation_options}
use dockstack.Api.Mutations.Entries.{
  Entry, called, entry, IsChange, AllDistinct, key_eq, is_apart, all_apart, all_apart_lem, is_get,
  is_change, all_change, all_change_lem,
}
use dockstack.Api.Auth.{
  post_auth_api_keys, delete_auth_api_keys_id, post_auth_change_email, post_auth_change_password,
  post_auth_forgot_password, post_auth_is_username_available, post_auth_passkey_auth_begin,
  post_auth_passkey_auth_finish, post_auth_passkey_register_begin,
  post_auth_passkey_register_finish, delete_auth_passkey_id, post_auth_reset_password,
  post_auth_sessions_revoke_others, post_auth_sessions_id_revoke, post_auth_sign_in_email,
  post_auth_sign_in_username, post_auth_sign_out, patch_auth_user,
}
use dockstack.Api.Mutations.Auth.{
  post_auth_api_keys_mutation_options, post_auth_api_keys_mutation_key,
  delete_auth_api_keys_id_mutation_options, delete_auth_api_keys_id_mutation_key,
  post_auth_change_email_mutation_options, post_auth_change_email_mutation_key,
  post_auth_change_password_mutation_options, post_auth_change_password_mutation_key,
  post_auth_forgot_password_mutation_options, post_auth_forgot_password_mutation_key,
  post_auth_is_username_available_mutation_options, post_auth_is_username_available_mutation_key,
  post_auth_passkey_auth_begin_mutation_options, post_auth_passkey_auth_begin_mutation_key,
  post_auth_passkey_auth_finish_mutation_options, post_auth_passkey_auth_finish_mutation_key,
  post_auth_passkey_register_begin_mutation_options, post_auth_passkey_register_begin_mutation_key,
  post_auth_passkey_register_finish_mutation_options,
  post_auth_passkey_register_finish_mutation_key, delete_auth_passkey_id_mutation_options,
  delete_auth_passkey_id_mutation_key, post_auth_reset_password_mutation_options,
  post_auth_reset_password_mutation_key, post_auth_sessions_revoke_others_mutation_options,
  post_auth_sessions_revoke_others_mutation_key, post_auth_sessions_id_revoke_mutation_options,
  post_auth_sessions_id_revoke_mutation_key, post_auth_sign_in_email_mutation_options,
  post_auth_sign_in_email_mutation_key, post_auth_sign_in_username_mutation_options,
  post_auth_sign_in_username_mutation_key, post_auth_sign_out_mutation_options,
  post_auth_sign_out_mutation_key, patch_auth_user_mutation_options, patch_auth_user_mutation_key,
}
use dockstack.Api.Containers.{
  post_containers_prune, delete_containers_id, post_containers_id_restart, post_containers_id_start,
  post_containers_id_stop,
}
use dockstack.Api.Mutations.Containers.{
  post_containers_prune_mutation_options, post_containers_prune_mutation_key,
  delete_containers_id_mutation_options, delete_containers_id_mutation_key,
  post_containers_id_restart_mutation_options, post_containers_id_restart_mutation_key,
  post_containers_id_start_mutation_options, post_containers_id_start_mutation_key,
  post_containers_id_stop_mutation_options, post_containers_id_stop_mutation_key,
}
use dockstack.Api.Stacks.{
  post_stacks, post_stacks_redeploy, delete_stacks_name, post_stack_action_down,
  post_stacks_name_env, put_stacks_name_files, post_stack_action_pull, post_stack_action_redeploy,
  post_stacks_name_rename, post_stack_action_restart, post_stack_action_stop, post_stack_action_up,
  post_stack_action_update,
}
use dockstack.Api.Mutations.Stacks.{
  post_stacks_mutation_options, post_stacks_mutation_key, post_stacks_redeploy_mutation_options,
  post_stacks_redeploy_mutation_key, delete_stacks_name_mutation_options,
  delete_stacks_name_mutation_key, post_stack_action_down_mutation_options,
  post_stack_action_down_mutation_key, post_stacks_name_env_mutation_options,
  post_stacks_name_env_mutation_key, put_stacks_name_files_mutation_options,
  put_stacks_name_files_mutation_key, post_stack_action_pull_mutation_options,
  post_stack_action_pull_mutation_key, post_stack_action_redeploy_mutation_options,
  post_stack_action_redeploy_mutation_key, post_stacks_name_rename_mutation_options,
  post_stacks_name_rename_mutation_key, post_stack_action_restart_mutation_options,
  post_stack_action_restart_mutation_key, post_stack_action_stop_mutation_options,
  post_stack_action_stop_mutation_key, post_stack_action_up_mutation_options,
  post_stack_action_up_mutation_key, post_stack_action_update_mutation_options,
  post_stack_action_update_mutation_key,
}
use dockstack.Api.Resources.{
  post_images_prune, delete_images_id, post_networks_prune, delete_networks_name,
  post_volumes_prune, delete_volumes_name,
}
use dockstack.Api.Mutations.Resources.{
  post_images_prune_mutation_options, post_images_prune_mutation_key,
  delete_images_id_mutation_options, delete_images_id_mutation_key,
  post_networks_prune_mutation_options, post_networks_prune_mutation_key,
  delete_networks_name_mutation_options, delete_networks_name_mutation_key,
  post_volumes_prune_mutation_options, post_volumes_prune_mutation_key,
  delete_volumes_name_mutation_options, delete_volumes_name_mutation_key,
}

-- Every mutation of the client.
abbrev pub all_mutations : (text body : Text) → List Entry
all_mutations text body =
    entry (post_auth_api_keys_mutation_options none) text
    ∷ entry (delete_auth_api_keys_id_mutation_options none) text
    ∷ entry (post_auth_change_email_mutation_options none) text
    ∷ entry (post_auth_change_password_mutation_options none) text
    ∷ entry (post_auth_forgot_password_mutation_options none) text
    ∷ entry (post_auth_is_username_available_mutation_options none) text
    ∷ entry (post_auth_passkey_auth_begin_mutation_options none) tt
    ∷ entry (post_auth_passkey_auth_finish_mutation_options none) text
    ∷ entry (post_auth_passkey_register_begin_mutation_options none) tt
    ∷ entry (post_auth_passkey_register_finish_mutation_options none) text
    ∷ entry (delete_auth_passkey_id_mutation_options none) text
    ∷ entry (post_auth_reset_password_mutation_options none) text
    ∷ entry (post_auth_sessions_revoke_others_mutation_options none) tt
    ∷ entry (post_auth_sessions_id_revoke_mutation_options none) text
    ∷ entry (post_auth_sign_in_email_mutation_options none) text
    ∷ entry (post_auth_sign_in_username_mutation_options none) text
    ∷ entry (post_auth_sign_out_mutation_options none) tt
    ∷ entry (patch_auth_user_mutation_options none) text
    ∷ entry (post_containers_prune_mutation_options none) tt
    ∷ entry (delete_containers_id_mutation_options none) text
    ∷ entry (post_containers_id_restart_mutation_options none) text
    ∷ entry (post_containers_id_start_mutation_options none) text
    ∷ entry (post_containers_id_stop_mutation_options none) text
    ∷ entry (post_images_prune_mutation_options none) tt
    ∷ entry (delete_images_id_mutation_options none) text
    ∷ entry (post_networks_prune_mutation_options none) tt
    ∷ entry (delete_networks_name_mutation_options none) text
    ∷ entry (post_stacks_mutation_options none) text
    ∷ entry (post_stacks_redeploy_mutation_options none) tt
    ∷ entry (delete_stacks_name_mutation_options none) text
    ∷ entry (post_stack_action_down_mutation_options none) text
    ∷ entry (post_stacks_name_env_mutation_options none) text
    ∷ entry (put_stacks_name_files_mutation_options none) (text, body)
    ∷ entry (post_stack_action_pull_mutation_options none) text
    ∷ entry (post_stack_action_redeploy_mutation_options none) text
    ∷ entry (post_stacks_name_rename_mutation_options none) (text, body)
    ∷ entry (post_stack_action_restart_mutation_options none) text
    ∷ entry (post_stack_action_stop_mutation_options none) text
    ∷ entry (post_stack_action_up_mutation_options none) text
    ∷ entry (post_stack_action_update_mutation_options none) text
    ∷ entry (post_volumes_prune_mutation_options none) tt
    ∷ entry (delete_volumes_name_mutation_options none) text
    ∷ []

computed :
    (text body : Text)
    → (all_change (all_mutations text body) ≡ true)
      × (all_apart (map (λ e. e.key) (all_mutations text body)) ≡ true)
unfolding all_change is_change is_get all_apart is_apart key_eq text_eq mutation_options entry
    called post_auth_api_keys_mutation_options post_auth_api_keys_mutation_key post_auth_api_keys
    delete_auth_api_keys_id_mutation_options delete_auth_api_keys_id_mutation_key
    delete_auth_api_keys_id post_auth_change_email_mutation_options
    post_auth_change_email_mutation_key post_auth_change_email
    post_auth_change_password_mutation_options post_auth_change_password_mutation_key
    post_auth_change_password post_auth_forgot_password_mutation_options
    post_auth_forgot_password_mutation_key post_auth_forgot_password
    post_auth_is_username_available_mutation_options post_auth_is_username_available_mutation_key
    post_auth_is_username_available post_auth_passkey_auth_begin_mutation_options
    post_auth_passkey_auth_begin_mutation_key post_auth_passkey_auth_begin
    post_auth_passkey_auth_finish_mutation_options post_auth_passkey_auth_finish_mutation_key
    post_auth_passkey_auth_finish post_auth_passkey_register_begin_mutation_options
    post_auth_passkey_register_begin_mutation_key post_auth_passkey_register_begin
    post_auth_passkey_register_finish_mutation_options
    post_auth_passkey_register_finish_mutation_key post_auth_passkey_register_finish
    delete_auth_passkey_id_mutation_options delete_auth_passkey_id_mutation_key
    delete_auth_passkey_id post_auth_reset_password_mutation_options
    post_auth_reset_password_mutation_key post_auth_reset_password
    post_auth_sessions_revoke_others_mutation_options post_auth_sessions_revoke_others_mutation_key
    post_auth_sessions_revoke_others post_auth_sessions_id_revoke_mutation_options
    post_auth_sessions_id_revoke_mutation_key post_auth_sessions_id_revoke
    post_auth_sign_in_email_mutation_options post_auth_sign_in_email_mutation_key
    post_auth_sign_in_email post_auth_sign_in_username_mutation_options
    post_auth_sign_in_username_mutation_key post_auth_sign_in_username
    post_auth_sign_out_mutation_options post_auth_sign_out_mutation_key post_auth_sign_out
    patch_auth_user_mutation_options patch_auth_user_mutation_key patch_auth_user
    post_containers_prune_mutation_options post_containers_prune_mutation_key post_containers_prune
    delete_containers_id_mutation_options delete_containers_id_mutation_key delete_containers_id
    post_containers_id_restart_mutation_options post_containers_id_restart_mutation_key
    post_containers_id_restart post_containers_id_start_mutation_options
    post_containers_id_start_mutation_key post_containers_id_start
    post_containers_id_stop_mutation_options post_containers_id_stop_mutation_key
    post_containers_id_stop post_images_prune_mutation_options post_images_prune_mutation_key
    post_images_prune delete_images_id_mutation_options delete_images_id_mutation_key
    delete_images_id post_networks_prune_mutation_options post_networks_prune_mutation_key
    post_networks_prune delete_networks_name_mutation_options delete_networks_name_mutation_key
    delete_networks_name post_stacks_mutation_options post_stacks_mutation_key post_stacks
    post_stacks_redeploy_mutation_options post_stacks_redeploy_mutation_key post_stacks_redeploy
    delete_stacks_name_mutation_options delete_stacks_name_mutation_key delete_stacks_name
    post_stack_action_down_mutation_options post_stack_action_down_mutation_key
    post_stack_action_down post_stacks_name_env_mutation_options post_stacks_name_env_mutation_key
    post_stacks_name_env put_stacks_name_files_mutation_options put_stacks_name_files_mutation_key
    put_stacks_name_files post_stack_action_pull_mutation_options
    post_stack_action_pull_mutation_key post_stack_action_pull
    post_stack_action_redeploy_mutation_options post_stack_action_redeploy_mutation_key
    post_stack_action_redeploy post_stacks_name_rename_mutation_options
    post_stacks_name_rename_mutation_key post_stacks_name_rename
    post_stack_action_restart_mutation_options post_stack_action_restart_mutation_key
    post_stack_action_restart post_stack_action_stop_mutation_options
    post_stack_action_stop_mutation_key post_stack_action_stop post_stack_action_up_mutation_options
    post_stack_action_up_mutation_key post_stack_action_up post_stack_action_update_mutation_options
    post_stack_action_update_mutation_key post_stack_action_update
    post_volumes_prune_mutation_options post_volumes_prune_mutation_key post_volumes_prune
    delete_volumes_name_mutation_options delete_volumes_name_mutation_key delete_volumes_name
computed text body = (refl, refl)

-- Whatever their variables, no mutation of the client is a GET request, and no two of them have one
-- key.
all_mutations-AllDistinct :
    (text body : Text)
    → All (λ e. IsChange e.call) (all_mutations text body)
      × AllDistinct (map (λ e. e.key) (all_mutations text body))
all_mutations-AllDistinct text body = (
  all_change_lem (all_mutations text body) (computed text body).0,
  all_apart_lem (map (λ e. e.key) (all_mutations text body)) (computed text body).1,
)
