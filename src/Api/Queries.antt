-- ===== src/Api/Queries.antt =====
-- web/src/lib/api/generated/default/default.ts: the options of every query, and the hooks that take them.
pub mod Coherence
use dockstack.Prelude.{Option, List, Text, true}
use dockstack.Api.Request.{absent, present}
use dockstack.Api.Auth.{
  get_auth_api_keys, get_auth_passkeys, get_auth_providers, get_auth_session, get_auth_sessions,
}
use dockstack.Api.Containers.{get_containers, get_containers_stats}
use dockstack.Api.Stacks.{
  get_stacks, get_stacks_drift, get_stacks_updates, get_stacks_name, get_stacks_name_containers,
  get_stacks_name_files,
}
use dockstack.Api.Resources.{
  get_health, get_images, get_images_stale, get_networks, get_settings, get_volumes,
}
use dockstack.Api.Keys.{
  get_auth_api_keys_query_key, get_auth_passkeys_query_key, get_auth_providers_query_key,
  get_auth_session_query_key, get_auth_sessions_query_key, get_containers_query_key,
  get_containers_stats_query_key, get_health_query_key, get_images_query_key,
  get_images_stale_query_key, get_networks_query_key, get_settings_query_key, get_stacks_query_key,
  get_stacks_drift_query_key, get_stacks_updates_query_key, get_stacks_name_query_key,
  get_stacks_name_containers_query_key, get_stacks_name_files_query_key, get_volumes_query_key,
}
use dockstack.Api.Hooks.{QueryOverrides, QueryOptions, query_options, Result, with_query_key}

unfoldable pub get_auth_api_keys_query_options : Option QueryOverrides → QueryOptions
unfolding query_options
get_auth_api_keys_query_options options =
    query_options get_auth_api_keys_query_key get_auth_api_keys absent options

unfoldable pub get_auth_passkeys_query_options : Option QueryOverrides → QueryOptions
unfolding query_options
get_auth_passkeys_query_options options =
    query_options get_auth_passkeys_query_key get_auth_passkeys absent options

unfoldable pub get_auth_providers_query_options : Option QueryOverrides → QueryOptions
unfolding query_options
get_auth_providers_query_options options =
    query_options get_auth_providers_query_key get_auth_providers absent options

unfoldable pub get_auth_session_query_options : Option QueryOverrides → QueryOptions
unfolding query_options
get_auth_session_query_options options =
    query_options get_auth_session_query_key get_auth_session absent options

unfoldable pub get_auth_sessions_query_options : Option QueryOverrides → QueryOptions
unfolding query_options
get_auth_sessions_query_options options =
    query_options get_auth_sessions_query_key get_auth_sessions absent options

unfoldable pub get_containers_query_options : Option QueryOverrides → QueryOptions
unfolding query_options
get_containers_query_options options =
    query_options get_containers_query_key get_containers absent options

unfoldable pub get_containers_stats_query_options : Option QueryOverrides → QueryOptions
unfolding query_options
get_containers_stats_query_options options =
    query_options get_containers_stats_query_key get_containers_stats absent options

unfoldable pub get_health_query_options : Option QueryOverrides → QueryOptions
unfolding query_options
get_health_query_options options = query_options get_health_query_key get_health absent options

unfoldable pub get_images_query_options : Option QueryOverrides → QueryOptions
unfolding query_options
get_images_query_options options = query_options get_images_query_key get_images absent options

unfoldable pub get_images_stale_query_options : Option QueryOverrides → QueryOptions
unfolding query_options
get_images_stale_query_options options =
    query_options get_images_stale_query_key get_images_stale absent options

unfoldable pub get_networks_query_options : Option QueryOverrides → QueryOptions
unfolding query_options
get_networks_query_options options =
    query_options get_networks_query_key get_networks absent options

unfoldable pub get_settings_query_options : Option QueryOverrides → QueryOptions
unfolding query_options
get_settings_query_options options =
    query_options get_settings_query_key get_settings absent options

unfoldable pub get_stacks_query_options : Option QueryOverrides → QueryOptions
unfolding query_options
get_stacks_query_options options = query_options get_stacks_query_key get_stacks absent options

unfoldable pub get_stacks_drift_query_options : Option QueryOverrides → QueryOptions
unfolding query_options
get_stacks_drift_query_options options =
    query_options get_stacks_drift_query_key get_stacks_drift absent options

unfoldable pub get_stacks_updates_query_options : Option QueryOverrides → QueryOptions
unfolding query_options
get_stacks_updates_query_options options =
    query_options get_stacks_updates_query_key get_stacks_updates absent options

unfoldable pub get_stacks_name_query_options : Text → Option QueryOverrides → QueryOptions
unfolding query_options
get_stacks_name_query_options name options =
    query_options (get_stacks_name_query_key name) (get_stacks_name name) (present true) options

unfoldable pub get_stacks_name_containers_query_options :
    Text → Option QueryOverrides → QueryOptions
unfolding query_options
get_stacks_name_containers_query_options name options =
    query_options (get_stacks_name_containers_query_key name) (get_stacks_name_containers name)
      (present true) options

unfoldable pub get_stacks_name_files_query_options : Text → Option QueryOverrides → QueryOptions
unfolding query_options
get_stacks_name_files_query_options name options =
    query_options (get_stacks_name_files_query_key name) (get_stacks_name_files name) (present true)
      options

unfoldable pub get_volumes_query_options : Option QueryOverrides → QueryOptions
unfolding query_options
get_volumes_query_options options = query_options get_volumes_query_key get_volumes absent options

-- `use_query` is `useQuery`, with the properties of its result by name
module _ {ℓ} {A : Type ℓ} (use_query : QueryOptions → List (Text × A)) where
  pub use_get_auth_api_keys : Option QueryOverrides → Result A
  use_get_auth_api_keys options =
      let query_options' = get_auth_api_keys_query_options options in
      with_query_key (use_query query_options') query_options'.query_key

  pub use_get_auth_passkeys : Option QueryOverrides → Result A
  use_get_auth_passkeys options =
      let query_options' = get_auth_passkeys_query_options options in
      with_query_key (use_query query_options') query_options'.query_key

  pub use_get_auth_providers : Option QueryOverrides → Result A
  use_get_auth_providers options =
      let query_options' = get_auth_providers_query_options options in
      with_query_key (use_query query_options') query_options'.query_key

  pub use_get_auth_session : Option QueryOverrides → Result A
  use_get_auth_session options =
      let query_options' = get_auth_session_query_options options in
      with_query_key (use_query query_options') query_options'.query_key

  pub use_get_auth_sessions : Option QueryOverrides → Result A
  use_get_auth_sessions options =
      let query_options' = get_auth_sessions_query_options options in
      with_query_key (use_query query_options') query_options'.query_key

  pub use_get_containers : Option QueryOverrides → Result A
  use_get_containers options =
      let query_options' = get_containers_query_options options in
      with_query_key (use_query query_options') query_options'.query_key

  pub use_get_containers_stats : Option QueryOverrides → Result A
  use_get_containers_stats options =
      let query_options' = get_containers_stats_query_options options in
      with_query_key (use_query query_options') query_options'.query_key

  pub use_get_health : Option QueryOverrides → Result A
  use_get_health options =
      let query_options' = get_health_query_options options in
      with_query_key (use_query query_options') query_options'.query_key

  pub use_get_images : Option QueryOverrides → Result A
  use_get_images options =
      let query_options' = get_images_query_options options in
      with_query_key (use_query query_options') query_options'.query_key

  pub use_get_images_stale : Option QueryOverrides → Result A
  use_get_images_stale options =
      let query_options' = get_images_stale_query_options options in
      with_query_key (use_query query_options') query_options'.query_key

  pub use_get_networks : Option QueryOverrides → Result A
  use_get_networks options =
      let query_options' = get_networks_query_options options in
      with_query_key (use_query query_options') query_options'.query_key

  pub use_get_settings : Option QueryOverrides → Result A
  use_get_settings options =
      let query_options' = get_settings_query_options options in
      with_query_key (use_query query_options') query_options'.query_key

  pub use_get_stacks : Option QueryOverrides → Result A
  use_get_stacks options =
      let query_options' = get_stacks_query_options options in
      with_query_key (use_query query_options') query_options'.query_key

  pub use_get_stacks_drift : Option QueryOverrides → Result A
  use_get_stacks_drift options =
      let query_options' = get_stacks_drift_query_options options in
      with_query_key (use_query query_options') query_options'.query_key

  pub use_get_stacks_updates : Option QueryOverrides → Result A
  use_get_stacks_updates options =
      let query_options' = get_stacks_updates_query_options options in
      with_query_key (use_query query_options') query_options'.query_key

  pub use_get_stacks_name : Text → Option QueryOverrides → Result A
  use_get_stacks_name name options =
      let query_options' = get_stacks_name_query_options name options in
      with_query_key (use_query query_options') query_options'.query_key

  pub use_get_stacks_name_containers : Text → Option QueryOverrides → Result A
  use_get_stacks_name_containers name options =
      let query_options' = get_stacks_name_containers_query_options name options in
      with_query_key (use_query query_options') query_options'.query_key

  pub use_get_stacks_name_files : Text → Option QueryOverrides → Result A
  use_get_stacks_name_files name options =
      let query_options' = get_stacks_name_files_query_options name options in
      with_query_key (use_query query_options') query_options'.query_key

  pub use_get_volumes : Option QueryOverrides → Result A
  use_get_volumes options =
      let query_options' = get_volumes_query_options options in
      with_query_key (use_query query_options') query_options'.query_key
