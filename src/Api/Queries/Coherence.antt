-- ===== src/Api/Queries/Coherence.antt =====
-- The key under which a query is kept, and the request that fills it.
use dockstack.Prelude.{◌≡◌, refl, Bool, Option, none, some, List, [], ◌∷◌, All, Text}
use dockstack.Api.{Call, get}
use dockstack.Api.Request.{Slot, absent}
use dockstack.Api.Hooks.{QueryOverrides, QueryOptions, query_options}
use dockstack.Api.Keys.{
  get_auth_api_keys_query_key, get_auth_passkeys_query_key, get_auth_providers_query_key,
  get_auth_session_query_key, get_auth_sessions_query_key, get_containers_query_key,
  get_containers_stats_query_key, get_health_query_key, get_images_query_key,
  get_images_stale_query_key, get_networks_query_key, get_settings_query_key, get_stacks_query_key,
  get_stacks_drift_query_key, get_stacks_updates_query_key, get_stacks_name_query_key,
  get_stacks_name_containers_query_key, get_stacks_name_files_query_key, get_volumes_query_key,
}
use dockstack.Api.Auth.{
  get_auth_api_keys, get_auth_passkeys, get_auth_providers, get_auth_session, get_auth_sessions,
}
use dockstack.Api.Containers.{get_containers, get_containers_stats}
use dockstack.Api.Stacks.{
  get_stacks, get_stacks_drift, get_stacks_updates, get_stacks_name, get_stacks_name_containers,
  get_stacks_name_files,
}
use dockstack.Api.Resources.{
  get_health, get_images, get_images_stale, get_networks, get_settings, get_volumes,
}
use dockstack.Api.Queries.{
  get_auth_api_keys_query_options, get_auth_passkeys_query_options,
  get_auth_providers_query_options, get_auth_session_query_options, get_auth_sessions_query_options,
  get_containers_query_options, get_containers_stats_query_options, get_health_query_options,
  get_images_query_options, get_images_stale_query_options, get_networks_query_options,
  get_settings_query_options, get_stacks_query_options, get_stacks_drift_query_options,
  get_stacks_updates_query_options, get_stacks_name_query_options,
  get_stacks_name_containers_query_options, get_stacks_name_files_query_options,
  get_volumes_query_options,
}

-- The key is the address that the query's function gets, and nothing else is sent.
pub record IsCoherent (o : QueryOptions) : Type 0 where
  pub call : Call
  pub calls : o.query_fn ≡ some call
  pub key_is : o.query_key ≡ some (call.url ∷ [])
  pub gets : call.method ≡ get
  pub no_body : call.body ≡ none

-- Every query of the client, with the name of a stack for those that take one.
abbrev pub all_queries : Text → Option QueryOverrides → List QueryOptions
all_queries name options =
    get_auth_api_keys_query_options options
    ∷ get_auth_passkeys_query_options options
    ∷ get_auth_providers_query_options options
    ∷ get_auth_session_query_options options
    ∷ get_auth_sessions_query_options options
    ∷ get_containers_query_options options
    ∷ get_containers_stats_query_options options
    ∷ get_health_query_options options
    ∷ get_images_query_options options
    ∷ get_images_stale_query_options options
    ∷ get_networks_query_options options
    ∷ get_settings_query_options options
    ∷ get_stacks_query_options options
    ∷ get_stacks_drift_query_options options
    ∷ get_stacks_updates_query_options options
    ∷ get_stacks_name_query_options name options
    ∷ get_stacks_name_containers_query_options name options
    ∷ get_stacks_name_files_query_options name options
    ∷ get_volumes_query_options options
    ∷ []

-- Overrides that keep the key and the function.
abbrev pub tuning : Slot Bool → QueryOverrides
tuning enabled = record { query_key = absent; query_fn = absent; enabled = enabled }

coherent :
    (o : QueryOptions) (call : Call)
    → o.query_fn ≡ some call
    → o.query_key ≡ some (call.url ∷ [])
    → call.method ≡ get
    → call.body ≡ none
    → IsCoherent o
coherent o call f k g b = record { call = call; calls = f; key_is = k; gets = g; no_body = b }

-- For any stack, and whatever a caller says of `enabled`, each query of the client keeps the answer
-- under a key that consists of the address from which its function gets it, and sends no body.
pub all_queries-IsCoherent :
    (name : Text) (enabled : Slot Bool) → All IsCoherent (all_queries name (some (tuning enabled)))
unfolding query_options get_auth_api_keys_query_options get_auth_api_keys
    get_auth_api_keys_query_key get_auth_passkeys_query_options get_auth_passkeys
    get_auth_passkeys_query_key get_auth_providers_query_options get_auth_providers
    get_auth_providers_query_key get_auth_session_query_options get_auth_session
    get_auth_session_query_key get_auth_sessions_query_options get_auth_sessions
    get_auth_sessions_query_key get_containers_query_options get_containers get_containers_query_key
    get_containers_stats_query_options get_containers_stats get_containers_stats_query_key
    get_health_query_options get_health get_health_query_key get_images_query_options get_images
    get_images_query_key get_images_stale_query_options get_images_stale get_images_stale_query_key
    get_networks_query_options get_networks get_networks_query_key get_settings_query_options
    get_settings get_settings_query_key get_stacks_query_options get_stacks get_stacks_query_key
    get_stacks_drift_query_options get_stacks_drift get_stacks_drift_query_key
    get_stacks_updates_query_options get_stacks_updates get_stacks_updates_query_key
    get_stacks_name_query_options get_stacks_name get_stacks_name_query_key
    get_stacks_name_containers_query_options get_stacks_name_containers
    get_stacks_name_containers_query_key get_stacks_name_files_query_options get_stacks_name_files
    get_stacks_name_files_query_key get_volumes_query_options get_volumes get_volumes_query_key
all_queries-IsCoherent name enabled = (
  coherent (get_auth_api_keys_query_options (some (tuning enabled))) get_auth_api_keys refl refl
      refl refl,
  (
    coherent (get_auth_passkeys_query_options (some (tuning enabled))) get_auth_passkeys refl refl
        refl refl,
    (
      coherent (get_auth_providers_query_options (some (tuning enabled))) get_auth_providers refl
          refl refl refl,
      (
        coherent (get_auth_session_query_options (some (tuning enabled))) get_auth_session refl refl
            refl refl,
        (
          coherent (get_auth_sessions_query_options (some (tuning enabled))) get_auth_sessions refl
              refl refl refl,
          (
            coherent (get_containers_query_options (some (tuning enabled))) get_containers refl refl
                refl refl,
            (
              coherent (get_containers_stats_query_options (some (tuning enabled)))
                  get_containers_stats refl refl refl refl,
              (
                coherent (get_health_query_options (some (tuning enabled))) get_health refl refl
                    refl refl,
                (
                  coherent (get_images_query_options (some (tuning enabled))) get_images refl refl
                      refl refl,
                  (
                    coherent (get_images_stale_query_options (some (tuning enabled)))
                        get_images_stale refl refl refl refl,
                    (
                      coherent (get_networks_query_options (some (tuning enabled))) get_networks
                          refl refl refl refl,
                      (
                        coherent (get_settings_query_options (some (tuning enabled))) get_settings
                            refl refl refl refl,
                        (
                          coherent (get_stacks_query_options (some (tuning enabled))) get_stacks
                              refl refl refl refl,
                          (
                            coherent (get_stacks_drift_query_options (some (tuning enabled)))
                                get_stacks_drift refl refl refl refl,
                            (
                              coherent (get_stacks_updates_query_options (some (tuning enabled)))
                                  get_stacks_updates refl refl refl refl,
                              (
                                coherent
                                    (get_stacks_name_query_options name (some (tuning enabled)))
                                    (get_stacks_name name) refl refl refl refl,
                                (
                                  coherent
                                      (get_stacks_name_containers_query_options name
                                        (some (tuning enabled)))
                                      (get_stacks_name_containers name) refl refl refl refl,
                                  (
                                    coherent
                                        (get_stacks_name_files_query_options name
                                          (some (tuning enabled)))
                                        (get_stacks_name_files name) refl refl refl refl,
                                    (
                                      coherent (get_volumes_query_options (some (tuning enabled)))
                                          get_volumes refl refl refl refl,
                                      tt,
                                    ),
                                  ),
                                ),
                              ),
                            ),
                          ),
                        ),
                      ),
                    ),
                  ),
                ),
              ),
            ),
          ),
        ),
      ),
    ),
  ),
)
