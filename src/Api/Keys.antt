-- ===== src/Api/Keys.antt =====
-- web/src/lib/api/generated/default/default.ts: the keys of the query cache. A key is an array; each
-- of these has one element, the address of the query.
pub mod Clashes
use dockstack.Prelude.{List, [], ◌∷◌, ◌++◌, Text, codes}

abbrev pub Key : Type 0
Key = List Text

unfoldable pub get_auth_api_keys_query_key : Key
get_auth_api_keys_query_key = (codes "/api/auth/api-keys") ∷ []

unfoldable pub get_auth_passkeys_query_key : Key
get_auth_passkeys_query_key = (codes "/api/auth/passkeys") ∷ []

unfoldable pub get_auth_providers_query_key : Key
get_auth_providers_query_key = (codes "/api/auth/providers") ∷ []

unfoldable pub get_auth_session_query_key : Key
get_auth_session_query_key = (codes "/api/auth/session") ∷ []

unfoldable pub get_auth_sessions_query_key : Key
get_auth_sessions_query_key = (codes "/api/auth/sessions") ∷ []

unfoldable pub get_containers_query_key : Key
get_containers_query_key = (codes "/api/containers") ∷ []

unfoldable pub get_containers_stats_query_key : Key
get_containers_stats_query_key = (codes "/api/containers/stats") ∷ []

unfoldable pub get_health_query_key : Key
get_health_query_key = (codes "/api/health") ∷ []

unfoldable pub get_images_query_key : Key
get_images_query_key = (codes "/api/images") ∷ []

unfoldable pub get_images_stale_query_key : Key
get_images_stale_query_key = (codes "/api/images/stale") ∷ []

unfoldable pub get_networks_query_key : Key
get_networks_query_key = (codes "/api/networks") ∷ []

unfoldable pub get_settings_query_key : Key
get_settings_query_key = (codes "/api/settings") ∷ []

unfoldable pub get_stacks_query_key : Key
get_stacks_query_key = (codes "/api/stacks") ∷ []

unfoldable pub get_stacks_drift_query_key : Key
get_stacks_drift_query_key = (codes "/api/stacks/drift") ∷ []

unfoldable pub get_stacks_updates_query_key : Key
get_stacks_updates_query_key = (codes "/api/stacks/updates") ∷ []

unfoldable pub get_stacks_name_query_key : Text → Key
get_stacks_name_query_key name = (codes "/api/stacks/" ++ name) ∷ []

unfoldable pub get_stacks_name_containers_query_key : Text → Key
get_stacks_name_containers_query_key name =
    (codes "/api/stacks/" ++ (name ++ codes "/containers")) ∷ []

unfoldable pub get_stacks_name_files_query_key : Text → Key
get_stacks_name_files_query_key name = (codes "/api/stacks/" ++ (name ++ codes "/files")) ∷ []

unfoldable pub get_volumes_query_key : Key
get_volumes_query_key = (codes "/api/volumes") ∷ []
