-- ===== src/Api/Mutations/Containers.antt =====
-- web/src/lib/api/generated/default/default.ts: the mutations under /api/containers.
use dockstack.Prelude.{Option, [], ◌∷◌, Text, codes}
use dockstack.Api.Keys.{Key}
use dockstack.Api.Containers.{
  post_containers_prune, delete_containers_id, post_containers_id_restart, post_containers_id_start,
  post_containers_id_stop,
}
use dockstack.Api.Hooks.{MutationOverrides, MutationOptions, mutation_options}

unfoldable pub post_containers_prune_mutation_key : Key
post_containers_prune_mutation_key = codes "postContainersPrune" ∷ []

unfoldable pub post_containers_prune_mutation_options :
    Option (MutationOverrides Unit) → MutationOptions Unit
post_containers_prune_mutation_options options =
    mutation_options post_containers_prune_mutation_key (λ _. post_containers_prune) options

pub use_post_containers_prune {ℓ} :
    {A : Type ℓ} → (use_mutation : MutationOptions Unit → A) → Option (MutationOverrides Unit) → A
use_post_containers_prune use_mutation options =
    use_mutation (post_containers_prune_mutation_options options)

unfoldable pub delete_containers_id_mutation_key : Key
delete_containers_id_mutation_key = codes "deleteContainersId" ∷ []

unfoldable pub delete_containers_id_mutation_options :
    Option (MutationOverrides Text) → MutationOptions Text
delete_containers_id_mutation_options options =
    mutation_options delete_containers_id_mutation_key delete_containers_id options

pub use_delete_containers_id {ℓ} :
    {A : Type ℓ} → (use_mutation : MutationOptions Text → A) → Option (MutationOverrides Text) → A
use_delete_containers_id use_mutation options =
    use_mutation (delete_containers_id_mutation_options options)

unfoldable pub post_containers_id_restart_mutation_key : Key
post_containers_id_restart_mutation_key = codes "postContainersIdRestart" ∷ []

unfoldable pub post_containers_id_restart_mutation_options :
    Option (MutationOverrides Text) → MutationOptions Text
post_containers_id_restart_mutation_options options =
    mutation_options post_containers_id_restart_mutation_key post_containers_id_restart options

pub use_post_containers_id_restart {ℓ} :
    {A : Type ℓ} → (use_mutation : MutationOptions Text → A) → Option (MutationOverrides Text) → A
use_post_containers_id_restart use_mutation options =
    use_mutation (post_containers_id_restart_mutation_options options)

unfoldable pub post_containers_id_start_mutation_key : Key
post_containers_id_start_mutation_key = codes "postContainersIdStart" ∷ []

unfoldable pub post_containers_id_start_mutation_options :
    Option (MutationOverrides Text) → MutationOptions Text
post_containers_id_start_mutation_options options =
    mutation_options post_containers_id_start_mutation_key post_containers_id_start options

pub use_post_containers_id_start {ℓ} :
    {A : Type ℓ} → (use_mutation : MutationOptions Text → A) → Option (MutationOverrides Text) → A
use_post_containers_id_start use_mutation options =
    use_mutation (post_containers_id_start_mutation_options options)

unfoldable pub post_containers_id_stop_mutation_key : Key
post_containers_id_stop_mutation_key = codes "postContainersIdStop" ∷ []

unfoldable pub post_containers_id_stop_mutation_options :
    Option (MutationOverrides Text) → MutationOptions Text
post_containers_id_stop_mutation_options options =
    mutation_options post_containers_id_stop_mutation_key post_containers_id_stop options

pub use_post_containers_id_stop {ℓ} :
    {A : Type ℓ} → (use_mutation : MutationOptions Text → A) → Option (MutationOverrides Text) → A
use_post_containers_id_stop use_mutation options =
    use_mutation (post_containers_id_stop_mutation_options options)
