-- ===== src/Api/Mutations/Resources.antt =====
-- web/src/lib/api/generated/default/default.ts: the mutations for images, networks and volumes.
use dockstack.Prelude.{Option, [], ◌∷◌, Text, codes}
use dockstack.Api.Keys.{Key}
use dockstack.Api.Resources.{
  post_images_prune, delete_images_id, post_networks_prune, delete_networks_name,
  post_volumes_prune, delete_volumes_name,
}
use dockstack.Api.Hooks.{MutationOverrides, MutationOptions, mutation_options}

unfoldable pub post_images_prune_mutation_key : Key
post_images_prune_mutation_key = codes "postImagesPrune" ∷ []

unfoldable pub post_images_prune_mutation_options :
    Option (MutationOverrides Unit) → MutationOptions Unit
post_images_prune_mutation_options options =
    mutation_options post_images_prune_mutation_key (λ _. post_images_prune) options

pub use_post_images_prune {ℓ} :
    {A : Type ℓ} → (use_mutation : MutationOptions Unit → A) → Option (MutationOverrides Unit) → A
use_post_images_prune use_mutation options =
    use_mutation (post_images_prune_mutation_options options)

unfoldable pub delete_images_id_mutation_key : Key
delete_images_id_mutation_key = codes "deleteImagesId" ∷ []

unfoldable pub delete_images_id_mutation_options :
    Option (MutationOverrides Text) → MutationOptions Text
delete_images_id_mutation_options options =
    mutation_options delete_images_id_mutation_key delete_images_id options

pub use_delete_images_id {ℓ} :
    {A : Type ℓ} → (use_mutation : MutationOptions Text → A) → Option (MutationOverrides Text) → A
use_delete_images_id use_mutation options = use_mutation (delete_images_id_mutation_options options)

unfoldable pub post_networks_prune_mutation_key : Key
post_networks_prune_mutation_key = codes "postNetworksPrune" ∷ []

unfoldable pub post_networks_prune_mutation_options :
    Option (MutationOverrides Unit) → MutationOptions Unit
post_networks_prune_mutation_options options =
    mutation_options post_networks_prune_mutation_key (λ _. post_networks_prune) options

pub use_post_networks_prune {ℓ} :
    {A : Type ℓ} → (use_mutation : MutationOptions Unit → A) → Option (MutationOverrides Unit) → A
use_post_networks_prune use_mutation options =
    use_mutation (post_networks_prune_mutation_options options)

unfoldable pub delete_networks_name_mutation_key : Key
delete_networks_name_mutation_key = codes "deleteNetworksName" ∷ []

unfoldable pub delete_networks_name_mutation_options :
    Option (MutationOverrides Text) → MutationOptions Text
delete_networks_name_mutation_options options =
    mutation_options delete_networks_name_mutation_key delete_networks_name options

pub use_delete_networks_name {ℓ} :
    {A : Type ℓ} → (use_mutation : MutationOptions Text → A) → Option (MutationOverrides Text) → A
use_delete_networks_name use_mutation options =
    use_mutation (delete_networks_name_mutation_options options)

unfoldable pub post_volumes_prune_mutation_key : Key
post_volumes_prune_mutation_key = codes "postVolumesPrune" ∷ []

unfoldable pub post_volumes_prune_mutation_options :
    Option (MutationOverrides Unit) → MutationOptions Unit
post_volumes_prune_mutation_options options =
    mutation_options post_volumes_prune_mutation_key (λ _. post_volumes_prune) options

pub use_post_volumes_prune {ℓ} :
    {A : Type ℓ} → (use_mutation : MutationOptions Unit → A) → Option (MutationOverrides Unit) → A
use_post_volumes_prune use_mutation options =
    use_mutation (post_volumes_prune_mutation_options options)

unfoldable pub delete_volumes_name_mutation_key : Key
delete_volumes_name_mutation_key = codes "deleteVolumesName" ∷ []

unfoldable pub delete_volumes_name_mutation_options :
    Option (MutationOverrides Text) → MutationOptions Text
delete_volumes_name_mutation_options options =
    mutation_options delete_volumes_name_mutation_key delete_volumes_name options

pub use_delete_volumes_name {ℓ} :
    {A : Type ℓ} → (use_mutation : MutationOptions Text → A) → Option (MutationOverrides Text) → A
use_delete_volumes_name use_mutation options =
    use_mutation (delete_volumes_name_mutation_options options)
