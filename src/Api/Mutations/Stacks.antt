-- ===== src/Api/Mutations/Stacks.antt =====
-- web/src/lib/api/generated/default/default.ts: the mutations under /api/stacks.
use dockstack.Prelude.{Option, [], ◌∷◌, Text, codes}
use dockstack.Api.Keys.{Key}
use dockstack.Api.Stacks.{
  post_stacks, post_stacks_redeploy, delete_stacks_name, post_stack_action_down,
  post_stacks_name_env, put_stacks_name_files, post_stack_action_pull, post_stack_action_redeploy,
  post_stacks_name_rename, post_stack_action_restart, post_stack_action_stop, post_stack_action_up,
  post_stack_action_update,
}
use dockstack.Api.Hooks.{MutationOverrides, MutationOptions, mutation_options}

unfoldable pub post_stacks_mutation_key : Key
post_stacks_mutation_key = codes "postStacks" ∷ []

unfoldable pub post_stacks_mutation_options : Option (MutationOverrides Text) → MutationOptions Text
post_stacks_mutation_options options = mutation_options post_stacks_mutation_key post_stacks options

pub use_post_stacks {ℓ} :
    {A : Type ℓ} → (use_mutation : MutationOptions Text → A) → Option (MutationOverrides Text) → A
use_post_stacks use_mutation options = use_mutation (post_stacks_mutation_options options)

unfoldable pub post_stacks_redeploy_mutation_key : Key
post_stacks_redeploy_mutation_key = codes "postStacksRedeploy" ∷ []

unfoldable pub post_stacks_redeploy_mutation_options :
    Option (MutationOverrides Unit) → MutationOptions Unit
post_stacks_redeploy_mutation_options options =
    mutation_options post_stacks_redeploy_mutation_key (λ _. post_stacks_redeploy) options

pub use_post_stacks_redeploy {ℓ} :
    {A : Type ℓ} → (use_mutation : MutationOptions Unit → A) → Option (MutationOverrides Unit) → A
use_post_stacks_redeploy use_mutation options =
    use_mutation (post_stacks_redeploy_mutation_options options)

unfoldable pub delete_stacks_name_mutation_key : Key
delete_stacks_name_mutation_key = codes "deleteStacksName" ∷ []

unfoldable pub delete_stacks_name_mutation_options :
    Option (MutationOverrides Text) → MutationOptions Text
delete_stacks_name_mutation_options options =
    mutation_options delete_stacks_name_mutation_key delete_stacks_name options

pub use_delete_stacks_name {ℓ} :
    {A : Type ℓ} → (use_mutation : MutationOptions Text → A) → Option (MutationOverrides Text) → A
use_delete_stacks_name use_mutation options =
    use_mutation (delete_stacks_name_mutation_options options)

unfoldable pub post_stack_action_down_mutation_key : Key
post_stack_action_down_mutation_key = codes "postStackActionDown" ∷ []

unfoldable pub post_stack_action_down_mutation_options :
    Option (MutationOverrides Text) → MutationOptions Text
post_stack_action_down_mutation_options options =
    mutation_options post_stack_action_down_mutation_key post_stack_action_down options

pub use_post_stack_action_down {ℓ} :
    {A : Type ℓ} → (use_mutation : MutationOptions Text → A) → Option (MutationOverrides Text) → A
use_post_stack_action_down use_mutation options =
    use_mutation (post_stack_action_down_mutation_options options)

unfoldable pub post_stacks_name_env_mutation_key : Key
post_stacks_name_env_mutation_key = codes "postStacksNameEnv" ∷ []

unfoldable pub post_stacks_name_env_mutation_options :
    Option (MutationOverrides Text) → MutationOptions Text
post_stacks_name_env_mutation_options options =
    mutation_options post_stacks_name_env_mutation_key post_stacks_name_env options

pub use_post_stacks_name_env {ℓ} :
    {A : Type ℓ} → (use_mutation : MutationOptions Text → A) → Option (MutationOverrides Text) → A
use_post_stacks_name_env use_mutation options =
    use_mutation (post_stacks_name_env_mutation_options options)

unfoldable pub put_stacks_name_files_mutation_key : Key
put_stacks_name_files_mutation_key = codes "putStacksNameFiles" ∷ []

unfoldable pub put_stacks_name_files_mutation_options :
    Option (MutationOverrides (Text × Text)) → MutationOptions (Text × Text)
put_stacks_name_files_mutation_options options =
    mutation_options put_stacks_name_files_mutation_key (λ v. put_stacks_name_files v.0 v.1) options

pub use_put_stacks_name_files {ℓ} :
    {A : Type ℓ}
    → (use_mutation : MutationOptions (Text × Text) → A) → Option (MutationOverrides (Text × Text))
    → A
use_put_stacks_name_files use_mutation options =
    use_mutation (put_stacks_name_files_mutation_options options)

unfoldable pub post_stack_action_pull_mutation_key : Key
post_stack_action_pull_mutation_key = codes "postStackActionPull" ∷ []

unfoldable pub post_stack_action_pull_mutation_options :
    Option (MutationOverrides Text) → MutationOptions Text
post_stack_action_pull_mutation_options options =
    mutation_options post_stack_action_pull_mutation_key post_stack_action_pull options

pub use_post_stack_action_pull {ℓ} :
    {A : Type ℓ} → (use_mutation : MutationOptions Text → A) → Option (MutationOverrides Text) → A
use_post_stack_action_pull use_mutation options =
    use_mutation (post_stack_action_pull_mutation_options options)

unfoldable pub post_stack_action_redeploy_mutation_key : Key
post_stack_action_redeploy_mutation_key = codes "postStackActionRedeploy" ∷ []

unfoldable pub post_stack_action_redeploy_mutation_options :
    Option (MutationOverrides Text) → MutationOptions Text
post_stack_action_redeploy_mutation_options options =
    mutation_options post_stack_action_redeploy_mutation_key post_stack_action_redeploy options

pub use_post_stack_action_redeploy {ℓ} :
    {A : Type ℓ} → (use_mutation : MutationOptions Text → A) → Option (MutationOverrides Text) → A
use_post_stack_action_redeploy use_mutation options =
    use_mutation (post_stack_action_redeploy_mutation_options options)

unfoldable pub post_stacks_name_rename_mutation_key : Key
post_stacks_name_rename_mutation_key = codes "postStacksNameRename" ∷ []

unfoldable pub post_stacks_name_rename_mutation_options :
    Option (MutationOverrides (Text × Text)) → MutationOptions (Text × Text)
post_stacks_name_rename_mutation_options options =
    mutation_options post_stacks_name_rename_mutation_key (λ v. post_stacks_name_rename v.0 v.1)
      options

pub use_post_stacks_name_rename {ℓ} :
    {A : Type ℓ}
    → (use_mutation : MutationOptions (Text × Text) → A) → Option (MutationOverrides (Text × Text))
    → A
use_post_stacks_name_rename use_mutation options =
    use_mutation (post_stacks_name_rename_mutation_options options)

unfoldable pub post_stack_action_restart_mutation_key : Key
post_stack_action_restart_mutation_key = codes "postStackActionRestart" ∷ []

unfoldable pub post_stack_action_restart_mutation_options :
    Option (MutationOverrides Text) → MutationOptions Text
post_stack_action_restart_mutation_options options =
    mutation_options post_stack_action_restart_mutation_key post_stack_action_restart options

pub use_post_stack_action_restart {ℓ} :
    {A : Type ℓ} → (use_mutation : MutationOptions Text → A) → Option (MutationOverrides Text) → A
use_post_stack_action_restart use_mutation options =
    use_mutation (post_stack_action_restart_mutation_options options)

unfoldable pub post_stack_action_stop_mutation_key : Key
post_stack_action_stop_mutation_key = codes "postStackActionStop" ∷ []

unfoldable pub post_stack_action_stop_mutation_options :
    Option (MutationOverrides Text) → MutationOptions Text
post_stack_action_stop_mutation_options options =
    mutation_options post_stack_action_stop_mutation_key post_stack_action_stop options

pub use_post_stack_action_stop {ℓ} :
    {A : Type ℓ} → (use_mutation : MutationOptions Text → A) → Option (MutationOverrides Text) → A
use_post_stack_action_stop use_mutation options =
    use_mutation (post_stack_action_stop_mutation_options options)

unfoldable pub post_stack_action_up_mutation_key : Key
post_stack_action_up_mutation_key = codes "postStackActionUp" ∷ []

unfoldable pub post_stack_action_up_mutation_options :
    Option (MutationOverrides Text) → MutationOptions Text
post_stack_action_up_mutation_options options =
    mutation_options post_stack_action_up_mutation_key post_stack_action_up options

pub use_post_stack_action_up {ℓ} :
    {A : Type ℓ} → (use_mutation : MutationOptions Text → A) → Option (MutationOverrides Text) → A
use_post_stack_action_up use_mutation options =
    use_mutation (post_stack_action_up_mutation_options options)

unfoldable pub post_stack_action_update_mutation_key : Key
post_stack_action_update_mutation_key = codes "postStackActionUpdate" ∷ []

unfoldable pub post_stack_action_update_mutation_options :
    Option (MutationOverrides Text) → MutationOptions Text
post_stack_action_update_mutation_options options =
    mutation_options post_stack_action_update_mutation_key post_stack_action_update options

pub use_post_stack_action_update {ℓ} :
    {A : Type ℓ} → (use_mutation : MutationOptions Text → A) → Option (MutationOverrides Text) → A
use_post_stack_action_update use_mutation options =
    use_mutation (post_stack_action_update_mutation_options options)
