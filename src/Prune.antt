-- ===== src/Prune.antt =====
-- The buttons that remove or prune networks, images and volumes, and that prune containers: network-actions.tsx,
-- prune-networks-button.tsx and the like under web/src/components.
pub mod Refresh
pub mod Dialog
use dockstack.Prelude.{
  ℕ, ◌==◌, Bool, true, false, not, ◌||◌, Option, none, some, List, [], ◌∷◌, ◌++◌, length, text_eq,
  Text, codes, decimal, if◌then◌else◌,
}
use dockstack.Api.{Call}
use dockstack.Api.Containers.{post_containers_prune}
use dockstack.Api.Resources.{
  post_images_prune, post_networks_prune, post_volumes_prune, delete_images_id,
  delete_networks_name, delete_volumes_name,
}
use dockstack.Api.Keys.{
  Key, get_containers_query_key, get_images_query_key, get_networks_query_key,
  get_volumes_query_key,
}
use dockstack.Effect.{Effect, toast_success, toast_error, invalidate, mutate}

pub data Kind : Type 0 where
  containers images networks volumes : Kind

abbrev pub list_key : Kind → Key
list_key containers = get_containers_query_key
list_key images = get_images_query_key
list_key networks = get_networks_query_key
list_key volumes = get_volumes_query_key

noun : Kind → Text
noun containers = codes "container"
noun images = codes "image"
noun networks = codes "network"
noun volumes = codes "volume"

-- `count !== 1 ? "s" : ""`
plural : ℕ → Text
plural count = if count == 1 then [] else codes "s"

-- the answer to a prune request; `to_fixed` is `(n / 1e6).toFixed(1)`
pub record PruneResult : Type 0 where
  pub deleted : Option (List Text)
  pub space_reclaimed : ℕ

count_of : Option (List Text) → ℕ
count_of none = 0
count_of (some deleted) = length deleted

freed : (ℕ → Text) → Kind → ℕ → Text
freed to_fixed networks bytes = []
freed to_fixed containers bytes = codes ", freed " ++ (to_fixed bytes ++ codes " MB")
freed to_fixed images bytes = codes ", freed " ++ (to_fixed bytes ++ codes " MB")
freed to_fixed volumes bytes = codes ", freed " ++ (to_fixed bytes ++ codes " MB")

unfoldable pub prune_message : (to_fixed : ℕ → Text) → Kind → PruneResult → Text
unfolding noun plural count_of freed
prune_message to_fixed kind result =
    let count = count_of result.deleted in
    codes "Pruned "
    ++ (decimal count
        ++ (codes " "
            ++ (noun kind ++ (plural count ++ freed to_fixed kind result.space_reclaimed))))

-- the `onSuccess` and the `onError` of a prune mutation
unfoldable pub prune_succeeded : (to_fixed : ℕ → Text) → Kind → PruneResult → List Effect
prune_succeeded to_fixed kind result =
    toast_success (prune_message to_fixed kind result) ∷ invalidate (list_key kind) ∷ []

unfoldable pub request_failed : (message : Text) → List Effect
request_failed message = toast_error message ∷ []

prune_call : Kind → Call
prune_call containers = post_containers_prune
prune_call images = post_images_prune
prune_call networks = post_networks_prune
prune_call volumes = post_volumes_prune

-- the button Prune of the dialog: the dialog is closed, and the request is sent
unfoldable pub click_prune : Kind → Bool × List Effect
unfolding prune_call
click_prune kind = (false, mutate (prune_call kind) ∷ [])

-- what `ImageActions`, `NetworkActions` and `VolumeActions` remove; an image by its identifier and the
-- others by name. The label of an image is its first tag, if it has one.
pub data Removable : Type 0 where
  image : (id : Text) → (tags : Option (List Text)) → Removable
  network : (name status : Text) → Removable
  volume : (name : Text) → Removable

abbrev pub kind_of : Removable → Kind
kind_of (image id tags) = images
kind_of (network name status) = networks
kind_of (volume name) = volumes

label_of : Removable → Text
label_of (image id none) = id
label_of (image id (some [])) = id
label_of (image id (some (tag ∷ tags))) = tag
label_of (network name status) = name
label_of (volume name) = name

unfoldable pub remove_call : Removable → Call
remove_call (image id tags) = delete_images_id id
remove_call (network name status) = delete_networks_name name
remove_call (volume name) = delete_volumes_name name

unfoldable pub remove_succeeded : Removable → List Effect
unfolding label_of
remove_succeeded r =
    toast_success (label_of r ++ codes " removed") ∷ invalidate (list_key (kind_of r)) ∷ []

-- `removable` of `NetworkActions`; images and volumes are always offered
removable : Removable → Bool
removable (network name status) = text_eq status (codes "unused")
removable (image id tags) = true
removable (volume name) = true

-- the `disabled` of the button, given `removeM.isPending`
unfoldable pub remove_disabled : Removable → (pending : Bool) → Bool
unfolding removable
remove_disabled r pending = not (removable r) || pending

-- the `title` about a network that cannot be removed
unfoldable pub network_title : (status : Text) → Option Text
network_title status =
    if text_eq status (codes "unused")
    then none
    else if text_eq status (codes "system")
    then some (codes "Default Docker networks cannot be removed")
    else some (codes "Network is in use by one or more containers")
