-- ===== src/Server/Updates.antt =====
-- internal/docker/stacks.go, system.go and drift.go: whether a stack's images and configuration are up to date,
-- from what Docker and the registry answer.
pub mod Verdicts
use dockstack.Prelude.{
  ℕ, Bool, true, false, not, ◌&&◌, ◌||◌, Option, none, some, List, [], ◌∷◌, any, length, take, drop,
  codes, contains, starts_with, text_eq, Text, ltb, leb, ◌==◌, if◌then◌else◌,
}

-- `StaleStatus`
pub data StaleStatus : Type 0 where
  stale_outdated stale_up_to_date stale_unknown : StaleStatus

-- `DriftStatus`
pub data DriftStatus : Type 0 where
  drift_in_sync drift_outdated drift_unknown : DriftStatus

-- `container.Summary`: its image, and its labels, empty where there is none
pub record Container : Type 0 where
  pub image : Text
  pub image_id : Text
  pub service : Text
  pub one_off : Text
  pub config_hash : Text

-- `ImageInfo`, the two fields that count
pub record ImageInfo : Type 0 where
  pub tags : List Text
  pub repo_digests : List Text

is_hex : ℕ → Bool
is_hex c = (leb b'0' c && leb c b'9') || (leb b'a' c && leb c b'f')

-- `isImageID`
unfoldable pub is_image_id : Text → Bool
unfolding is_hex
is_image_id value =
    starts_with (codes "sha256:") value
    || ((length value == 12) && not (any (λ c. not (is_hex c)) value))

-- `validImageTag`
unfoldable pub valid_image_tag : Text → Bool
valid_image_tag tag =
    not (text_eq tag [])
    && (not (text_eq tag (codes "<none>:<none>"))
        && (not (is_image_id tag) && not (contains (codes "@sha256:") tag)))

unfoldable pub first_valid : List Text → Text
first_valid [] = []
first_valid (tag ∷ tags) = if valid_image_tag tag then tag else first_valid tags

-- `containerImageTag`
unfoldable pub container_image_tag : Container → (compose_tag : Text) → ImageInfo → Text
container_image_tag c compose_tag img =
    if valid_image_tag c.image
    then c.image
    else (if valid_image_tag compose_tag && not (contains (codes "$") compose_tag)
        then compose_tag
        else first_valid img.tags)

-- `staleFromDigest`, with the digest of the registry, if it gave one
unfoldable pub digest_in : List Text → (digest : Text) → Bool
digest_in repo_digests digest = any (λ d. contains digest d) repo_digests

unfoldable pub stale_from_digest : List Text → Option Text → StaleStatus
stale_from_digest repo_digests none = stale_unknown
stale_from_digest repo_digests (some digest) =
    if text_eq digest [] || (length repo_digests == 0)
    then stale_unknown
    else (if digest_in repo_digests digest then stale_up_to_date else stale_outdated)

-- `formatImageTag`
unfoldable pub format_image_tag : Text → Text
format_image_tag tag = if starts_with (codes "sha256:") tag then take 12 (drop 7 tag) else tag

unfoldable pub stale_of_tag :
    (remote_digest : Text → Option Text) → List Text → (tag : Text) → StaleStatus
stale_of_tag remote_digest repo_digests tag =
    if text_eq tag [] then stale_unknown else stale_from_digest repo_digests (remote_digest tag)

unfoldable pub stale_of_image :
    (remote_digest : Text → Option Text)
    → Container
    → (compose_tag : Text) → Option ImageInfo
    → StaleStatus
stale_of_image remote_digest c compose_tag none = stale_unknown
stale_of_image remote_digest c compose_tag (some img) =
    stale_of_tag remote_digest img.repo_digests (container_image_tag c compose_tag img)

-- `containerStale`, with the answers of the registry and the images by their short ids
unfoldable container_stale :
    (remote_digest : Text → Option Text) (images : Text → Option ImageInfo)
    → Container
    → (compose_tag : Text) → StaleStatus
container_stale remote_digest images c compose_tag =
    stale_of_image remote_digest c compose_tag (images (format_image_tag c.image_id))

-- the loop of `aggregateStale`
unfoldable pub aggregate_from : (out : StaleStatus) → List StaleStatus → StaleStatus
aggregate_from out [] = out
aggregate_from out (stale_outdated ∷ statuses) = stale_outdated
aggregate_from out (stale_unknown ∷ statuses) = aggregate_from stale_unknown statuses
aggregate_from out (stale_up_to_date ∷ statuses) = aggregate_from out statuses

-- `aggregateStale`
unfoldable pub aggregate_stale : List StaleStatus → StaleStatus
aggregate_stale statuses = aggregate_from stale_up_to_date statuses

-- what one container adds to the comparison: nothing, or whether its hash is the one wanted
unfoldable pub compared_hash : Container → Option Text → Option Bool
compared_hash c none = none
compared_hash c (some want) =
    if text_eq c.one_off (codes "True") || text_eq c.config_hash []
    then none
    else some (text_eq c.config_hash want)

unfoldable pub compared : (hashes : Text → Option Text) → Container → Option Bool
compared hashes c = compared_hash c (hashes c.service)

-- the loop of `driftFromContainers`
unfoldable pub drift_step :
    Option Bool → (any_compared : Bool) (rest : Bool → DriftStatus) → DriftStatus
drift_step none any_compared rest = rest any_compared
drift_step (some true) any_compared rest = rest true
drift_step (some false) any_compared rest = drift_outdated

unfoldable pub drift_from :
    (hashes : Text → Option Text) → List Container → (any_compared : Bool) → DriftStatus
drift_from hashes [] any_compared = if any_compared then drift_in_sync else drift_unknown
drift_from hashes (c ∷ cs) any_compared =
    drift_step (compared hashes c) any_compared (λ b. drift_from hashes cs b)

-- `driftFromContainers`
unfoldable pub drift_from_containers : List Container → (hashes : Text → Option Text) → DriftStatus
drift_from_containers cs hashes = drift_from hashes cs false
