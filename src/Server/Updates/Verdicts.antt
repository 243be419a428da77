-- ===== src/Server/Updates/Verdicts.antt =====
-- The verdicts as conditions on the containers, whatever their order.
use dockstack.Prelude.{Bool, true, false, ◌||◌, Option, some, List, any, Text, if◌then◌else◌}
use dockstack.Server.Updates.{
  StaleStatus, stale_outdated, stale_up_to_date, stale_unknown, DriftStatus, drift_in_sync,
  drift_outdated, drift_unknown, Container, compared,
}

unfoldable pub is_outdated : StaleStatus → Bool
is_outdated stale_outdated = true
is_outdated _ = false

unfoldable pub is_unknown : StaleStatus → Bool
is_unknown stale_unknown = true
is_unknown _ = false

-- Outdated if one is, and else unknown if one is.
unfoldable pub verdict : List StaleStatus → StaleStatus
verdict statuses =
    if any is_outdated statuses
    then stale_outdated
    else (if any is_unknown statuses then stale_unknown else stale_up_to_date)

unfoldable pub differs : Option Bool → Bool
differs (some false) = true
differs _ = false

unfoldable pub agrees : Option Bool → Bool
agrees (some true) = true
agrees _ = false

-- Outdated if the hash of one container differs from the one wanted, else in sync if that of one was
-- compared.
unfoldable pub drift_verdict :
    (hashes : Text → Option Text) → List Container → (before : Bool) → DriftStatus
drift_verdict hashes cs before =
    if any (λ c. differs (compared hashes c)) cs
    then drift_outdated
    else (if before || any (λ c. agrees (compared hashes c)) cs
        then drift_in_sync
        else drift_unknown)
