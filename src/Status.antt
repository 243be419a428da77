-- ===== src/Status.antt =====
-- The status of a stack or of a container, and what each part of the client takes it for
-- (src/lib/docker/constants.ts, web/src/components/status-badge.tsx and the pages).
pub mod Badges
pub mod Classes
use dockstack.Prelude.{
  Bool, true, false, not, ◌||◌, Option, none, some, List, [], ◌∷◌, includes, text_eq, Text, codes,
  if◌then◌else◌,
}

-- `STACK_STATUSES`
pub data StackStatus : Type 0 where
  running healthy unhealthy starting restarting partial stopped down unknown missing : StackStatus

abbrev pub status_text : StackStatus → Text
status_text running = codes "running"
status_text healthy = codes "healthy"
status_text unhealthy = codes "unhealthy"
status_text starting = codes "starting"
status_text restarting = codes "restarting"
status_text partial = codes "partial"
status_text stopped = codes "stopped"
status_text down = codes "down"
status_text unknown = codes "unknown"
status_text missing = codes "missing"

-- `status === name`
abbrev is : Text → StackStatus → Bool
is name status = text_eq (status_text status) name

-- `isRunning` of the page of a stack
running_data : Option StackStatus → Bool
running_data none = false
running_data (some status) = not (
    includes (status_text status)
      (codes "stopped" ∷ codes "down" ∷ codes "missing" ∷ codes "unknown" ∷ []))

unfoldable pub is_running : Option StackStatus → Bool
unfolding running_data
is_running status = running_data status

-- the `filterFn` of the status column of the home page
unfoldable pub status_filter : Text → StackStatus → Bool
status_filter filter_value status =
    if text_eq filter_value (codes "running")
    then is (codes "running") status || is (codes "healthy") status
    else is filter_value status

-- the values of the filter, but for "all", which removes the filter
abbrev pub filter_values : List Text
filter_values = codes "running" ∷ codes "down" ∷ codes "stopped" ∷ []

-- `running` of the buttons of a container
unfoldable pub container_running : StackStatus → Bool
container_running status = is (codes "running") status || is (codes "healthy") status

-- the containers that the terminal offers
unfoldable pub terminal_running : StackStatus → Bool
terminal_running status =
    is (codes "running") status
    || (is (codes "healthy") status
        || (is (codes "unhealthy") status || is (codes "starting") status))

-- `StatusBadge`, for every status that the client shows
pub data Badge : Type 0 where
  stack : StackStatus → Badge
  outdated up_to_date in_use unused system : Badge

pub data Variant : Type 0 where
  default secondary destructive outline warning : Variant

pub record StatusVariant : Type 0 where
  pub variant : Variant
  pub class_name : Option Text
  pub label : Text

-- `statusMap`
unfoldable pub status_map : Badge → StatusVariant
status_map (stack running) = record {
  variant = default;
  class_name = some (codes "bg-green-600 text-white dark:bg-green-700");
  label = codes "Running";
}
status_map (stack healthy) = record {
  variant = default;
  class_name = some (codes "bg-green-600 text-white dark:bg-green-700");
  label = codes "Healthy";
}
status_map (stack unhealthy) = record {
  variant = destructive;
  class_name = none;
  label = codes "Unhealthy";
}
status_map (stack starting) = record {
  variant = secondary;
  class_name =
      some (codes "bg-yellow-100 text-yellow-800 dark:bg-yellow-900/40 dark:text-yellow-400");
  label = codes "Starting";
}
status_map (stack partial) = record {
  variant = secondary;
  class_name =
      some (codes "bg-yellow-100 text-yellow-800 dark:bg-yellow-900/40 dark:text-yellow-400");
  label = codes "Partial";
}
status_map (stack restarting) = record {
  variant = secondary;
  class_name =
      some (codes "bg-orange-100 text-orange-800 dark:bg-orange-900/40 dark:text-orange-400");
  label = codes "Restarting";
}
status_map (stack stopped) = record {
  variant = destructive;
  class_name = none;
  label = codes "Stopped";
}
status_map (stack down) = record { variant = destructive; class_name = none; label = codes "Down" }
status_map (stack unknown) = record {
  variant = outline;
  class_name = some (codes "text-muted-foreground");
  label = codes "Unknown";
}
status_map (stack missing) = record {
  variant = outline;
  class_name = some (codes "text-muted-foreground border-dashed");
  label = codes "Missing";
}
status_map outdated = record { variant = warning; class_name = none; label = codes "Outdated" }
status_map up_to_date = record {
  variant = outline;
  class_name = some (codes "border-green-500 text-green-600 dark:text-green-400");
  label = codes "Up to date";
}
status_map in_use = record {
  variant = default;
  class_name = some (codes "bg-green-600 text-white dark:bg-green-700");
  label = codes "In use";
}
status_map unused = record {
  variant = outline;
  class_name = some (codes "text-muted-foreground");
  label = codes "Unused";
}
status_map system = record {
  variant = outline;
  class_name = some (codes "text-muted-foreground");
  label = codes "System";
}

-- `StatusBadge`: a status with no entry is shown by its own name
unfoldable pub status_badge : Option Badge → Text → StatusVariant
unfolding status_map
status_badge (some badge) name = status_map badge
status_badge none name = record {
  variant = outline;
  class_name = some (codes "text-muted-foreground");
  label = name;
}
