-- ===== src/Server/StackStatus.antt =====
-- internal/docker: the status of a container (containers.go) and of a stack (stacks.go), from what Docker
-- lists.
pub mod Counting
pub mod Live
pub mod Summary
use dockstack.Prelude.{
  ℕ, ◌+◌, Bool, true, false, not, ◌&&◌, ◌||◌, List, [], ◌∷◌, any, keep, length, codes, contains,
  includes, text_eq, Text, ltb, ◌==◌, if◌then◌else◌,
}
use dockstack.Status.{
  StackStatus, running, healthy, unhealthy, starting, restarting, partial, stopped, down, unknown,
}

-- `container.Summary`, the two fields that count
pub record Container : Type 0 where
  pub state : Text
  pub status : Text

-- the status of a running container
unfoldable pub running_status : (status : Text) → StackStatus
running_status status =
    if contains (codes "(healthy)") status
    then healthy
    else (if contains (codes "(unhealthy)") status
        then unhealthy
        else (if contains (codes "(health: starting)") status then starting else running))

-- `containerStateToStatus`
unfoldable pub container_state_to_status : (state status : Text) → StackStatus
container_state_to_status state status =
    if text_eq state (codes "running")
    then running_status status
    else (if text_eq state (codes "restarting")
        then restarting
        else (if includes state (codes "exited" ∷ codes "paused" ∷ [])
            then stopped
            else (if includes state (codes "dead" ∷ codes "created" ∷ codes "removing" ∷ [])
                then down
                else unknown)))

unfoldable pub container_status : Container → StackStatus
container_status c = container_state_to_status c.state c.status

unfoldable pub is_restarting : StackStatus → Bool
is_restarting restarting = true
is_restarting _ = false

unfoldable pub is_up : StackStatus → Bool
is_up running = true
is_up healthy = true
is_up unhealthy = true
is_up starting = true
is_up _ = false

-- the two lists that `GetStackStatus` makes
unfoldable pub up_containers : List Container → List Container
up_containers cs = keep (λ c. is_up (container_status c)) cs

unfoldable pub restarting_containers : List Container → List Container
restarting_containers cs = keep (λ c. is_restarting (container_status c)) cs

-- the status when all containers are up
unfoldable pub all_up_status : List Container → StackStatus
all_up_status cs =
    if any (λ (c : Container). contains (codes "(unhealthy)") c.status) cs
    then unhealthy
    else (if any (λ (c : Container). contains (codes "(health: starting)") c.status) cs
        then starting
        else (if any (λ (c : Container). not (contains (codes "(healthy)") c.status)) cs
            then running
            else healthy))

-- the status of `total` containers, where there are any
unfoldable pub status_of : (total : ℕ) (up restart : List Container) → StackStatus
status_of total up restart =
    if (length up == 0) && (length restart == 0)
    then stopped
    else (if length up == 0
        then restarting
        else (if ltb (length up + length restart) total || ltb 0 (length restart)
            then partial
            else all_up_status up))

-- `GetStackStatus`, once Docker has listed the containers of the stack
unfoldable pub get_stack_status : List Container → StackStatus
get_stack_status [] = down
get_stack_status (c ∷ cs) =
    status_of (length (c ∷ cs)) (up_containers (c ∷ cs)) (restarting_containers (c ∷ cs))
