-- ===== src/Containers/Buttons.antt =====
-- Which buttons a container has, and which queries they refetch.
use mathlib.Core.List.{Memᴰ}
use dockstack.Prelude.{
  text_eq, ◌≡◌, ◌≢◌, ◌↔◌, ◌⊎◌, inl, inr, ap, true, false, Option, none, some, List, [], ◌∷◌, Text,
  arith, if◌then◌else◌,
}
use dockstack.Api.Keys.{Key, get_containers_query_key, get_stacks_query_key}
use dockstack.Effect.{invalidate, Refreshes, mem_cases, invalidate_injective}
use dockstack.Containers.{
  Action, start, stop, restart, remove, action_succeeded, invalidations, if_named, Pending, busy,
  Button, container_actions,
}
use dockstack.Status.{
  StackStatus, missing, running, healthy, unhealthy, starting, restarting, partial, stopped, down,
  unknown, container_running,
}

-- The actions that a click on one of the buttons requests.
abbrev pub enabled : List Button → List Action
enabled [] = []
enabled (b ∷ bs) = if b.disabled then enabled bs else b.action ∷ enabled bs

abbrev pub offered : Option (List Button) → List Action
offered none = []
offered (some bs) = enabled bs

-- Only a missing container has no buttons. While a request of it is pending no button is enabled;
-- otherwise a container that is running or healthy can be stopped, restarted and removed, and any
-- other that is not missing started and removed.
container_actions_cases :
    (s : StackStatus) (p : Pending)
    → ((container_actions s p ≡ none) ↔ (s ≡ missing))
      × (busy p ≡ true → offered (container_actions s p) ≡ [])
      × (busy p ≡ false
          → container_running s ≡ true
          → offered (container_actions s p) ≡ stop ∷ restart ∷ remove ∷ [])
      × (busy p ≡ false
          → container_running s ≡ false
          → s ≢ missing
          → offered (container_actions s p) ≡ start ∷ remove ∷ [])
unfolding container_actions container_running text_eq
container_actions_cases running p = ground arith
container_actions_cases healthy p = ground arith
container_actions_cases unhealthy p = ground arith
container_actions_cases starting p = ground arith
container_actions_cases restarting p = ground arith
container_actions_cases partial p = ground arith
container_actions_cases stopped p = ground arith
container_actions_cases down p = ground arith
container_actions_cases unknown p = ground arith
container_actions_cases missing p = ground arith

-- An action for which no stack is named refetches the lists of containers and of stacks, and nothing
-- else: neither the status of a stack nor its containers.
action_succeeded_unnamed :
    (action : Action) (name : Text) (k : Key)
    → Refreshes (action_succeeded action name none) k
      ↔ ((k ≡ get_containers_query_key) ⊎ (k ≡ get_stacks_query_key))
unfolding action_succeeded invalidations if_named
action_succeeded_unnamed action name k = (
  (λ m. elim (mem_cases m) [
    | inl e ↦ cc
    | inr m1 ↦ elim (mem_cases m1) [
      | inl e ↦ inl (invalidate_injective k get_containers_query_key e)
      | inr m2 ↦ elim (mem_cases m2) [
        | inl e ↦ inr (invalidate_injective k get_stacks_query_key e)
        | inr m3 ↦ elim (mem_cases m3) [
          | inl e ↦ inr (invalidate_injective k get_stacks_query_key e)
          | inr z ↦ elim z [ ]
        ]
      ]
    ]
  ]),
  (λ c. elim c [
    | inl e ↦ Memᴰ.tail (Memᴰ.head (ap invalidate e))
    | inr e ↦ Memᴰ.tail (Memᴰ.tail (Memᴰ.head (ap invalidate e)))
  ]),
)
