-- ===== src/Server/StackStatus/Live.antt =====
-- When the page of a stack takes it for running.
use dockstack.Prelude.{
  ◌≡◌, refl, ap, ◌∙◌, Bool, true, false, not, ◌||◌, some, List, [], ◌∷◌, any, includes, text_eq,
  if◌then◌else◌,
}
use dockstack.Status.{
  StackStatus, running, healthy, unhealthy, starting, restarting, partial, stopped, is_running,
}
use dockstack.Server.StackStatus.Counting.{both_empty, some_left}
use dockstack.Server.StackStatus.{
  Container, container_status, is_restarting, is_up, up_containers, restarting_containers,
  all_up_status, status_of, get_stack_status,
}

-- A container that is up or on its way up.
unfoldable pub is_live : Container → Bool
is_live c = is_up (container_status c) || is_restarting (container_status c)

up_bits :
    (ill begins plain : Bool)
    → is_running (
        some (
          if ill
          then unhealthy
          else (if begins then starting else (if plain then running else healthy))))
      ≡ true
unfolding is_running includes text_eq
up_bits true begins plain = refl
up_bits false true plain = refl
up_bits false false true = refl
up_bits false false false = refl

live_bits :
    (none_live none_up some_left : Bool) (rest : StackStatus)
    → is_running (some rest) ≡ true
    → is_running (
        some (
          if none_live
          then stopped
          else (if none_up then restarting else (if some_left then partial else rest))))
      ≡ not none_live
unfolding is_running includes text_eq
live_bits true none_up some_left rest h = refl
live_bits false true some_left rest h = refl
live_bits false false true rest h = refl
live_bits false false false rest h = h

not-not : (b : Bool) → not (not b) ≡ b
not-not true = refl
not-not false = refl

-- The page of a stack takes the status that the server sends for running exactly if a container of the stack
-- is up or restarting.
pub is_running-get_stack_status :
    (cs : List Container) → is_running (some (get_stack_status cs)) ≡ any is_live cs
unfolding get_stack_status status_of up_containers restarting_containers all_up_status is_live
    is_running includes text_eq
is_running-get_stack_status [] = refl
is_running-get_stack_status (c ∷ cs) =
    live_bits _ _ _ (all_up_status (up_containers (c ∷ cs))) (up_bits _ _ _)
    ∙ ap not (
        both_empty (λ d. is_up (container_status d)) (λ d. is_restarting (container_status d))
          (c ∷ cs))
    ∙ not-not (any is_live (c ∷ cs))
