-- ===== src/Prune/Dialog.antt =====
-- The state of the buttons: the dialog of network-actions.tsx and of the four prune buttons, and the plain
-- buttons of image-actions.tsx and volume-actions.tsx.
pub mod Single
use dockstack.Prelude.{Bool, true, false, ◌||◌, List, [], ◌∷◌, if◌then◌else◌}
use dockstack.Api.{Call}
use dockstack.Effect.{Effect, mutate}

-- `open`, and the mutation's `isPending`
pub record ConfirmButton : Type 0 where
  pub is_open : Bool
  pub pending : Bool

pub mount : ConfirmButton
mount = record { is_open = false; pending = false }

-- The button is pressed, the dialog is left by Cancel or in another way, its action is pressed, and the
-- last request, which `isPending` is about, has been answered.
pub data Event : Type 0 where
  press leave confirm answered : Event

-- the `onClick` of `AlertDialogAction`, which looks at nothing: a dialog that is closing still has it
confirmed : Call → ConfirmButton → ConfirmButton × List Effect
confirmed call s = (record { is_open = false; pending = true }, mutate call ∷ [])

-- what happens on an event; `blocked` is `!removable`, which stays as it is, and false for a prune
-- button
pub step : Call → (blocked : Bool) → Event → ConfirmButton → ConfirmButton × List Effect
unfolding confirmed
step call blocked press s = (if blocked || s.pending then s else record s { is_open = true }, [])
step call blocked leave s = (record s { is_open = false }, [])
step call blocked confirm s = confirmed call s
step call blocked answered s = (record s { pending = false }, [])

-- the buttons without a dialog: whether a request is under way
pub plain_step : Call → (press_event : Bool) → (pending : Bool) → Bool × List Effect
plain_step call false pending = (false, [])
plain_step call true pending = if pending then (true, []) else (true, mutate call ∷ [])
