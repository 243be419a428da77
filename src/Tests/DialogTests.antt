-- ===== src/Tests/DialogTests.antt =====
-- The action dialog, from its mount.
use dockstack.Prelude.{◌≡◌, refl, true, false, List, [], ◌∷◌, ◌++◌, Text, codes}
use dockstack.ActionDialog.{heartbeat, Event, show, hide, value, ended, settled, run_events, mount}
use dockstack.ActionDialog.Runs.{
  IsIdle, values, visible, finished, run_events_whole, run_events_closed,
}
use dockstack.ActionDialog.Overlap.{lost_state, settle_overlap}

mount-IsIdle : IsIdle mount
mount-IsIdle = record { closed = refl; no_run = refl }

abbrev output : List Text
output = codes "pulling" ∷ heartbeat ∷ codes "started" ∷ []

abbrev history : List Event
history = show ∷ value 0 (codes "a") ∷ hide ∷ show ∷ settled 0 ∷ ended 1 ∷ settled 1 ∷ []

run_events_whole_example :
    run_events (show ∷ (values 0 output ++ ended 0 ∷ settled 0 ∷ [])) mount
    ≡ finished true mount output
run_events_whole_example = run_events_whole mount output mount-IsIdle

run_events_closed_example :
    run_events (show ∷ (values 0 output ++ hide ∷ (values 0 output ++ settled 0 ∷ []))) mount
    ≡ finished false mount output
run_events_closed_example = run_events_closed mount output output mount-IsIdle

settle_overlap_example :
    (run_events (show ∷ hide ∷ show ∷ settled 0 ∷ []) mount ≡ lost_state true mount [])
    × (run_events (hide ∷ values 1 output) (lost_state true mount [])
        ≡ lost_state false mount (visible output))
settle_overlap_example = settle_overlap mount output mount-IsIdle
