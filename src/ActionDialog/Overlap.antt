-- ===== src/ActionDialog/Overlap.antt =====
-- Two runs that overlap.
use dockstack.Prelude.{
  ◌+◌, ◌≡◌, refl, ap, ◌∙◌, Bool, true, false, none, List, [], ◌∷◌, Text, ==_self,
}
use dockstack.ActionDialog.{
  done_line, Dialog, set_open, settle, show, hide, settled, step, run_events,
}
use dockstack.ActionDialog.Runs.{
  visible, values, IsIdle, stopping_state, show-IsIdle, hide-racing_state, run_events-values_racing,
}

-- The second of two overlapping runs is racing, and nothing refers to it.
abbrev pub lost_state : Bool → Dialog → List Text → Dialog
lost_state is_open s shown = record {
  is_open = is_open;
  lines = done_line ∷ shown;
  running = false;
  stop_ref = none;
  runs = record { id = s.next_run + 1; stopping = false } ∷ [];
  next_run = s.next_run + 1 + 1;
  done_calls = s.done_calls + 1;
}

settled-overlap :
    (s : Dialog)
    → step (settled s.next_run) (step show (stopping_state false s [])) ≡ lost_state true s []
unfolding step set_open settle
settled-overlap s = rw (==_self s.next_run)

hide-lost_state : (s : Dialog) → step hide (lost_state true s []) ≡ lost_state false s []
unfolding step set_open
hide-lost_state s = refl

-- Closed and opened again before its first run has settled, an idle dialog loses its second run:
-- when the first settles, the dialog says that nothing runs and shows the line Done while the second
-- run is racing, and closing it stops nothing: what that run yields is still shown.
pub settle_overlap :
    (s : Dialog) (vs : List Text)
    → IsIdle s
    → let id = s.next_run in
      (run_events (show ∷ hide ∷ show ∷ settled id ∷ []) s ≡ lost_state true s [])
      × (run_events (hide ∷ values (id + 1) vs) (lost_state true s [])
          ≡ lost_state false s (visible vs))
unfolding run_events
settle_overlap s vs h =
    let id = s.next_run in
    (
      ap (run_events (hide ∷ show ∷ settled id ∷ [])) (show-IsIdle s h)
          ∙ ap (run_events (show ∷ settled id ∷ [])) (hide-racing_state s [])
          ∙ settled-overlap s,
      ap (run_events (values (id + 1) vs)) (hide-lost_state s)
          ∙ run_events-values_racing (id + 1) vs (lost_state false s []) (rw (==_self (id + 1))),
    )
