-- ===== src/ActionDialog/Counting.antt =====
-- What every history of the dialog keeps.
use dockstack.Prelude.{
  ℕ, suc, ◌+◌, ◌≡◌, refl, ap, true, false, Option, none, some, List, [], ◌∷◌, any, length,
  length-append, Bool-cases, arith, inl, inr,
}
use dockstack.ActionDialog.{
  Run, Dialog, is_stopping, leave_loop, drop_run, stop_run, set_open, take_value, end_iterator,
  settle, Event, show, hide, value, ended, settled, step, run_events, mount,
}

length-leave_loop : (id : ℕ) (rs : List Run) → length (leave_loop id rs) ≡ length rs
unfolding leave_loop
length-leave_loop id [] = refl
length-leave_loop id (r ∷ rs) = ap suc (length-leave_loop id rs)

length-drop_run :
    (id : ℕ) (rs : List Run)
    → any (is_stopping id) rs ≡ true
    → length (drop_run id rs) + 1 ≡ length rs
unfolding drop_run
length-drop_run id [] h = cc
length-drop_run id (r ∷ rs) h = ground (arith, length-drop_run id rs)

-- Every run that was started is under way or has called `onDone` once.
abbrev IsCounted : Dialog → Type 0
IsCounted s = s.done_calls + length s.runs ≡ s.next_run

stop_run-IsCounted : (o : Option ℕ) (s : Dialog) → IsCounted s → IsCounted (stop_run o s)
unfolding stop_run
stop_run-IsCounted none s h = h
stop_run-IsCounted (some id) s h = omega (arith, length-leave_loop id s.runs)

set_open-false-IsCounted : (s : Dialog) → IsCounted s → IsCounted (set_open false s)
unfolding set_open
set_open-false-IsCounted s h = stop_run-IsCounted s.stop_ref (record s { is_open = false }) h

step-IsCounted : (e : Event) (s : Dialog) → IsCounted s → IsCounted (step e s)
unfolding step set_open take_value end_iterator settle
step-IsCounted show s h =
    ground (arith, length-append s.runs (record { id = s.next_run; stopping = false } ∷ []))
step-IsCounted hide s h = elim (Bool-cases s.is_open) [
  | inl e ↦ rw e (set_open-false-IsCounted s h)
  | inr e ↦ rw e h
]
step-IsCounted (value id v) s h = ground arith
step-IsCounted (ended id) s h = omega (arith, length-leave_loop id s.runs)
step-IsCounted (settled id) s h = ground (arith, length-drop_run id s.runs)

run_events-IsCounted_from :
    (es : List Event) (s : Dialog) → IsCounted s → IsCounted (run_events es s)
unfolding run_events
run_events-IsCounted_from [] s h = h
run_events-IsCounted_from (e ∷ es) s h =
    run_events-IsCounted_from es (step e s) (step-IsCounted e s h)

-- After any history of opening, closing, output and endings, overlapping runs included, the number
-- of runs that were started is that of the calls of `onDone` and of the runs still under way.
pub run_events-IsCounted :
    (es : List Event)
    → (run_events es mount).done_calls + length (run_events es mount).runs
      ≡ (run_events es mount).next_run
run_events-IsCounted es = run_events-IsCounted_from es mount (omega arith)
