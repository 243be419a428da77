-- ===== src/ActionDialog/Runs.antt =====
-- One run of the dialog, from its start to its end.
use dockstack.Prelude.{
  ℕ, ◌+◌, ◌≡◌, refl, sym, ap, ◌∙◌, Bool, true, false, not, none, some, List, [], ◌∷◌, ◌++◌, map,
  keep, any, text_eq, Text, append_assoc, append-nil, ==_self, Bool-cases, inl, inr,
}
use dockstack.ActionDialog.{
  heartbeat, done_line, Dialog, is_racing, set_open, take_value, end_iterator, settle, Event, show,
  hide, value, ended, settled, step, run_events,
}

-- The values that a run shows: all but the heartbeats.
abbrev pub visible : List Text → List Text
visible = keep (λ v. not (text_eq v heartbeat))

abbrev pub values : ℕ → List Text → List Event
values id = map (λ v. value id v)

pub run_events-append :
    (es fs : List Event) (s : Dialog) → run_events (es ++ fs) s ≡ run_events fs (run_events es s)
unfolding run_events
run_events-append [] fs s = refl
run_events-append (e ∷ es) fs s = run_events-append es fs (step e s)

take_value_racing :
    (id : ℕ) (v : Text) (s : Dialog)
    → any (is_racing id) s.runs ≡ true
    → take_value id v s ≡ record s { lines = s.lines ++ visible (v ∷ []) }
unfolding take_value
take_value_racing id v s h = elim (Bool-cases (text_eq v heartbeat)) [
  | inl e ↦ rw (h, e) (λ i. record s { lines = sym (append-nil s.lines) i })
  | inr e ↦ rw (h, e)
]

take_value_stopped :
    (id : ℕ) (v : Text) (s : Dialog) → any (is_racing id) s.runs ≡ false → take_value id v s ≡ s
unfolding take_value
take_value_stopped id v s h = rw h

visible-cons : (v : Text) (vs : List Text) → visible (v ∷ []) ++ visible vs ≡ visible (v ∷ vs)
visible-cons v vs = elim (Bool-cases (text_eq v heartbeat)) [ inl e ↦ rw e | inr e ↦ rw e ]

-- The output of a run that is racing is appended, but for the heartbeats; nothing else changes.
pub run_events-values_racing :
    (id : ℕ) (vs : List Text) (s : Dialog)
    → any (is_racing id) s.runs ≡ true
    → run_events (values id vs) s ≡ record s { lines = s.lines ++ visible vs }
unfolding run_events step
run_events-values_racing id [] s h = λ i. record s { lines = sym (append-nil s.lines) i }
run_events-values_racing id (v ∷ vs) s h =
    ap (run_events (values id vs)) (take_value_racing id v s h)
    ∙ run_events-values_racing id vs (record s { lines = s.lines ++ visible (v ∷ []) }) h
    ∙ ap (λ (ls : List Text). record s { lines = ls })
        (append_assoc s.lines (visible (v ∷ [])) (visible vs)
          ∙ ap (λ t. s.lines ++ t) (visible-cons v vs))

run_events-values_stopped :
    (id : ℕ) (vs : List Text) (s : Dialog)
    → any (is_racing id) s.runs ≡ false
    → run_events (values id vs) s ≡ s
unfolding run_events step
run_events-values_stopped id [] s h = refl
run_events-values_stopped id (v ∷ vs) s h =
    ap (run_events (values id vs)) (take_value_stopped id v s h)
    ∙ run_events-values_stopped id vs s h

-- A closed dialog with no run under way.
pub record IsIdle (s : Dialog) : Type 0 where
  pub closed : s.is_open ≡ false
  pub no_run : s.runs ≡ []

-- What a run leaves behind: the dialog is open still if `is_open` says so.
abbrev pub finished : Bool → Dialog → List Text → Dialog
finished is_open s vs = record {
  is_open = is_open;
  lines = visible vs ++ done_line ∷ [];
  running = false;
  stop_ref = none;
  runs = [];
  next_run = s.next_run + 1;
  done_calls = s.done_calls + 1;
}

-- The state while the only run is racing.
abbrev pub racing_state : Dialog → List Text → Dialog
racing_state s shown = record {
  is_open = true;
  lines = shown;
  running = true;
  stop_ref = some s.next_run;
  runs = record { id = s.next_run; stopping = false } ∷ [];
  next_run = s.next_run + 1;
  done_calls = s.done_calls;
}

pub show-IsIdle : (s : Dialog) → IsIdle s → step show s ≡ racing_state s []
unfolding step set_open
show-IsIdle s h = rw (h.closed, h.no_run)

values-racing_state :
    (s : Dialog) (vs : List Text)
    → run_events (values s.next_run vs) (racing_state s []) ≡ racing_state s (visible vs)
values-racing_state s vs =
    run_events-values_racing s.next_run vs (racing_state s []) (rw (==_self s.next_run))

-- The state once that run has left its loop.
abbrev pub stopping_state : Bool → Dialog → List Text → Dialog
stopping_state is_open s shown = record (racing_state s shown) {
  is_open = is_open;
  runs = record { id = s.next_run; stopping = true } ∷ [];
}

ended-racing_state :
    (s : Dialog) (shown : List Text)
    → step (ended s.next_run) (racing_state s shown) ≡ stopping_state true s shown
unfolding step end_iterator
ended-racing_state s shown = rw (==_self s.next_run)

settled-stopping_state :
    (is_open : Bool) (s : Dialog) (vs : List Text)
    → step (settled s.next_run) (stopping_state is_open s (visible vs)) ≡ finished is_open s vs
unfolding step settle
settled-stopping_state is_open s vs = rw (==_self s.next_run)

pub hide-racing_state :
    (s : Dialog) (shown : List Text)
    → step hide (racing_state s shown) ≡ stopping_state false s shown
unfolding step set_open
hide-racing_state s shown = rw (==_self s.next_run)

-- Opened, fed with the values `vs` and left to end, an idle dialog shows those values without the
-- heartbeats and then the line Done, has called `onDone` once more, and no longer runs.
pub run_events_whole :
    (s : Dialog) (vs : List Text)
    → IsIdle s
    → run_events (show ∷ (values s.next_run vs ++ ended s.next_run ∷ settled s.next_run ∷ [])) s
      ≡ finished true s vs
unfolding run_events
run_events_whole s vs h =
    let id = s.next_run in
    ap (run_events (values id vs ++ ended id ∷ settled id ∷ [])) (show-IsIdle s h)
    ∙ run_events-append (values id vs) (ended id ∷ settled id ∷ []) (racing_state s [])
    ∙ ap (run_events (ended id ∷ settled id ∷ [])) (values-racing_state s vs)
    ∙ ap (step (settled id)) (ended-racing_state s (visible vs))
    ∙ settled-stopping_state true s vs

-- Closed while its run is under way, the dialog shows none of the values `late` that the iterator
-- still yields: once the run has settled, the lines are the values from before and the line Done.
pub run_events_closed :
    (s : Dialog) (vs late : List Text)
    → IsIdle s
    → run_events
        (show
          ∷ (values s.next_run vs ++ hide ∷ (values s.next_run late ++ settled s.next_run ∷ [])))
        s
      ≡ finished false s vs
unfolding run_events
run_events_closed s vs late h =
    let id = s.next_run in
    let rest = values id late ++ settled id ∷ [] in
    ap (run_events (values id vs ++ hide ∷ rest)) (show-IsIdle s h)
    ∙ run_events-append (values id vs) (hide ∷ rest) (racing_state s [])
    ∙ ap (run_events (hide ∷ rest)) (values-racing_state s vs)
    ∙ ap (run_events rest) (hide-racing_state s (visible vs))
    ∙ run_events-append (values id late) (settled id ∷ []) (stopping_state false s (visible vs))
    ∙ ap (step (settled id))
        (run_events-values_stopped id late (stopping_state false s (visible vs)) (rw (==_self id)))
    ∙ settled-stopping_state false s vs
