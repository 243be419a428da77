-- ===== src/ActionDialog/Ending.antt =====
-- Every history can come to rest.
use dockstack.Prelude.{
  ℕ, ◌+◌, ◌≡◌, refl, sym, subst, ap, ◌∙◌, Bool, true, false, Option, none, some, List, [], ◌∷◌,
  ◌++◌, map, any, length, Bool-cases, ==_self, ◌==◌, head_path, tail_path, ◌≢◌, text_eq, arith, inl,
  inr, if◌then◌else◌,
}
use dockstack.ActionDialog.{
  Run, Dialog, is_racing, is_stopping, leave_loop, drop_run, start_run, stop_run, set_open,
  take_value, end_iterator, settle, done_line, heartbeat, Event, show, hide, value, ended, settled,
  step, run_events, mount,
}
use dockstack.ActionDialog.Counting.{run_events-IsCounted}
use dockstack.ActionDialog.Runs.{run_events-append}

abbrev pub run_ids : List Run → List ℕ
run_ids = map (λ (r : Run). r.id)

-- Each iterator comes to its end, and its run settles.
pub finish_events : List ℕ → List Event
finish_events [] = []
finish_events (id ∷ ids) = ended id ∷ settled id ∷ finish_events ids

run_ids-leave_loop : (id : ℕ) (rs : List Run) → run_ids (leave_loop id rs) ≡ run_ids rs
unfolding leave_loop
run_ids-leave_loop id [] = refl
run_ids-leave_loop id (r ∷ rs) = elim (Bool-cases (r.id == id)) [
  | inl e ↦ rw e (ap (λ ids. r.id ∷ ids) (run_ids-leave_loop id rs))
  | inr e ↦ rw e (ap (λ ids. r.id ∷ ids) (run_ids-leave_loop id rs))
]

-- The state once the first run has left its loop and settled.
abbrev after_first : Dialog → List Run → Dialog
after_first s rs = record s {
  stop_ref = none;
  running = false;
  lines = s.lines ++ done_line ∷ [];
  runs = rs;
  done_calls = s.done_calls + 1;
}

leave_head :
    (r : Run) (rs : List Run)
    → leave_loop r.id (r ∷ rs) ≡ record { id = r.id; stopping = true } ∷ leave_loop r.id rs
unfolding leave_loop
leave_head r rs = rw (==_self r.id) refl

settle_head :
    (id : ℕ) (rs : List Run) (s : Dialog)
    → settle id (record s { runs = record { id = id; stopping = true } ∷ rs }) ≡ after_first s rs
unfolding settle drop_run
settle_head id rs s = rw (==_self id) refl

first_settles :
    (r : Run) (rs : List Run) (s : Dialog)
    → s.runs ≡ r ∷ rs
    → step (settled r.id) (step (ended r.id) s) ≡ after_first s (leave_loop r.id rs)
unfolding step end_iterator
first_settles r rs s e =
    ap (λ xs. settle r.id (record s { runs = xs })) (ap (leave_loop r.id) e ∙ leave_head r rs)
    ∙ settle_head r.id (leave_loop r.id rs) s

-- Nothing runs, and the dialog says so.
abbrev pub IsResting : Dialog → Type 0
IsResting s = (s.runs ≡ []) × (s.running ≡ false)

-- A dialog that says that something runs has a run.
abbrev IsTruthful : Dialog → Type 0
IsTruthful s = s.runs ≡ [] → s.running ≡ false

no_ids : (rs : List Run) → run_ids rs ≡ [] → rs ≡ []
no_ids [] e = refl
no_ids (r ∷ rs) e = cc

some_ids :
    (rs : List Run) (id : ℕ) (ids : List ℕ)
    → run_ids rs ≡ id ∷ ids
    → (r : Run) × (rest : List Run) × (rs ≡ r ∷ rest) × (r.id ≡ id) × (run_ids rest ≡ ids)
some_ids [] id ids e = cc
some_ids (r ∷ rs) id ids e = (r, rs, refl, head_path e, tail_path e)

finish_from :
    (ids : List ℕ) (s : Dialog)
    → run_ids s.runs ≡ ids
    → IsTruthful s
    → IsResting (run_events (finish_events ids) s)
      × ((run_events (finish_events ids) s).next_run ≡ s.next_run)
unfolding finish_events run_events
finish_from [] s e h = let none_left = no_ids s.runs e in ((none_left, h none_left), refl)
finish_from (id ∷ ids) s e h =
    let (r, rest, is, same, others) = some_ids s.runs id ids e in
    let next = after_first s (leave_loop r.id rest) in
    let settles : step (settled id) (step (ended id) s) ≡ next =
      ap (λ i. step (settled i) (step (ended i) s)) (sym same) ∙ first_settles r rest s is in
    subst
      (λ t.
        IsResting (run_events (finish_events ids) t)
        × ((run_events (finish_events ids) t).next_run ≡ s.next_run))
      (sym settles) (finish_from ids next (run_ids-leave_loop r.id rest ∙ others) (λ _. refl))

leave_loop-nonempty : (id : ℕ) (rs : List Run) → leave_loop id rs ≡ [] → rs ≡ []
unfolding leave_loop
leave_loop-nonempty id [] h = refl
leave_loop-nonempty id (r ∷ rs) h = cc

append_one : (rs : List Run) (r : Run) → rs ++ r ∷ [] ≢ []
append_one [] r h = cc
append_one (x ∷ rs) r h = cc

stop_run-IsTruthful : (o : Option ℕ) (s : Dialog) → IsTruthful s → IsTruthful (stop_run o s)
unfolding stop_run
stop_run-IsTruthful none s h = h
stop_run-IsTruthful (some id) s h = λ e. h (leave_loop-nonempty id s.runs e)

if-IsTruthful :
    (b : Bool) (x y : Dialog) → IsTruthful x → IsTruthful y → IsTruthful (if b then x else y)
if-IsTruthful true x y h k = h
if-IsTruthful false x y h k = k

step-IsTruthful : (e : Event) (s : Dialog) → IsTruthful s → IsTruthful (step e s)
unfolding step set_open start_run end_iterator settle take_value
step-IsTruthful show s h =
    if-IsTruthful s.is_open s (set_open true s) h (λ e. absurd (append_one s.runs _ e))
step-IsTruthful hide s h =
    if-IsTruthful s.is_open (set_open false s) s
      (stop_run-IsTruthful s.stop_ref (record s { is_open = false }) h) h
step-IsTruthful (value id v) s h =
    if-IsTruthful (any (is_racing id) s.runs)
      (if text_eq v heartbeat then s else record s { lines = s.lines ++ v ∷ [] }) s
      (if-IsTruthful (text_eq v heartbeat) s (record s { lines = s.lines ++ v ∷ [] }) h h) h
step-IsTruthful (ended id) s h = λ e. h (leave_loop-nonempty id s.runs e)
step-IsTruthful (settled id) s h =
    if-IsTruthful (any (is_stopping id) s.runs)
      (record s {
        stop_ref = none;
        running = false;
        lines = s.lines ++ done_line ∷ [];
        runs = drop_run id s.runs;
        done_calls = s.done_calls + 1;
      })
      s (λ _. refl) h

run_events-IsTruthful : (es : List Event) (s : Dialog) → IsTruthful s → IsTruthful (run_events es s)
unfolding run_events
run_events-IsTruthful [] s h = h
run_events-IsTruthful (e ∷ es) s h = run_events-IsTruthful es (step e s) (step-IsTruthful e s h)

-- From wherever a history has led, lost runs included, the dialog comes to rest once the iterators of
-- the runs under way have ended and settled: no run is left, the dialog no longer says that one is
-- running, and `onDone` was called once for every run that was ever started.
pub run_events-IsResting :
    (es : List Event)
    → let s = run_events es mount in
      let rest = run_events (finish_events (run_ids s.runs)) s in
      IsResting rest × (rest.done_calls ≡ s.next_run)
run_events-IsResting es =
    let s = run_events es mount in
    let fs = finish_events (run_ids s.runs) in
    let (rest, next) =
      finish_from (run_ids s.runs) s refl (run_events-IsTruthful es mount (λ _. refl)) in
    let counted =
      subst (λ (t : Dialog). t.done_calls + length t.runs ≡ t.next_run)
        (run_events-append es fs mount) (run_events-IsCounted (es ++ fs)) in
    let none_left = ap length rest.0 in (rest, omega (arith, counted, none_left, next))
