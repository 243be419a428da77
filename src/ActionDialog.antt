-- ===== src/ActionDialog.antt =====
-- web/src/components/stacks/action-dialog.tsx: the dialog that runs a stack action and shows its
-- output. A run is the asynchronous function `run`, from its call to the end of its `finally`.
pub mod Counting
pub mod Runs
pub mod Overlap
pub mod Ending
use dockstack.Prelude.{
  ℕ, ◌+◌, Bool, true, false, not, ◌&&◌, Option, none, some, List, [], ◌∷◌, ◌++◌, keep, any, text_eq,
  Text, codes, ◌==◌, if◌then◌else◌,
}

-- `HEARTBEAT` of web/src/lib/api/sse.ts: the code unit U+200B
abbrev pub heartbeat : Text
heartbeat = 0x200b ∷ []

abbrev pub done_line : Text
done_line = codes "Done."

-- `stopping` from the moment that the loop is left until `iter.return()` has settled
pub record Run : Type 0 where
  pub id : ℕ
  pub stopping : Bool

pub record Dialog : Type 0 where
  pub is_open : Bool
  pub lines : List Text
  pub running : Bool
  -- the run whose stop promise `stopRef` resolves
  pub stop_ref : Option ℕ
  -- the runs under way, and the number of the next one
  pub runs : List Run
  pub next_run : ℕ
  -- how often `onDone` was called
  pub done_calls : ℕ

abbrev is_racing : ℕ → Run → Bool
is_racing id r = r.id == id && not r.stopping

abbrev is_stopping : ℕ → Run → Bool
is_stopping id r = r.id == id && r.stopping

-- the run leaves its loop
pub leave_loop : ℕ → List Run → List Run
leave_loop id [] = []
leave_loop id (r ∷ rs) = (if r.id == id then record r { stopping = true } else r) ∷ leave_loop id rs

pub drop_run : ℕ → List Run → List Run
drop_run id [] = []
drop_run id (r ∷ rs) = if is_stopping id r then rs else r ∷ drop_run id rs

-- `run()`, up to its first `await`
pub start_run : Dialog → Dialog
start_run s = record s {
  lines = [];
  running = true;
  stop_ref = some s.next_run;
  runs = s.runs ++ record { id = s.next_run; stopping = false } ∷ [];
  next_run = s.next_run + 1;
}

-- `stopRef.current?.()`: the stop promise wins the race, and the run leaves its loop
stop_run : Option ℕ → Dialog → Dialog
unfolding leave_loop
stop_run none s = s
stop_run (some id) s = record s { runs = leave_loop id s.runs }

-- the effect on `open`
pub set_open : Bool → Dialog → Dialog
unfolding start_run stop_run
set_open true s = start_run (record s { is_open = true })
set_open false s = stop_run s.stop_ref (record s { is_open = false })

-- `iter.next()` wins the race with a value; a run that has left its loop ignores it
pub take_value : ℕ → Text → Dialog → Dialog
take_value id value s =
    if any (is_racing id) s.runs
    then (if text_eq value heartbeat then s else record s { lines = s.lines ++ value ∷ [] })
    else s

-- the iterator is at its end, or throws
pub end_iterator : ℕ → Dialog → Dialog
unfolding leave_loop
end_iterator id s = record s { runs = leave_loop id s.runs }

-- the rest of the `finally`, once `iter.return()` has settled
pub settle : ℕ → Dialog → Dialog
unfolding drop_run
settle id s =
    if any (is_stopping id) s.runs
    then record s {
      stop_ref = none;
      running = false;
      lines = s.lines ++ done_line ∷ [];
      runs = drop_run id s.runs;
      done_calls = s.done_calls + 1;
    }
    else s

pub data Event : Type 0 where
  show hide : Event
  value : (run : ℕ) → Text → Event
  ended : (run : ℕ) → Event
  settled : (run : ℕ) → Event

-- the effect runs again only when `open` has changed
pub step : Event → Dialog → Dialog
step show s = if s.is_open then s else set_open true s
step hide s = if s.is_open then set_open false s else s
step (value run v) s = take_value run v s
step (ended run) s = end_iterator run s
step (settled run) s = settle run s

pub run_events : List Event → Dialog → Dialog
run_events [] s = s
run_events (e ∷ es) s = run_events es (step e s)

-- a dialog that mounts closed
abbrev pub mount : Dialog
mount = record {
  is_open = false;
  lines = [];
  running = false;
  stop_ref = none;
  runs = [];
  next_run = 0;
  done_calls = 0;
}
