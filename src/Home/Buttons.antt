-- ===== src/Home/Buttons.antt =====
-- The buttons of a row never have two actions under way.
use dockstack.Prelude.{
  ℕ, ◌+◌, ◌≤◌, ◌≡◌, Bool, true, false, List, [], ◌∷◌, Bool-cases, arith, inl, inr,
}
use dockstack.Home.{
  RowAction, pull_row, restart_row, stop_row, down_row, up_row, StackActions, any_pending,
  start_action, click_row_action, finish_action,
}

pub data RowEvent : Type 0 where
  clicked : RowAction → RowEvent
  finished : RowAction → RowEvent

pub row_step : RowEvent → StackActions → StackActions
row_step (clicked a) s = (click_row_action a s).0
row_step (finished a) s = finish_action a s

pub row_run : List RowEvent → StackActions → StackActions
row_run [] s = s
row_run (e ∷ es) s = row_run es (row_step e s)

abbrev one_if : Bool → ℕ
one_if true = 1
one_if false = 0

-- How many of the row's five mutations are under way.
abbrev pub pending_count : StackActions → ℕ
pending_count s =
    one_if s.up_pending
    + one_if s.stop_pending
    + one_if s.down_pending
    + one_if s.restart_pending
    + one_if s.pull_pending

start_count :
    (a : RowAction) (s : StackActions)
    → any_pending s ≡ false
    → pending_count (start_action a s) ≡ 1
unfolding any_pending start_action
start_count pull_row s h = ground arith
start_count restart_row s h = ground arith
start_count stop_row s h = ground arith
start_count down_row s h = ground arith
start_count up_row s h = ground arith

finish_count :
    (a : RowAction) (s : StackActions) → pending_count (finish_action a s) ≤ pending_count s
unfolding finish_action
finish_count pull_row s = ground arith
finish_count restart_row s = ground arith
finish_count stop_row s = ground arith
finish_count down_row s = ground arith
finish_count up_row s = ground arith

row_step-count :
    (e : RowEvent) (s : StackActions) → pending_count s ≤ 1 → pending_count (row_step e s) ≤ 1
unfolding row_step click_row_action
row_step-count (clicked a) s h = elim (Bool-cases (any_pending s)) [
  | inl p ↦ ground (arith, p)
  | inr p ↦ ground (arith, start_count a s p)
]
row_step-count (finished a) s h = omega (arith, finish_count a s)

-- After any sequence of clicks on the five buttons of a row and of endings, at most one of the row's
-- actions is under way, if that was so before.
row_run-count :
    (es : List RowEvent) (s : StackActions) → pending_count s ≤ 1 → pending_count (row_run es s) ≤ 1
unfolding row_run
row_run-count [] s h = h
row_run-count (e ∷ es) s h = row_run-count es (row_step e s) (row_step-count e s h)
