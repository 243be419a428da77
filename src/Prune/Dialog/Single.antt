-- ===== src/Prune/Dialog/Single.antt =====
-- The dialog of a button over any events.
use dockstack.Prelude.{◌≡◌, refl, Bool, true, false, ◌&&◌, List, [], ◌∷◌}
use dockstack.Api.{Call}
use dockstack.Effect.{mutate}
use dockstack.Prune.Dialog.{
  ConfirmButton, mount, Event, press, leave, confirm, answered, confirmed, step,
}

-- The state after the events, in their order.
pub run : Call → Bool → List Event → ConfirmButton → ConfirmButton
run call blocked [] s = s
run call blocked (e ∷ es) s = run call blocked es (step call blocked e s).0

-- The dialog is open only where the button is not blocked, and while no request is pending.
pub record IsSafe (blocked : Bool) (s : ConfirmButton) : Type 0 where
  pub not_both : s.is_open && s.pending ≡ false
  pub allowed : s.is_open && blocked ≡ false

button : Bool → Bool → ConfirmButton
button o p = record { is_open = o; pending = p }

step-button-IsSafe :
    (call : Call) (blocked o p : Bool) (e : Event)
    → o && p ≡ false
    → o && blocked ≡ false
    → IsSafe blocked (step call blocked e (button o p)).0
unfolding step confirmed button
step-button-IsSafe call true o p press n a = record { not_both = n; allowed = a }
step-button-IsSafe call false o true press n a = record { not_both = n; allowed = a }
step-button-IsSafe call false o false press n a = record { not_both = refl; allowed = refl }
step-button-IsSafe call blocked o p leave n a = record { not_both = refl; allowed = refl }
step-button-IsSafe call blocked true p confirm n a = record { not_both = refl; allowed = refl }
step-button-IsSafe call blocked false p confirm n a = record { not_both = refl; allowed = refl }
step-button-IsSafe call blocked true p answered n a = record { not_both = refl; allowed = a }
step-button-IsSafe call blocked false p answered n a = record { not_both = refl; allowed = refl }

step-IsSafe :
    (call : Call) (blocked : Bool) (e : Event) (s : ConfirmButton)
    → IsSafe blocked s
    → IsSafe blocked (step call blocked e s).0
unfolding button
step-IsSafe call blocked e s h =
    step-button-IsSafe call blocked s.is_open s.pending e h.not_both h.allowed

run-IsSafe :
    (call : Call) (blocked : Bool) (es : List Event) (s : ConfirmButton)
    → IsSafe blocked s
    → IsSafe blocked (run call blocked es s)
unfolding run
run-IsSafe call blocked [] s h = h
run-IsSafe call blocked (e ∷ es) s h =
    run-IsSafe call blocked es (step call blocked e s).0 (step-IsSafe call blocked e s h)

-- Over any events, while what may be removed stays the same, the dialog is open only if it may be removed
-- and while the last request is not pending; so the action of an open dialog sends the request, its only
-- effect, with none pending, and closes the dialog. Pressed again while the dialog closes, it sends the
-- request again, with the first one pending.
pub run-IsSafe-mount :
    (call : Call) (blocked : Bool) (es : List Event)
    → let s = run call blocked es mount in
      let (t, sent) = step call blocked confirm s in
      IsSafe blocked s
      × (s.is_open ≡ true
          → (s.pending ≡ false)
            × (blocked ≡ false)
            × (sent ≡ mutate call ∷ [])
            × (t.is_open ≡ false)
            × (t.pending ≡ true)
            × ((step call blocked confirm t).1 ≡ mutate call ∷ []))
unfolding step confirmed mount
run-IsSafe-mount call blocked es =
    let s = run call blocked es mount in
    let safe : IsSafe blocked s =
      run-IsSafe call blocked es mount (record { not_both = refl; allowed = refl }) in
    (
      safe,
      λ open_now.
          let n = safe.not_both in
          let a = safe.allowed in (rw open_now at n, rw open_now at a, refl, refl, refl, refl),
    )
