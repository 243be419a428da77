-- ===== src/StackPage/Dialogs.antt =====
-- The three dialogs of the menu share one state.
use dockstack.Prelude.{◌≡◌, refl, Bool, true, false, Option, none, some, List, [], ◌∷◌, arith}
use dockstack.StackPage.{
  Pending, pull_pending, restart_pending, down_pending, StackDetails, pending_open, dialog_open,
  choose, on_open_change, set_destroy_open,
}

-- What can happen: an item of the menu, one of the three dialogs that asks to be opened or closed,
-- and the dialog of Destroy.
pub data MenuEvent : Type 0 where
  chosen : Pending → MenuEvent
  changed : Bool → MenuEvent
  destroy_changed : Bool → MenuEvent

pub menu_step : MenuEvent → StackDetails → StackDetails
unfolding choose on_open_change set_destroy_open
menu_step (chosen a) s = choose a s
menu_step (changed b) s = on_open_change b s
menu_step (destroy_changed b) s = set_destroy_open b s

pub menu_run : List MenuEvent → StackDetails → StackDetails
menu_run [] s = s
menu_run (e ∷ es) s = menu_run es (menu_step e s)

-- The last item that was chosen and not closed since.
pub last_chosen : Option Pending → List MenuEvent → Option Pending
last_chosen p [] = p
last_chosen p (chosen a ∷ es) = last_chosen (some a) es
last_chosen p (changed true ∷ es) = last_chosen p es
last_chosen p (changed false ∷ es) = last_chosen none es
last_chosen p (destroy_changed b ∷ es) = last_chosen p es

menu_run-pending :
    (es : List MenuEvent) (s : StackDetails) → (menu_run es s).pending ≡ last_chosen s.pending es
unfolding menu_run menu_step last_chosen
menu_run-pending [] s = refl
menu_run-pending (chosen a ∷ es) s = menu_run-pending es (record s { pending = some a })
menu_run-pending (changed true ∷ es) s = menu_run-pending es s
menu_run-pending (changed false ∷ es) s = menu_run-pending es (record s { pending = none })
menu_run-pending (destroy_changed b ∷ es) s = menu_run-pending es (record s { destroy_open = b })

pending_open_one :
    (p : Option Pending) (a b : Pending) → pending_open p a ≡ true → pending_open p b ≡ true → a ≡ b
unfolding pending_open
pending_open_one none a b h k = cc
pending_open_one (some p) a b h k = ground arith

pending_open_iff : (a : Pending) → pending_open (some a) a ≡ true
unfolding pending_open
pending_open_iff pull_pending = refl
pending_open_iff restart_pending = refl
pending_open_iff down_pending = refl

-- After any use of the menu and of its dialogs at most one of the three dialogs is open, and the one
-- of an item that was chosen, and not closed since, is.
dialog_open-menu_run :
    (es : List MenuEvent) (s : StackDetails) (a : Pending)
    → ((b : Pending)
        → dialog_open (menu_run es s) a ≡ true
        → dialog_open (menu_run es s) b ≡ true
        → a ≡ b)
      × (last_chosen s.pending es ≡ some a → dialog_open (menu_run es s) a ≡ true)
      × (last_chosen s.pending es ≡ none → dialog_open (menu_run es s) a ≡ false)
unfolding dialog_open
dialog_open-menu_run es s a = (
  (λ b h k. pending_open_one (menu_run es s).pending a b h k),
  (λ e. rw (menu_run-pending es s, e) (pending_open_iff a)),
  (λ e. rw (menu_run-pending es s, e, pending_open)),
)
