-- ===== src/Sidebar/Cookie.antt =====
-- What the cookie says about the sidebar.
use dockstack.Prelude.{
  ℕ, ◌≡◌, ◌⊎◌, inl, inr, refl, sym, subst, Bool, true, false, not, ◌&&◌, ◌||◌, none, some, List, [],
  ◌∷◌, text_eq, Text, codes, if◌then◌else◌,
}
use dockstack.Sidebar.{
  Sidebar, mount, is_open, set_open, toggle_sidebar, handle_key_down, resize, set_open_mobile,
  prop_or,
}

pub data Event : Type 0 where
  set : Bool → Event
  toggled : Event
  pressed : Text → Bool → Bool → Event
  resized : ℕ → Event
  set_mobile : Bool → Event

pub step : Event → Sidebar → Sidebar
step (set b) s = set_open b s
step toggled s = toggle_sidebar s
step (pressed key meta_key ctrl_key) s = handle_key_down key meta_key ctrl_key s
step (resized width) s = resize width s
step (set_mobile b) s = set_open_mobile b s

pub run : List Event → Sidebar → Sidebar
run [] s = s
run (e ∷ es) s = run es (step e s)

-- A sidebar of which no caller has taken the state, with the cookie it left.
abbrev pub IsSaved : Sidebar → Type 0
IsSaved s =
    (s.has_handler ≡ false)
    × (s.open_prop ≡ none)
    × ((s.cookie ≡ none) ⊎ (s.cookie ≡ some (is_open s)))

set_open_uncontrolled :
    (b : Bool) (s : Sidebar)
    → s.has_handler ≡ false
    → set_open b s ≡ record s { own_open = b; cookie = some b }
unfolding set_open
set_open_uncontrolled b s h = rw h refl

own_state :
    (b : Bool) (s : Sidebar) → IsSaved s → IsSaved (record s { own_open = b; cookie = some b })
unfolding is_open prop_or
own_state b s (h, p, c) = (h, p, inr (rw p refl))

set_open-IsSaved : (b : Bool) (s : Sidebar) → IsSaved s → IsSaved (set_open b s)
set_open-IsSaved b s h = subst IsSaved (sym (set_open_uncontrolled b s h.0)) (own_state b s h)

if-IsSaved : (b : Bool) (x y : Sidebar) → IsSaved x → IsSaved y → IsSaved (if b then x else y)
if-IsSaved true x y h k = h
if-IsSaved false x y h k = k

toggle_sidebar-IsSaved : (s : Sidebar) → IsSaved s → IsSaved (toggle_sidebar s)
unfolding toggle_sidebar is_open
toggle_sidebar-IsSaved s h =
    if-IsSaved s.is_mobile (record s { open_mobile = not s.open_mobile })
      (set_open (not (is_open s)) s) h (set_open-IsSaved (not (is_open s)) s h)

step-IsSaved : (e : Event) (s : Sidebar) → IsSaved s → IsSaved (step e s)
unfolding step handle_key_down resize set_open_mobile is_open
step-IsSaved (set b) s h = set_open-IsSaved b s h
step-IsSaved toggled s h = toggle_sidebar-IsSaved s h
step-IsSaved (pressed key meta_key ctrl_key) s h =
    if-IsSaved (text_eq key (codes "b") && (meta_key || ctrl_key)) (toggle_sidebar s) s
      (toggle_sidebar-IsSaved s h) h
step-IsSaved (resized width) s h = h
step-IsSaved (set_mobile b) s h = h

run-keeps : (es : List Event) (s : Sidebar) → IsSaved s → IsSaved (run es s)
unfolding run
run-keeps [] s h = h
run-keeps (e ∷ es) s h = run-keeps es (step e s) (step-IsSaved e s h)

-- Of a sidebar whose state no caller has taken, after any history of toggles, key presses and window
-- sizes, the cookie was either never written or says whether the sidebar is open on a wide window.
run-IsSaved :
    (es : List Event) (default_open : Bool)
    → ((run es (mount default_open none false)).cookie ≡ none)
      ⊎ ((run es (mount default_open none false)).cookie
          ≡ some (is_open (run es (mount default_open none false))))
unfolding mount
run-IsSaved es default_open =
    (run-keeps es (mount default_open none false) (refl, refl, inl refl)).2
