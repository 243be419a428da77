-- ===== src/Settings/ApiKeys.antt =====
-- The new key that the page holds, over any history.
use dockstack.Prelude.{◌≡◌, refl, Bool, true, false, Option, none, some, List, [], ◌∷◌, Text}
use dockstack.Settings.{CreatedKey, api_key_created, key_dialog_changed, key_dialog_done, copy_key}

-- A key was created, its dialog asks to be opened or closed, the button Done, and the button Copy.
pub data Event : Type 0 where
  created : (key : Text) → (name : Option Text) → Event
  changed : Bool → Event
  done_pressed : Event
  copied : (write_ok : Bool) → Event

-- The page, and what was written to the clipboard, last first.
pub record History : Type 0 where
  pub held : Option CreatedKey
  pub clipboard : List Text

record_write : Option Text → List Text → List Text
record_write none ts = ts
record_write (some t) ts = t ∷ ts

pub step : Event → History → History
unfolding record_write
step (created key name) h = record h { held = (api_key_created key name).0 }
step (changed b) h = record h { held = key_dialog_changed b h.held }
step done_pressed h = record h { held = key_dialog_done h.held }
step (copied ok) h = record h { clipboard = record_write (copy_key ok h.held).0 h.clipboard }

pub run : List Event → History → History
run [] h = h
run (e ∷ es) h = run es (step e h)

-- No key is created.
abbrev pub NoCreation : List Event → Type 0
NoCreation [] = Unit
NoCreation (created key name ∷ es) = ⊥
NoCreation (_ ∷ es) = NoCreation es

nothing_held :
    (es : List Event) (clipboard : List Text)
    → NoCreation es
    → run es (record { held = none; clipboard = clipboard })
      ≡ record { held = none; clipboard = clipboard }
unfolding run step key_dialog_changed key_dialog_done copy_key record_write
nothing_held [] c h = refl
nothing_held (created key name ∷ es) c h = absurd h
nothing_held (changed true ∷ es) c h = nothing_held es c h
nothing_held (changed false ∷ es) c h = nothing_held es c h
nothing_held (done_pressed ∷ es) c h = nothing_held es c h
nothing_held (copied true ∷ es) c h = nothing_held es c h
nothing_held (copied false ∷ es) c h = nothing_held es c h

-- Once the dialog of a new key is closed, by Done or in any other way, the page does not hold the key
-- any more, and until another is created nothing more is written to the clipboard.
closed-NoCreation :
    (es : List Event) (h : History)
    → NoCreation es
    → (run (done_pressed ∷ es) h ≡ record { held = none; clipboard = h.clipboard })
      × (run (changed false ∷ es) h ≡ record { held = none; clipboard = h.clipboard })
unfolding run step key_dialog_changed key_dialog_done
closed-NoCreation es h none_new =
    (nothing_held es h.clipboard none_new, nothing_held es h.clipboard none_new)
