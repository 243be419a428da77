-- ===== src/Terminal/Sizes.antt =====
-- What the server has heard of the terminal, over any history of its events.
use dockstack.Prelude.{◌≡◌, ◌≢◌, Option, none, some, List, [], ◌∷◌, All, map, Text}
use dockstack.Terminal.{
  Size, Control, Message, other as other_message, ReadyState, connecting, is_open, closing, closed,
  Terminal, on_open, on_message, on_close, on_error, on_data, fit, on_observed, unmount,
}
use dockstack.Terminal.Heard.{Decoder, Heard, said_init, said_resize, input, other, heard}

pub data Event : Type 0 where
  opened closed_by_server errored cleaned_up : Event
  received : Message → Event
  typed : Text → Event
  -- the first animation frame, and the observer
  framed observed : Size → Event

pub step : (Control → Text) → Event → Terminal → Terminal
step stringify opened t = on_open stringify t
step stringify closed_by_server t = on_close t
step stringify errored t = on_error t
step stringify cleaned_up t = unmount t
step stringify (received m) t = on_message m t
step stringify (typed text) t = on_data text t
step stringify (framed size) t = fit stringify size t
step stringify (observed size) t = on_observed stringify size t

pub run : (Control → Text) → List Event → Terminal → Terminal
run stringify [] t = t
run stringify (e ∷ es) t = run stringify es (step stringify e t)

-- The size that the server was told last.
pub announced : Option Size → List Heard → Option Size
announced last [] = last
announced last (said_init size ∷ ms) = announced (some size) ms
announced last (said_resize size ∷ ms) = announced (some size) ms
announced last (input ∷ ms) = announced last ms
announced last (other ∷ ms) = announced last ms

abbrev pub IsLater : Heard → Type 0
IsLater (said_init _) = ⊥
IsLater (said_resize _) = Unit
IsLater input = Unit
IsLater other = Unit

-- Nothing, or one message `init` and no other after it.
abbrev pub IsOpening : List Heard → Type 0
IsOpening [] = Unit
IsOpening (said_init _ ∷ ms) = All IsLater ms
IsOpening (_ ∷ ms) = ⊥

-- A text that tells the server no size.
abbrev pub IsPlain : Heard → Type 0
IsPlain (said_init _) = ⊥
IsPlain (said_resize _) = ⊥
IsPlain input = Unit
IsPlain other = Unit

-- Only what is typed is not known to be plain.
abbrev pub TypesPlain : Decoder → Event → Type 0
TypesPlain d (typed text) = IsPlain (heard d text)
TypesPlain d _ = Unit

-- What holds of what the server heard, by the state of the socket.
abbrev pub IsHeard : ReadyState → List Heard → Size → Type 0
IsHeard connecting sent size = sent ≡ []
IsHeard is_open sent size = (sent ≢ []) × IsOpening sent × (announced none sent ≡ some size)
IsHeard closing sent size = IsOpening sent
IsHeard closed sent size = IsOpening sent

module _ (d : Decoder) where
  -- The invariant of every history.
  abbrev Keeps : Terminal → Type 0
  Keeps t = IsHeard t.ready_state (map (heard d) t.sent) t.size
