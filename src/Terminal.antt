-- ===== src/Terminal.antt =====
-- web/src/components/terminal/container-terminal.tsx: the terminal of a container over a socket, from
-- the run of its effect to the clean-up. What the terminal and its fit add-on compute is an input: the
-- size that fits, as the columns and rows of an event.
pub mod Heard
pub mod Sizes
use dockstack.Prelude.{ℕ, Bool, ◌&&◌, List, [], ◌∷◌, ◌++◌, Text, ◌==◌, if◌then◌else◌}

pub record Size : Type 0 where
  pub cols : ℕ
  pub rows : ℕ

-- the objects that are sent as texts by `JSON.stringify`, which is a parameter
pub data Control : Type 0 where
  init : (container_id shell : Text) → Size → Control
  resize : Size → Control

-- what is written to the terminal
pub data Shown : Type 0 where
  bytes : Text → Shown
  process_exited : Shown
  error_line : Text → Shown
  connection_closed : Shown
  websocket_error : Shown

-- the messages of the socket: an array buffer, and a text after `JSON.parse`; `unreadable` is one at
-- which that throws, and `other` one of another type
pub data Message : Type 0 where
  buffer : Text → Message
  exit : Message
  error : Text → Message
  other : Message
  unreadable : Text → Message

pub data ReadyState : Type 0 where
  connecting is_open closing closed : ReadyState

pub record Terminal : Type 0 where
  pub container_id : Text
  pub shell : Text
  pub size : Size
  pub ready_state : ReadyState
  -- the texts that were sent on the socket
  pub sent : List Text
  pub shown : List Shown

-- the effect; a new terminal has some size of its own
pub mount : Text → Text → Size → Terminal
mount container_id shell size = record {
  container_id = container_id;
  shell = shell;
  size = size;
  ready_state = connecting;
  sent = [];
  shown = [];
}

-- `if (ws.readyState === WebSocket.OPEN) ws.send(...)`
send_in : ReadyState → Text → Terminal → Terminal
send_in is_open m t = record t { sent = t.sent ++ m ∷ [] }
send_in connecting m t = t
send_in closing m t = t
send_in closed m t = t

pub send_if_open : Text → Terminal → Terminal
unfolding send_in
send_if_open m t = send_in t.ready_state m t

pub show : Shown → Terminal → Terminal
show line t = record t { shown = t.shown ++ line ∷ [] }

-- `ws.onmessage`
pub on_message : Message → Terminal → Terminal
unfolding show
on_message (buffer data') t = show (bytes data') t
on_message exit t = show process_exited t
on_message (error message) t = show (error_line message) t
on_message other t = t
on_message (unreadable data') t = show (bytes data') t

-- `ws.onclose` and `ws.onerror`
pub on_close : Terminal → Terminal
unfolding show
on_close t = show connection_closed (record t { ready_state = closed })

pub on_error : Terminal → Terminal
unfolding show
on_error t = show websocket_error t

-- `term.onData`, which sends the text as it is
pub on_data : Text → Terminal → Terminal
unfolding send_if_open
on_data data' t = send_if_open data' t

same_size : Size → Size → Bool
same_size a b = a.cols == b.cols && a.rows == b.rows

module _ (stringify : Control → Text) where
  -- `ws.onopen`, which comes once, for a socket that is connecting
  open_in : ReadyState → Terminal → Terminal
  open_in connecting t = record t {
    ready_state = is_open;
    sent = t.sent ++ stringify (init t.container_id t.shell t.size) ∷ [];
  }
  open_in is_open t = t
  open_in closing t = t
  open_in closed t = t

  pub on_open : Terminal → Terminal
  unfolding open_in
  on_open t = open_in t.ready_state t

  -- `fitAddon.fit()`: a size that differs is taken over, and `term.onResize` runs
  pub fit : Size → Terminal → Terminal
  unfolding same_size send_if_open
  fit size t =
      if same_size size t.size
      then t
      else send_if_open (stringify (resize size)) (record t { size = size })

  -- the callback of the `ResizeObserver`
  pub on_observed : Size → Terminal → Terminal
  unfolding fit send_if_open
  on_observed size t = let u = fit size t in send_if_open (stringify (resize u.size)) u

-- the clean-up: `ws.close()`; a socket that is closed stays closed
close_in : ReadyState → ReadyState
close_in closed = closed
close_in connecting = closing
close_in is_open = closing
close_in closing = closing

pub unmount : Terminal → Terminal
unfolding close_in
unmount t = record t { ready_state = close_in t.ready_state }
