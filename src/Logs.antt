-- ===== src/Logs.antt =====
-- web/src/components/stacks/logs.tsx: the log lines of a stack, streamed over a socket.
pub mod Json
pub mod View
pub mod Order
pub mod Socket
pub mod Rows
use dockstack.Prelude.{
  ℕ, ◌+◌, Bool, true, false, not, ◌&&◌, Option, none, some, List, [], ◌∷◌, ◌++◌, map, keep, any,
  includes, text_eq, Text, ◌==◌, if◌then◌else◌,
}
use dockstack.Prelude.Sorting.{sort}

-- `LogEntry` of web/src/lib/api/ws.ts; timestamps are the texts that the server sends
pub data Output : Type 0 where
  stdout stderr : Output

pub record LogEntry : Type 0 where
  pub container_name : Text
  pub message : Text
  pub stream : Output
  pub timestamp : Text

-- the messages of the socket, after `JSON.parse`; `unreadable` is one at which that throws, and
-- `other` one of another type
pub data Message : Type 0 where
  log : LogEntry → Message
  end : Message
  error : Text → Message
  unreadable other : Message

-- what the component asks of its sockets, each known by a number
pub data Wire : Type 0 where
  connect : (socket : ℕ) → (stack_name : Text) → Wire
  send_init : (socket : ℕ) → (stack_name : Text) → Wire
  send_close : (socket : ℕ) → Wire
  close : (socket : ℕ) → Wire

pub record Logs : Type 0 where
  pub stack_name : Text
  pub streaming : Bool
  pub lines : List LogEntry
  pub show_timestamp : Bool
  pub expanded : List Text
  pub selected_containers : List Text
  pub ws_ref : Option ℕ
  -- the sockets that left the state `CONNECTING` by opening, the number of the next socket, and all that
  -- was asked so far
  pub opened_sockets : List ℕ
  pub next_socket : ℕ
  pub wire : List Wire

pub mount : Text → Logs
mount stack_name = record {
  stack_name = stack_name;
  streaming = false;
  lines = [];
  show_timestamp = false;
  expanded = [];
  selected_containers = [];
  ws_ref = none;
  opened_sockets = [];
  next_socket = 0;
  wire = [];
}

-- `startStreaming`
pub start_streaming : Logs → Logs
start_streaming s = record s {
  streaming = true;
  lines = [];
  expanded = [];
  selected_containers = [];
  ws_ref = some s.next_socket;
  next_socket = s.next_socket + 1;
  wire = s.wire ++ connect s.next_socket s.stack_name ∷ [];
}

-- `ws.onopen`; the name is the one that the handler closed over
pub on_open : ℕ → Text → Logs → Logs
on_open socket stack_name s = record s {
  opened_sockets = socket ∷ s.opened_sockets;
  wire = s.wire ++ send_init socket stack_name ∷ [];
}

-- `setStreaming(false); wsRef.current = null`
pub forget_socket : Logs → Logs
forget_socket s = record s { streaming = false; ws_ref = none }

-- the comparator of the `sort` call is a parameter: `le a b` is `a.localeCompare(b) <= 0`
module _ (le : Text → Text → Bool) where
  abbrev pub earlier : LogEntry → LogEntry → Bool
  earlier a b = le a.timestamp b.timestamp

  -- `setLines((prev) => [...prev, entry].sort(...))`
  unfoldable pub receive : List LogEntry → LogEntry → List LogEntry
  receive prev entry = sort earlier (prev ++ entry ∷ [])

  -- `ws.onmessage`
  pub on_message : Message → Logs → Logs
  unfolding forget_socket
  on_message (log entry) s = record s { lines = receive s.lines entry }
  on_message end s = forget_socket s
  on_message (error message) s = forget_socket s
  on_message unreadable s = s
  on_message other s = s

-- `ws.onclose` and `ws.onerror`; no handler looks at which socket it belongs to
pub on_close : ℕ → Logs → Logs
unfolding forget_socket
on_close socket s = forget_socket s

pub on_error : ℕ → Logs → Logs
unfolding forget_socket
on_error socket s = forget_socket s

-- `send` throws for a socket that is still connecting: nothing after it runs
stop_socket : Option ℕ → Logs → Logs
stop_socket none s = record s { streaming = false }
stop_socket (some socket) s =
    if any (λ n. n == socket) s.opened_sockets
    then record s {
      wire = s.wire ++ send_close socket ∷ close socket ∷ [];
      ws_ref = none;
      streaming = false;
    }
    else s

-- `stopStreaming`
pub stop_streaming : Logs → Logs
unfolding stop_socket
stop_streaming s = stop_socket s.ws_ref s

-- the clean-up of the effect
unmount_socket : Option ℕ → Logs → Logs
unmount_socket none s = s
unmount_socket (some socket) s = record s { wire = s.wire ++ close socket ∷ []; ws_ref = none }

pub unmount : Logs → Logs
unfolding unmount_socket
unmount s = unmount_socket s.ws_ref s

-- `onClick={streaming ? stopStreaming : startStreaming}`
pub click_stream_button : Logs → Logs
unfolding stop_streaming start_streaming
click_stream_button s = if s.streaming then stop_streaming s else start_streaming s

-- the `onCheckedChange` of the switch, and the `onValueChange` of the container select
pub set_show_timestamp : Bool → Logs → Logs
set_show_timestamp checked s = record s { show_timestamp = checked }

pub set_selected_containers : List Text → Logs → Logs
set_selected_containers value s = record s { selected_containers = value }

-- the `toggle` of a row, given its key: `next.has(k) ? next.delete(k) : next.add(k)`
pub toggle_expanded : Text → List Text → List Text
toggle_expanded key prev =
    if includes key prev then keep (λ k. not (text_eq k key)) prev else prev ++ key ∷ []

-- `filteredLines`
pub filtered_lines : List LogEntry → List Text → List LogEntry
filtered_lines lines [] = lines
filtered_lines lines (c ∷ cs) = keep (λ l. includes l.container_name (c ∷ cs)) lines

-- `new Set(names)`, in the order of the first occurrences
pub distinct_names : List Text → List Text → List Text
distinct_names seen [] = []
distinct_names seen (name ∷ names) =
    if includes name seen
    then distinct_names seen names
    else name ∷ distinct_names (name ∷ seen) names

-- `[...new Set(lines.map((l) => l.containerName))].sort()`, by the order of code units
pub available_containers : (Text → Text → Bool) → List LogEntry → List Text
unfolding distinct_names
available_containers code_unit_le lines =
    sort code_unit_le (distinct_names [] (map (λ (l : LogEntry). l.container_name) lines))
