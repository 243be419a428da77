-- ===== src/Tests/LogsTests.antt =====
-- The log view on a few entries; timestamps are compared by their length.
use mathlib.Core.List.{Perm}
use dockstack.Prelude.{
  ◌≡◌, ◌↔◌, refl, Bool, true, false, Option, none, some, List, [], ◌∷◌, map, Text, codes, length,
  leb, arith,
}
use dockstack.Prelude.Sorting.{IsOrder, IsSorted, sort}
use dockstack.Logs.{
  LogEntry, stdout, log, Logs, mount, start_streaming, click_stream_button, on_close, unmount,
  earlier, connect, send_close, close,
}
use dockstack.Logs.Order.{on_messages, on_messages-start_streaming, on_messages-IsSorted}
use dockstack.Logs.Socket.{opened, click, closed, run, IsCoupled, run-IsCoupled, on_close_stale}
use dockstack.Logs.Json.{Json, string, number, object, Fields, end, field, parse_json_log, json}
use dockstack.Logs.Json.Parsing.{Shows, parse_json_log_iff}
use dockstack.Logs.View.{item_key, Platform}
use dockstack.Logs.View.Keys.{item_key_clash}

abbrev by_length : Text → Text → Bool
by_length a b = leb (length a) (length b)

by_length-IsOrder : IsOrder by_length
by_length-IsOrder = record { total = λ a b h. ground arith; trans = λ a b c h k. ground arith }

abbrev entry : Text → Text → LogEntry
entry name timestamp = record {
  container_name = name;
  message = codes "hi";
  stream = stdout;
  timestamp = timestamp;
}

abbrev arrivals : List LogEntry
arrivals = entry (codes "b") (codes "22") ∷ entry (codes "a") (codes "1") ∷ []

abbrev page : Logs
page = record {
  stack_name = codes "web";
  streaming = false;
  lines = [];
  show_timestamp = true;
  expanded = [];
  selected_containers = [];
  ws_ref = none;
  opened_sockets = [];
  next_socket = 0;
  wire = [];
}

on_messages-start_streaming_example :
    (on_messages by_length (map log arrivals) (start_streaming page)).lines
    ≡ sort (earlier by_length) arrivals
on_messages-start_streaming_example =
    on_messages-start_streaming by_length by_length-IsOrder arrivals page

on_messages-IsSorted_example :
    IsSorted
      (earlier by_length)
      (on_messages by_length (map log arrivals) (start_streaming page)).lines
    × Perm (on_messages by_length (map log arrivals) (start_streaming page)).lines arrivals
on_messages-IsSorted_example = on_messages-IsSorted by_length by_length-IsOrder arrivals page

run-IsCoupled_example :
    IsCoupled (
      run by_length
        (click ∷ click ∷ opened 0 ∷ click ∷ click ∷ closed 0 ∷ [])
        (mount (codes "web")))
run-IsCoupled_example =
    run-IsCoupled by_length (click ∷ click ∷ opened 0 ∷ click ∷ click ∷ closed 0 ∷ []) (codes "web")

abbrev streaming_page : Logs
streaming_page = record page {
  streaming = true;
  ws_ref = some 0;
  opened_sockets = 0 ∷ [];
  next_socket = 1;
}

on_close_stale_example :
    let t = on_close 0 (click_stream_button (click_stream_button streaming_page)) in
    (t.streaming ≡ false)
    × (t.ws_ref ≡ none)
    × (t.wire ≡ send_close 0 ∷ close 0 ∷ connect 1 (codes "web") ∷ [])
    × (unmount t ≡ t)
on_close_stale_example = on_close_stale streaming_page 0 refl refl refl

abbrev logged : Fields
logged = field (codes "msg") (string (codes "up")) (field (codes "port") (number (codes "80")) end)

abbrev parser : Text → Option Json
parser t = some (object logged)

abbrev platform : Platform
platform = record {
  json_parse = parser;
  to_lower_case = λ t. t;
  to_upper_case = λ t. t;
  date_text = λ t. t;
}

parse_json_log_iff_example :
    (parse_json_log (λ t. t) parser (codes "{}")
      ≡ json (codes "up") none (field (codes "port") (number (codes "80")) end))
    ↔ Shows
        (λ t. t)
        (parser (codes "{}"))
        (codes "up")
        none
        (field (codes "port") (number (codes "80")) end)
parse_json_log_iff_example =
    parse_json_log_iff (λ t. t) parser (codes "{}") (codes "up") none
      (field (codes "port") (number (codes "80")) end)

item_key_clash_example :
    item_key (entry (codes "app-11") (codes "t")) 0
    ≡ item_key (entry (codes "app-1") (codes "t")) 10
item_key_clash_example =
    item_key_clash (entry (codes "app-11") (codes "t")) (entry (codes "app-1") (codes "t")) refl
      refl
