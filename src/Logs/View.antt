-- ===== src/Logs/View.antt =====
-- What the component shows: the header, and the parts of a row. Class names and icons are left out,
-- but for the colour of a level.
pub mod Keys
use dockstack.Prelude.{
  ℕ, ◌+◌, ◌≡◌, refl, ap, Bool, true, false, not, ◌||◌, ◌&&◌, Option, none, some, List, [], ◌∷◌,
  ◌++◌, append_assoc, includes, text_eq, Text, codes, decimal, length, ◌==◌, if◌then◌else◌, arith,
}
use dockstack.Logs.{
  LogEntry, Output, stdout, stderr, Logs, filtered_lines, available_containers, toggle_expanded,
}
use dockstack.Logs.Json.{Json, Fields, ParsedLog, text, json, parse_json_log}

-- `getItemKey`: `timestamp + containerName + index`
pub item_key : LogEntry → ℕ → Text
item_key entry index = entry.timestamp ++ (entry.container_name ++ decimal index)

-- `LEVEL_COLORS[level] ?? "text-zinc-400"`
abbrev pub level_colors : List (Text × Text)
level_colors =
    (codes "trace", codes "text-zinc-500")
    ∷ (codes "debug", codes "text-zinc-400")
    ∷ (codes "info", codes "text-green-400")
    ∷ (codes "warn", codes "text-yellow-400")
    ∷ (codes "warning", codes "text-yellow-400")
    ∷ (codes "error", codes "text-red-400")
    ∷ (codes "fatal", codes "text-red-600")
    ∷ []

pub color_in : List (Text × Text) → Text → Text
color_in [] level = codes "text-zinc-400"
color_in ((name, color) ∷ more) level = if text_eq name level then color else color_in more level

-- the label of the container select
pub select_label : List Text → ℕ → Text
select_label value available =
    if length value == 0 || length value == available
    then codes "All containers"
    else decimal (length value) ++ codes " selected"

pub record Row : Type 0 where
  -- a row that can be clicked, with its `aria-expanded`
  pub expandable : Bool
  pub aria_expanded : Option Bool
  pub timestamp : Option Text
  pub container_name : Text
  pub level : Option (Text × Text)
  pub text_of : Text
  pub red : Bool
  pub fields : Option Fields

abbrev pub is_stderr : Output → Bool
is_stderr stderr = true
is_stderr stdout = false

-- `parsed.level &&` hides an empty level as well
level_cell : (Text → Text) → Option Text → Option (Text × Text)
unfolding color_in
level_cell to_upper_case none = none
level_cell to_upper_case (some []) = none
level_cell to_upper_case (some (c ∷ cs)) =
    some (to_upper_case (c ∷ cs), color_in level_colors (c ∷ cs))

-- What the platform provides: `JSON.parse`, with `none` where it throws, and the conversions.
pub record Platform : Type 0 where
  pub json_parse : Text → Option Json
  pub to_lower_case : Text → Text
  pub to_upper_case : Text → Text
  pub date_text : Text → Text

row_of : Platform → Bool → Bool → LogEntry → ParsedLog → Row
unfolding level_cell
row_of p show_timestamp is_expanded entry (text raw) = record {
  expandable = false;
  aria_expanded = none;
  timestamp = if show_timestamp then some (p.date_text entry.timestamp) else none;
  container_name = entry.container_name;
  level = none;
  text_of = raw;
  red = is_stderr entry.stream;
  fields = none;
}
row_of p show_timestamp is_expanded entry (json t level fields) = record {
  expandable = true;
  aria_expanded = some is_expanded;
  timestamp = if show_timestamp then some (p.date_text entry.timestamp) else none;
  container_name = entry.container_name;
  level = level_cell p.to_upper_case level;
  text_of = t;
  red = is_stderr entry.stream;
  fields = if is_expanded then some fields else none;
}

-- the row of the entry at an index of the filtered lines
pub row : Platform → Logs → LogEntry → ℕ → Row
row p s entry index =
    row_of p s.show_timestamp (includes (item_key entry index) s.expanded) entry
      (parse_json_log p.to_lower_case p.json_parse entry.message)

toggle_row : ParsedLog → Text → Logs → Logs
toggle_row (text raw) key s = s
toggle_row (json t level fields) key s = record s { expanded = toggle_expanded key s.expanded }

-- a click on the row, or Enter or the space bar on it
pub click_row : Platform → LogEntry → ℕ → Logs → Logs
click_row p entry index s =
    toggle_row (parse_json_log p.to_lower_case p.json_parse entry.message) (item_key entry index) s
