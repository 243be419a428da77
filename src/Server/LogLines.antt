-- ===== src/Server/LogLines.antt =====
-- internal/docker/logs.go (StreamStackLogs): the entries made of the lines of `docker logs --timestamps`.
pub mod Blank
use dockstack.Prelude.{
  ℕ, Bool, true, false, Option, none, some, List, [], ◌∷◌, Text, ◌==◌, if◌then◌else◌,
}
use dockstack.Logs.{LogEntry, Output}

-- the first of the two texts grows by a code unit
unfoldable pub put_front : ℕ → Text × Text → Text × Text
put_front c (before, after) = (c ∷ before, after)

-- `strings.Cut(line, sep)`
unfoldable pub cut : (sep : ℕ) → Text → Text × Text
cut sep [] = ([], [])
cut sep (c ∷ cs) = let rest = cut sep cs in if c == sep then ([], cs) else put_front c rest

-- the entry of the two parts of a line
unfoldable pub entry_of_parts : (container_name : Text) → Output → Text × Text → LogEntry
entry_of_parts container_name stream (timestamp, []) = record {
  container_name = container_name;
  message = timestamp;
  stream = stream;
  timestamp = [];
}
entry_of_parts container_name stream (timestamp, c ∷ message) = record {
  container_name = container_name;
  message = c ∷ message;
  stream = stream;
  timestamp = timestamp;
}

-- one turn of `emit`, none for a line that is skipped
unfoldable pub entry_of_line : (container_name : Text) → Output → (line : Text) → Option LogEntry
entry_of_line container_name stream [] = none
entry_of_line container_name stream (c ∷ cs) =
    some (entry_of_parts container_name stream (cut b' ' (c ∷ cs)))
