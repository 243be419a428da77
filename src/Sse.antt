-- ===== src/Sse.antt =====
-- web/src/lib/api/sse.ts, the reader of the event streams, and the writer that feeds it
-- (internal/server/api/stacks.go, handleStackActionStream).
pub mod Drain
pub mod Chunks
pub mod RoundTrip
use dockstack.Prelude.{
  ℕ, zero, suc, ◌+◌, Bool, true, false, Option, none, some, List, [], ◌∷◌, ◌++◌, map, length, take,
  drop, concat, starts_with, codes, newline, Text, ◌==◌, if◌then◌else◌,
}

-- `buffer.indexOf("\n\n")`, with `none` for -1
pub index_of_blank : Text → Option ℕ
index_of_blank [] = none
index_of_blank (c ∷ cs) =
    if starts_with (newline ∷ newline ∷ []) (c ∷ cs)
    then some 0
    else elim (index_of_blank cs) [ none ↦ none | some i ↦ some (suc i) ]

-- `chunk.split("\n")`, never empty: the line that is open, and those behind it
pub record Split : Type 0 where
  pub first : Text
  pub others : List Text

pub split_newline : Text → Split
split_newline [] = record { first = []; others = [] }
split_newline (c ∷ cs) =
    let s = split_newline cs in
    if c == newline
    then record { first = []; others = s.first ∷ s.others }
    else record { first = c ∷ s.first; others = s.others }

abbrev pub split_lines : Text → List Text
split_lines chunk = let s = split_newline chunk in s.first ∷ s.others

abbrev pub data_prefix : Text
data_prefix = codes "data: "

-- the `for` over the lines of a chunk: what is yielded
pub payloads : List Text → List Text
payloads [] = []
payloads (line ∷ lines) =
    if starts_with data_prefix line then drop 6 line ∷ payloads lines else payloads lines

pub chunk_payloads : Text → List Text
unfolding payloads split_newline
chunk_payloads chunk = payloads (split_lines chunk)

-- what a turn of the reader yields, and the buffer that it leaves
pub record Drained : Type 0 where
  pub yielded : List Text
  pub rest : Text

-- the inner `while`: it takes complete chunks off the buffer
pub drain_loop : ℕ → Text → Drained
drain_loop zero buffer = record { yielded = []; rest = buffer }
drain_loop (suc fuel) buffer = elim (index_of_blank buffer) [
  | none ↦ record { yielded = []; rest = buffer }
  | some idx ↦
      let d = drain_loop fuel (drop (idx + 2) buffer) in
      record { yielded = chunk_payloads (take idx buffer) ++ d.yielded; rest = d.rest }
]

-- each round takes at least two characters off, so as many rounds as characters are enough
pub drain : Text → Drained
unfolding drain_loop
drain buffer = drain_loop (length buffer) buffer

-- the outer `for (;;)`, over the decoded texts of the successive reads, until `done`
pub read_from : Text → List Text → List Text
read_from buffer [] = []
read_from buffer (value ∷ reads) =
    let d = drain (buffer ++ value) in d.yielded ++ read_from d.rest reads

unfoldable pub sse_stream : List Text → List Text
sse_stream reads = read_from [] reads

-- `sseStream` as a whole: `none` where it throws since the answer is not `ok`
pub sse_response : (ok : Bool) → List Text → Option (List Text)
unfolding sse_stream
sse_response true reads = some (sse_stream reads)
sse_response false reads = none

pub data StackAction : Type 0 where
  up stop down restart pull update : StackAction

abbrev pub action_name : StackAction → Text
action_name up = codes "up"
action_name stop = codes "stop"
action_name down = codes "down"
action_name restart = codes "restart"
action_name pull = codes "pull"
action_name update = codes "update"

-- the address that `streamStackAction` posts to; `encode` is `encodeURIComponent`
unfoldable pub stream_stack_action : (Text → Text) → Text → StackAction → Text
stream_stack_action encode stack_name action =
    codes "/api/stacks/"
    ++ (encode stack_name ++ (codes "/" ++ (action_name action ++ codes "/stream")))

-- `strings.ReplaceAll(line, "\n", "\\n")`
unfoldable pub escape : Text → Text
escape [] = []
escape (c ∷ cs) = if c == newline then codes "\\n" ++ escape cs else c ∷ escape cs

-- `"data: " + escaped + "\n\n"`
unfoldable pub frame : Text → Text
unfolding escape
frame line = data_prefix ++ (escape line ++ newline ∷ newline ∷ [])

-- the bytes that the handler writes for the lines of a compose command
unfoldable pub event_stream : List Text → Text
unfolding frame
event_stream lines = concat (map frame lines)
