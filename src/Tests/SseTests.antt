-- ===== src/Tests/SseTests.antt =====
-- The event stream, on two frames that arrive in three pieces.
use dockstack.Prelude.{◌≡◌, refl, none, List, [], ◌∷◌, map, concat, Text, codes}
use dockstack.Sse.{index_of_blank, drain, sse_stream, escape, event_stream}
use dockstack.Sse.Chunks.{drain_rest, sse_stream-concat}
use dockstack.Sse.RoundTrip.{sse_stream-event_stream}

abbrev pieces : List Text
pieces = codes "data: o" ∷ codes "ne\n" ∷ codes "\ndata: two\n\n" ∷ []

abbrev whole : List Text
whole = codes "data: one\n\ndata: two\n\n" ∷ []

abbrev lines : List Text
lines = codes "one" ∷ codes "two" ∷ []

drain_rest_example : index_of_blank (drain (codes "data: a\n\ndata: b")).rest ≡ none
drain_rest_example = drain_rest (codes "data: a\n\ndata: b")

sse_stream-concat_example : sse_stream pieces ≡ sse_stream whole
sse_stream-concat_example = sse_stream-concat pieces whole refl

sent : concat pieces ≡ event_stream lines
unfolding event_stream
sent = refl

sse_stream-event_stream_example : sse_stream pieces ≡ map escape lines
sse_stream-event_stream_example = sse_stream-event_stream lines pieces sent
