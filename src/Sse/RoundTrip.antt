-- ===== src/Sse/RoundTrip.antt =====
-- What the handler writes is what the reader yields.
use dockstack.Prelude.{
  suc, ◌+◌, ◌≡◌, ◌≢◌, refl, ap, some, List, [], ◌∷◌, ◌++◌, map, length, take, drop, concat, All,
  All-append, append_assoc, newline, Text, arith, ◌∙◌,
}
use dockstack.Sse.{
  index_of_blank, split_newline, data_prefix, chunk_payloads, drain, sse_stream, escape, frame,
  event_stream,
}
use dockstack.Sse.Drain.{index_of_blank_nil, drain_incomplete, drain_chunk}
use dockstack.Sse.Chunks.{sse_stream_lem}

abbrev pub NoNewline : Text → Type 0
NoNewline = All (λ c. c ≢ newline)

escape-NoNewline : (line : Text) → NoNewline (escape line)
unfolding escape
escape-NoNewline [] = tt
escape-NoNewline (c ∷ cs) = ground (arith, escape-NoNewline cs)

index_of_blank-blank :
    (x rest : Text) → NoNewline x → index_of_blank (x ++ newline ∷ newline ∷ rest) ≡ some (length x)
unfolding index_of_blank
index_of_blank-blank [] rest h = refl
index_of_blank-blank (c ∷ []) rest h = ground arith
index_of_blank-blank (c ∷ d ∷ x) rest (h, hs) = ground (arith, index_of_blank-blank (d ∷ x) rest hs)

take_prefix : (x y : Text) → take (length x) (x ++ y) ≡ x
take_prefix [] y = refl
take_prefix (c ∷ x) y = ap (λ t. c ∷ t) (take_prefix x y)

drop_blank : (x rest : Text) → drop (length x + 2) (x ++ newline ∷ newline ∷ rest) ≡ rest
drop_blank [] rest = refl
drop_blank (c ∷ x) rest =
    let e : suc (length x) + 2 ≡ suc (length x + 2) = omega arith in rw e (drop_blank x rest)

split_newline_one : (x : Text) → NoNewline x → split_newline x ≡ record { first = x; others = [] }
unfolding split_newline
split_newline_one [] h = refl
split_newline_one (c ∷ x) (h, hs) = ground (arith, split_newline_one x hs)

chunk_payloads_frame : (e : Text) → NoNewline e → chunk_payloads (data_prefix ++ e) ≡ e ∷ []
unfolding chunk_payloads
chunk_payloads_frame e h = rw (split_newline_one e h)

-- The framed line, with its blank line, in front of more text.
frame-append :
    (line rest : Text)
    → frame line ++ rest ≡ (data_prefix ++ escape line) ++ newline ∷ newline ∷ rest
unfolding frame
frame-append line rest =
    ap (λ t. data_prefix ++ t) (append_assoc (escape line) (newline ∷ newline ∷ []) rest)

drain-frame :
    (line rest : Text) → (drain (frame line ++ rest)).yielded ≡ escape line ∷ (drain rest).yielded
drain-frame line rest =
    let x = data_prefix ++ escape line in
    let clean : NoNewline x =
      All-append _ data_prefix (escape line) (ground arith) (escape-NoNewline line) in
    rw (
      frame-append line rest,
      drain_chunk (x ++ newline ∷ newline ∷ rest) (length x) (index_of_blank-blank x rest clean),
      take_prefix x (newline ∷ newline ∷ rest),
      drop_blank x rest,
      chunk_payloads_frame (escape line) (escape-NoNewline line),
    )

drain-event_stream : (lines : List Text) → (drain (event_stream lines)).yielded ≡ map escape lines
unfolding event_stream
drain-event_stream [] = rw (drain_incomplete [] index_of_blank_nil)
drain-event_stream (line ∷ lines) =
    drain-frame line (concat (map frame lines))
    ∙ ap (λ t. escape line ∷ t) (drain-event_stream lines)

-- If the decoded text of the reads is what the handler writes for some lines of a compose command,
-- the reader yields exactly those lines in order, each with its newlines escaped.
pub sse_stream-event_stream :
    (lines reads : List Text)
    → concat reads ≡ event_stream lines
    → sse_stream reads ≡ map escape lines
sse_stream-event_stream lines reads h = rw (sse_stream_lem reads, h) (drain-event_stream lines)

escape_clean : (line : Text) → NoNewline line → escape line ≡ line
unfolding escape
escape_clean [] h = refl
escape_clean (c ∷ cs) (h, hs) = ground (arith, escape_clean cs hs)

map-escape : (lines : List Text) → All NoNewline lines → map escape lines ≡ lines
map-escape [] h = refl
map-escape (line ∷ lines) (h, hs) = rw (escape_clean line h, map-escape lines hs)

-- If no line holds a newline and the decoded text of the reads is what the handler writes for the
-- lines, the reader yields the lines themselves.
sse_stream_roundtrip :
    (lines reads : List Text)
    → All NoNewline lines
    → concat reads ≡ event_stream lines
    → sse_stream reads ≡ lines
sse_stream_roundtrip lines reads clean h =
    sse_stream-event_stream lines reads h ∙ map-escape lines clean
