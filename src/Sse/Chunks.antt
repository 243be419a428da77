-- ===== src/Sse/Chunks.antt =====
-- The lines that the reader yields depend on the decoded text only, not on how it arrived.
use dockstack.Prelude.{
  ℕ, ◌+◌, ◌≡◌, refl, sym, inl, inr, none, List, [], ◌∷◌, ◌++◌, length, length-drop, take, drop,
  concat, append_assoc, append-nil, Text, arith, Option-cases, zero, suc, ◌<◌,
}
use dockstack.Sse.{index_of_blank, chunk_payloads, drain, read_from, sse_stream}
use dockstack.Sse.Drain.{
  index_of_blank_nil, index_of_blank-lt, index_of_blank-append, drain_incomplete, drain_chunk,
  take-append, drop-append,
}

-- Draining what is left together with more text is draining the whole at once.
abbrev Resumes : Text → Text → Type 0
Resumes b v = (drain (b ++ v)).yielded ≡ (drain b).yielded ++ (drain ((drain b).rest ++ v)).yielded

abbrev RestResumes : Text → Text → Type 0
RestResumes b v = (drain (b ++ v)).rest ≡ (drain ((drain b).rest ++ v)).rest

drain-append_below : (n : ℕ) (b v : Text) → length b < n → Resumes b v × RestResumes b v
drain-append_below zero b v h = elim h [ ]
drain-append_below (suc n) b v h = elim (Option-cases (index_of_blank b)) [
  | inl e ↦ rw (drain_incomplete b e) (refl, refl)
  | inr (i, e) ↦
      let lt = index_of_blank-lt b i e in
      let e' = index_of_blank-append b v i e in
      let (ih, ih') =
        drain-append_below n (drop (i + 2) b) v (omega (arith, length-drop (i + 2) b)) in
      rw
        (
          drain_chunk b i e,
          drain_chunk (b ++ v) i e',
          take-append i b v (omega arith),
          drop-append (i + 2) b v lt,
          ih,
          ih',
        )
        (
          sym (
              append_assoc (chunk_payloads (take i b)) (drain (drop (i + 2) b)).yielded
                (drain ((drain (drop (i + 2) b)).rest ++ v)).yielded),
          refl,
        )
]

drain-append : (b v : Text) → Resumes b v × RestResumes b v
drain-append b v = drain-append_below (suc (length b)) b v (omega arith)

drain_rest_below : (n : ℕ) (b : Text) → length b < n → index_of_blank (drain b).rest ≡ none
drain_rest_below zero b h = elim h [ ]
drain_rest_below (suc n) b h = elim (Option-cases (index_of_blank b)) [
  | inl e ↦ rw (drain_incomplete b e) e
  | inr (i, e) ↦
      let lt = index_of_blank-lt b i e in
      rw (drain_chunk b i e)
        (drain_rest_below n (drop (i + 2) b) (omega (arith, length-drop (i + 2) b)))
]

-- However much text has arrived, a turn of the reader ends with no complete chunk left in the buffer.
pub drain_rest : (b : Text) → index_of_blank (drain b).rest ≡ none
drain_rest b = drain_rest_below (suc (length b)) b (omega arith)

-- Reading in pieces yields what reading the whole text at once yields.
read_from-concat :
    (b : Text) (reads : List Text)
    → index_of_blank b ≡ none
    → read_from b reads ≡ (drain (b ++ concat reads)).yielded
unfolding read_from
read_from-concat b [] h = rw (append-nil, drain_incomplete b h)
read_from-concat b (v ∷ reads) h = rw (
  read_from-concat (drain (b ++ v)).rest reads (drain_rest (b ++ v)),
  ← append_assoc b v (concat reads),
  (drain-append (b ++ v) (concat reads)).0,
)

pub sse_stream_lem : (reads : List Text) → sse_stream reads ≡ (drain (concat reads)).yielded
unfolding sse_stream
sse_stream_lem reads = read_from-concat [] reads index_of_blank_nil

-- Two ways to cut one decoded text into reads yield the same lines: no line is lost, doubled or
-- split where a read ends.
pub sse_stream-concat :
    (reads reads' : List Text) → concat reads ≡ concat reads' → sse_stream reads ≡ sse_stream reads'
sse_stream-concat reads reads' h = rw (sse_stream_lem reads, sse_stream_lem reads', h)
