-- ===== src/Server/LogLines/Blank.antt =====
-- Where the log view puts the lines of the server.
use dockstack.Prelude.{
  ℕ, ◌≡◌, refl, ap, ◌∙◌, Bool, false, some, List, [], ◌∷◌, ◌++◌, All, Text, arith,
}
use dockstack.Prelude.Sorting.{
  IsOrder, sort, insert_last, sort-sort_append, sort-append_one, All-sort,
}
use dockstack.Prelude.Splitting.{Lacks}
use dockstack.Logs.{LogEntry, Output, earlier, receive}
use dockstack.Server.LogLines.{put_front, cut, entry_of_parts, entry_of_line}

cut-append :
    (sep : ℕ) (stamp message : Text)
    → Lacks sep stamp
    → cut sep (stamp ++ sep ∷ message) ≡ (stamp, message)
unfolding cut put_front
cut-append sep [] message h = ground arith
cut-append sep (c ∷ stamp) message (h, hs) = rw (h, cut-append sep stamp message hs) refl

module _ (container_name : Text) (stream : Output) where
  -- A line with a stamp and a message.
  unfoldable pub dated : (timestamp message : Text) → LogEntry
  dated timestamp message = record {
    container_name = container_name;
    message = message;
    stream = stream;
    timestamp = timestamp;
  }

  entry_of_line-append :
      (c : ℕ) (stamp message : Text)
      → Lacks b' ' (c ∷ stamp)
      → entry_of_line container_name stream (c ∷ stamp ++ b' ' ∷ message)
        ≡ some (entry_of_parts container_name stream (c ∷ stamp, message))
  unfolding entry_of_line
  entry_of_line-append c stamp message h =
      ap (λ parts. some (entry_of_parts container_name stream parts))
        (cut-append b' ' (c ∷ stamp) message h)

  insert_last_first :
      (le : Text → Text → Bool) (e : LogEntry) (xs : List LogEntry)
      → All (λ (y : LogEntry). earlier le y e ≡ false) xs
      → insert_last (earlier le) e xs ≡ e ∷ xs
  unfolding insert_last
  insert_last_first le e [] h = refl
  insert_last_first le e (y ∷ xs) (h, hs) = rw h refl

  -- A line with a stamp and a message becomes an entry with both. But the empty line of a container, which
  -- comes as its stamp and a space, becomes an entry without a time whose message is the stamp; if the
  -- comparator is total and transitive and puts the empty text before the times of the entries on display,
  -- it is shown before all of them.
  pub receive-blank_line :
      (le : Text → Text → Bool) (prev : List LogEntry) (c d : ℕ) (stamp message : Text)
      → Lacks b' ' (c ∷ stamp)
      → IsOrder (earlier le)
      → All (λ (y : LogEntry). le y.timestamp [] ≡ false) prev
      → (entry_of_line container_name stream (c ∷ stamp ++ b' ' ∷ d ∷ message)
          ≡ some (dated (c ∷ stamp) (d ∷ message)))
        × (entry_of_line container_name stream (c ∷ stamp ++ b' ' ∷ [])
            ≡ some (dated [] (c ∷ stamp)))
        × (receive le (sort (earlier le) prev) (dated [] (c ∷ stamp))
            ≡ dated [] (c ∷ stamp) ∷ sort (earlier le) prev)
  unfolding entry_of_parts dated receive
  receive-blank_line le prev c d stamp message plain o late =
      let blank : LogEntry = dated [] (c ∷ stamp) in
      (
        entry_of_line-append c stamp (d ∷ message) plain,
        entry_of_line-append c stamp [] plain,
        sort-sort_append (earlier le) o prev blank
            ∙ sort-append_one (earlier le) o prev blank
            ∙ insert_last_first le blank (sort (earlier le) prev)
                (All-sort (earlier le) o (λ (y : LogEntry). le y.timestamp [] ≡ false) prev late),
      )
