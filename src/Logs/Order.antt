-- ===== src/Logs/Order.antt =====
-- The lines on display, against the entries that arrived.
use mathlib.Core.List.{Perm}
use dockstack.Prelude.{
  ◌≡◌, refl, Bool, List, [], ◌∷◌, ◌++◌, map, includes, append_assoc, append-nil, Text,
}
use dockstack.Prelude.Sorting.{
  IsOrder, IsSorted, sort, sort-perm, sort-IsSorted, sort-sort_append, keep-sort,
}
use dockstack.Logs.{
  LogEntry, Message, log, Logs, start_streaming, earlier, receive, on_message, filtered_lines,
}

-- The messages of one socket, in the order in which they arrive.
pub on_messages : (Text → Text → Bool) → List Message → Logs → Logs
on_messages le [] s = s
on_messages le (m ∷ ms) s = on_messages le ms (on_message le m s)

module _ (le : Text → Text → Bool) (o : IsOrder le) where
  earlier-IsOrder : IsOrder (earlier le)
  earlier-IsOrder = record {
    total = λ a b h. o.total a.timestamp b.timestamp h;
    trans = λ a b c h k. o.trans a.timestamp b.timestamp c.timestamp h k;
  }

  on_messages-lines :
      (xs es : List LogEntry) (s : Logs)
      → s.lines ≡ sort (earlier le) xs
      → (on_messages le (map log es) s).lines ≡ sort (earlier le) (xs ++ es)
  unfolding on_messages on_message receive
  on_messages-lines xs [] s h = rw append-nil h
  on_messages-lines xs (e ∷ es) s h = rw (← append_assoc xs (e ∷ []) es) (
      on_messages-lines (xs ++ e ∷ []) es (on_message le (log e) s)
        (rw h (sort-sort_append (earlier le) earlier-IsOrder xs e)))

  -- If the comparator is total and transitive, then whatever was on display before, once streaming
  -- starts again and the entries `es` arrive, the lines are the stable sort of `es` by timestamp:
  -- sorting at each arrival loses, doubles and reorders nothing.
  pub on_messages-start_streaming :
      (es : List LogEntry) (s : Logs)
      → (on_messages le (map log es) (start_streaming s)).lines ≡ sort (earlier le) es
  unfolding start_streaming sort
  on_messages-start_streaming es s = on_messages-lines [] es (start_streaming s) refl

  -- If the comparator is total and transitive, then whatever was on display before, once streaming
  -- starts again and the entries `es` arrive, the lines are in the order of their timestamps and are
  -- those entries, each as often as it arrived.
  pub on_messages-IsSorted :
      (es : List LogEntry) (s : Logs)
      → let shown = (on_messages le (map log es) (start_streaming s)).lines in
        IsSorted (earlier le) shown × Perm shown es
  on_messages-IsSorted es s =
      rw (on_messages-start_streaming es s)
        (sort-IsSorted (earlier le) earlier-IsOrder es, sort-perm (earlier le) es)

  -- If the comparator is total and transitive, then once streaming starts again and the entries `es`
  -- arrive, what is shown for a selection of containers is the stable sort of what arrived from them,
  -- or of all entries if none is selected.
  filtered_lines-on_messages :
      (es : List LogEntry) (s : Logs) (selected : List Text)
      → filtered_lines (on_messages le (map log es) (start_streaming s)).lines selected
        ≡ sort (earlier le) (filtered_lines es selected)
  unfolding filtered_lines
  filtered_lines-on_messages es s [] = on_messages-start_streaming es s
  filtered_lines-on_messages es s (c ∷ cs) =
      rw (on_messages-start_streaming es s)
        (keep-sort (earlier le) earlier-IsOrder (λ l. includes l.container_name (c ∷ cs)) es)
