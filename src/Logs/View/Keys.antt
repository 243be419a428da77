-- ===== src/Logs/View/Keys.antt =====
-- The keys of the rows, and what a click on a row changes.
use mathlib.Core.Option
use dockstack.Prelude.{
  ℕ, ◌≡◌, ◌≢◌, refl, ap, not, some, List, ◌++◌, append_assoc, includes, text_eq, text_eq_iff,
  text_eq_self, Text, codes, decimal, Bool-cases, inl, inr,
}
use dockstack.Logs.{LogEntry, Logs, toggle_expanded}
use dockstack.Logs.Rows.{includes-toggle_expanded}
use dockstack.Logs.Json.{ParsedLog, text, json, parse_json_log}
use dockstack.Logs.View.{item_key, Platform, row_of, row, toggle_row, click_row}

-- Two rows can have one key: a container whose name ends in 1, at the first row, and the one named
-- without that digit, at the eleventh, for entries of the same time.
pub item_key_clash :
    (a b : LogEntry)
    → a.timestamp ≡ b.timestamp
    → a.container_name ≡ b.container_name ++ codes "1"
    → item_key a 0 ≡ item_key b 10
unfolding item_key decimal
item_key_clash a b t n =
    rw (t, n) (ap (λ x. b.timestamp ++ x) (append_assoc b.container_name (codes "1") (codes "0")))

includes-toggle_expanded_self :
    (k : Text) (prev : List Text) → includes k (toggle_expanded k prev) ≡ not (includes k prev)
includes-toggle_expanded_self k prev = rw (includes-toggle_expanded k k prev, text_eq_self k)

includes-toggle_expanded_ne :
    (j k : Text) (prev : List Text) → k ≢ j → includes j (toggle_expanded k prev) ≡ includes j prev
includes-toggle_expanded_ne j k prev ne = elim (Bool-cases (text_eq k j)) [
  | inl e ↦ absurd (ne ((text_eq_iff k j).0 e))
  | inr e ↦ rw (includes-toggle_expanded j k prev, e)
]

toggle_row-flips :
    (p : Platform) (q : ParsedLog) (k : Text) (e : LogEntry) (s : Logs)
    → (row_of p s.show_timestamp (includes k (toggle_row q k s).expanded) e q).aria_expanded
      ≡ Option.map not (row_of p s.show_timestamp (includes k s.expanded) e q).aria_expanded
unfolding row_of toggle_row
toggle_row-flips p (text raw) k e s = refl
toggle_row-flips p (json t level fields) k e s =
    ap some (includes-toggle_expanded_self k s.expanded)

toggle_row-includes_ne :
    (q : ParsedLog) (j k : Text) (s : Logs)
    → k ≢ j
    → includes j (toggle_row q k s).expanded ≡ includes j s.expanded
unfolding toggle_row
toggle_row-includes_ne (text raw) j k s ne = refl
toggle_row-includes_ne (json t level fields) j k s ne =
    includes-toggle_expanded_ne j k s.expanded ne

toggle_row-show_timestamp :
    (q : ParsedLog) (k : Text) (s : Logs) → (toggle_row q k s).show_timestamp ≡ s.show_timestamp
unfolding toggle_row
toggle_row-show_timestamp (text raw) k s = refl
toggle_row-show_timestamp (json t level fields) k s = refl

-- A click on a row flips whether it is expanded if it shows a JSON line, and changes no row that
-- has another key.
row-click_row :
    (p : Platform) (s : Logs) (e : LogEntry) (i : ℕ)
    → ((row p (click_row p e i s) e i).aria_expanded ≡ Option.map not (row p s e i).aria_expanded)
      × ((f : LogEntry) (j : ℕ)
          → item_key e i ≢ item_key f j
          → row p (click_row p e i s) f j ≡ row p s f j)
unfolding row click_row
row-click_row p s e i =
    let q = parse_json_log p.to_lower_case p.json_parse e.message in
    let k = item_key e i in
    (
      rw (toggle_row-show_timestamp q k s) (toggle_row-flips p q k e s),
      (λ f j ne.
          rw (toggle_row-show_timestamp q k s, toggle_row-includes_ne q (item_key f j) k s ne)),
    )
