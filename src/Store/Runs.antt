-- ===== src/Store/Runs.antt =====
-- The table after any sequence of writes, some of which fail.
use codeburn_watcher.Prelude.{
  ◌≡◌, ◌≢◌, sym, ap, ◌∙◌, none, List, [], ◌++◌, map, foldl-append, arith, Text, firsts_by,
  firsts_by-HasDistinct, HasDistinct, insert_new, foldl-insert_new_start, foldl-insert_new_twice,
  pair_eq, text_eq, length,
}
use mathlib.Core.List.{map-append}
use codeburn_watcher.Shared.{source_eq}
use codeburn_watcher.Collection.Event.{RawUsageEvent}
use codeburn_watcher.Store.{unique_key, Engine, IsEngine, row_of, write_events}
use codeburn_watcher.Store.Write.{inserted_into, write_events-IsWritten}

-- The states of the database, and the events of the writes that were committed on the way there.
pub data Run {S : Type 0} (e : Engine S) (marshal : List Text → Text)
    : S → List RawUsageEvent → Type 0 where
  opened : (s : S) → e.rows s ≡ [] → Run e marshal s []
  committed :
      {s : S} {log : List RawUsageEvent}
      → Run e marshal s log
      → (events : List RawUsageEvent) → (write_events e marshal s events).error ≡ none
      → Run e marshal (write_events e marshal s events).db (log ++ events)
  undone :
      {s : S} {log : List RawUsageEvent}
      → Run e marshal s log
      → (events : List RawUsageEvent) → (write_events e marshal s events).error ≢ none
      → Run e marshal (write_events e marshal s events).db log

module _ {S : Type 0} (e : Engine S) (laws : IsEngine e) (marshal : List Text → Text) where
  inserted_append :
      (log events : List RawUsageEvent)
      → inserted_into e marshal (inserted_into e marshal [] log) events
        ≡ inserted_into e marshal [] (log ++ events)
  inserted_append log events = rw map-append (
      sym (
        foldl-append (insert_new unique_key) [] (map (row_of marshal) log)
          (map (row_of marshal) events)))

  rows-Run :
      {s : S} {log : List RawUsageEvent}
      → Run e marshal s log
      → e.rows s ≡ inserted_into e marshal [] log
  rows-Run (opened s h) = h
  rows-Run (committed {s} {log} r events h) =
      (write_events-IsWritten e marshal laws s events).rows_eq h
      ∙ ap (λ l. inserted_into e marshal l events) (rows-Run r)
      ∙ inserted_append log events
  rows-Run (undone {s} {log} r events h) =
      ap e.rows ((write_events-IsWritten e marshal laws s events).undone h) ∙ rows-Run r

  -- After any sequence of writes to an empty table, committed or failed, the table holds one row for each
  -- pair of a source and an event key: the row of the first event with this pair in the committed writes,
  -- in the order of these events; and no pair stands twice.
  pub write_events-refines :
      {s : S} {log : List RawUsageEvent}
      → Run e marshal s log
      → (e.rows s ≡ firsts_by unique_key (map (row_of marshal) log))
        × HasDistinct unique_key (e.rows s)
  write_events-refines {s} {log} r =
      let same = rows-Run r ∙ foldl-insert_new_start unique_key (map (row_of marshal) log) in
      (same, rw same (firsts_by-HasDistinct unique_key (map (row_of marshal) log)))

  -- A second write of the same events inserts none: if both writes return without an error, the second
  -- returns zero and leaves the rows as they are.
  pub write_events_twice :
      (s : S) (events : List RawUsageEvent)
      → let first = write_events e marshal s events in
        first.error ≡ none
        → (write_events e marshal first.db events).error ≡ none
        → (e.rows (write_events e marshal first.db events).db ≡ e.rows first.db)
          × ((write_events e marshal first.db events).inserted ≡ 0)
  write_events_twice s events h k =
      let first = write_events e marshal s events in
      let a = write_events-IsWritten e marshal laws s events in
      let b = write_events-IsWritten e marshal laws first.db events in
      let same : e.rows (write_events e marshal first.db events).db ≡ e.rows first.db =
        b.rows_eq k
        ∙ ap (λ l. inserted_into e marshal l events) (a.rows_eq h)
        ∙ foldl-insert_new_twice unique_key (map (row_of marshal) events) (e.rows s)
        ∙ sym (a.rows_eq h) in
      (same, omega (arith, b.count_eq k, ap length same))
