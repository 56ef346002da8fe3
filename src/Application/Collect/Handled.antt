-- ===== src/Application/Collect/Handled.antt =====
-- What the collect command does to the store and what it returns.
use mathlib.Core.List.{append_assoc, append-nil}
use codeburn_watcher.Prelude.{
  ◌≡◌, ◌≢◌, refl, sym, ap, ◌∙◌, Bool, false, not, Option, none, some, List, [], ◌∷◌, ◌++◌, map,
  foldl, arith, Text, if◌then◌else◌, ◌==◌, nat_eq, text_eq, length, select, pair_eq, Bool-cases,
  Option-cases, inl, inr,
}
use codeburn_watcher.Prelude.Results.{ok, err}
use codeburn_watcher.Shared.{Source, source_eq}
use codeburn_watcher.Collection.Event.{CollectResult, RawUsageEvent}
use codeburn_watcher.Store.{Engine, IsEngine, write_events}
use codeburn_watcher.Store.Write.{inserted_into, write_events-IsWritten}
use codeburn_watcher.Store.Runs.{write_events_twice}
use codeburn_watcher.Application.Collect.{
  write_batch, Report, usage_event_to_raw, Batch, is_other, add_report, no_batch, Outcome, returned,
  write_batch, handle,
}

-- The reports that count: without an error, and of the source that the command names, if it names one.
abbrev pub is_taken : Option Source → Report → Bool
is_taken source r = elim r.error [ some m ↦ false | none ↦ not (is_other source r.result.source) ]

abbrev pub events_of : List Report → List RawUsageEvent
events_of [] = []
events_of (r ∷ rs) = map usage_event_to_raw r.events ++ events_of rs

add_report_lem :
    (source : Option Source) (b : Batch) (r : Report)
    → add_report source b r ≡ (
        if is_taken source r
        then record {
          all_raw = b.all_raw ++ map usage_event_to_raw r.events;
          results = b.results ++ (r.result ∷ []);
        }
        else b)
unfolding add_report
add_report_lem source b r = elim (Option-cases r.error) [
  | inl p ↦ elim (Bool-cases (is_other source r.result.source)) [
    | inl q ↦ rw (p, add_report, q) refl
    | inr q ↦ rw (p, add_report, q) refl
  ]
  | inr (m, p) ↦ rw (p, add_report) refl
]

foldl-add_report :
    (source : Option Source) (rs : List Report) (b : Batch)
    → foldl (add_report source) b rs ≡ record {
      all_raw = b.all_raw ++ events_of (select (is_taken source) rs);
      results = b.results ++ map (λ r. r.result) (select (is_taken source) rs);
    }
unfolding select
foldl-add_report source [] b = ground (arith, append-nil b.all_raw, append-nil b.results)
foldl-add_report source (r ∷ rs) b = elim (Bool-cases (is_taken source r)) [
  | inl p ↦
      let b' : Batch = record {
        all_raw = b.all_raw ++ map usage_event_to_raw r.events;
        results = b.results ++ (r.result ∷ []);
      } in
      let rest = select (is_taken source) rs in
      let raw = append_assoc b.all_raw (map usage_event_to_raw r.events) (events_of rest) in
      let results = append_assoc b.results (r.result ∷ []) (map (λ r. r.result) rest) in
      rw (add_report_lem source b r, p)
        (foldl-add_report source rs b' ∙ λ i. record { all_raw = raw i; results = results i })
  | inr p ↦ rw (add_report_lem source b r, p) (foldl-add_report source rs b)
]

returned-ok :
    (results : List CollectResult) (error : Option Text) (l : List CollectResult)
    → returned results error ≡ ok l
    → (l ≡ results) × (error ≡ none)
returned-ok results none l h = (cc, refl)
returned-ok results (some m) l h = cc

returned-err :
    (results : List CollectResult) (error : Option Text) (m : Text)
    → returned results error ≡ err m
    → error ≢ none
returned-err results none m h = cc
returned-err results (some n) m h = λ q. cc

module _ {S : Type 0} (e : Engine S) (laws : IsEngine e) (marshal : List Text → Text) where
  -- What the part after the loop does with the events `raw`.
  record IsDone (s : S) (raw : List RawUsageEvent) (results : List CollectResult) (out : Outcome S)
      : Type 0 where
    kept :
        (l : List CollectResult)
        → out.answer ≡ ok l
        → (l ≡ results)
          × (out.db ≡ (write_events e marshal s raw).db)
          × ((write_events e marshal s raw).error ≡ none)
    undone : (m : Text) → out.answer ≡ err m → out.db ≡ s

  write_batch-IsDone :
      (raw : List RawUsageEvent) (results : List CollectResult) (s : S)
      → IsDone s raw results (write_batch e marshal s (record { all_raw = raw; results = results }))
  unfolding write_batch write_events
  write_batch-IsDone [] results s = record { kept = λ l h. (cc, refl, refl); undone = λ m h. refl }
  write_batch-IsDone (x ∷ xs) results s =
      let some_raw : (length (x ∷ xs) == 0) ≡ false = ground arith in
      let w = write_events-IsWritten e marshal laws s (x ∷ xs) in
      rw some_raw (record {
        kept = λ l h.
            let (same, fine) = returned-ok results (write_events e marshal s (x ∷ xs)).error l h in
            (same, refl, fine);
        undone =
            λ m h. w.undone (returned-err results (write_events e marshal s (x ∷ xs)).error m h);
      })

  handle-IsDone :
      (source : Option Source) (reports : List Report) (s : S)
      → let taken = select (is_taken source) reports in
        IsDone s (events_of taken) (map (λ r. r.result) taken) (handle e marshal source reports s)
  unfolding handle
  handle-IsDone source reports s =
      let taken = select (is_taken source) reports in
      rw (foldl-add_report source reports no_batch)
        (write_batch-IsDone (events_of taken) (map (λ r. r.result) taken) s)

  -- The command takes the reports without an error, and of the named source if it names one. If it
  -- returns results, they are those of these reports in their order, and the table holds besides its old
  -- rows the events of these reports whose pairs of source and key were new, each pair once; if it
  -- returns an error, the database is as before.
  pub handle-taken :
      (source : Option Source) (reports : List Report) (s : S)
      → let out = handle e marshal source reports s in
        let taken = select (is_taken source) reports in
        ((results : List CollectResult)
          → out.answer ≡ ok results
          → (results ≡ map (λ r. r.result) taken)
            × (e.rows out.db ≡ inserted_into e marshal (e.rows s) (events_of taken)))
        × ((m : Text) → out.answer ≡ err m → out.db ≡ s)
  handle-taken source reports s =
      let done = handle-IsDone source reports s in
      let raw = events_of (select (is_taken source) reports) in
      (
        λ results h.
            let (same, db, fine) = done.kept results h in
            (same, ap e.rows db ∙ (write_events-IsWritten e marshal laws s raw).rows_eq fine),
        done.undone,
      )

  -- To collect the same reports again, where both commands return results, leaves the rows as they are;
  -- yet the second returns the same results as the first, with the same numbers of inserted events.
  pub handle_twice :
      (source : Option Source) (reports : List Report) (s : S) (results : List CollectResult)
      → let first = handle e marshal source reports s in
        let second = handle e marshal source reports first.db in
        (again : List CollectResult)
        → first.answer ≡ ok results
        → second.answer ≡ ok again
        → (e.rows second.db ≡ e.rows first.db) × (again ≡ results)
  handle_twice source reports s results again h k =
      let first = handle e marshal source reports s in
      let raw = events_of (select (is_taken source) reports) in
      let (same, db, fine) = (handle-IsDone source reports s).kept results h in
      let (same', db', fine') = (handle-IsDone source reports first.db).kept again k in
      let twice = write_events_twice e laws marshal s raw fine (rw db at fine') in
      (ap e.rows db' ∙ rw db (twice.0), same' ∙ sym same)
