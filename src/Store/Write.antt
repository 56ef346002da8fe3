-- ===== src/Store/Write.antt =====
-- What WriteEvents does to the table: the first event of each key stays, and an error changes nothing.
use codeburn_watcher.Prelude.{
  ℕ, ◌+◌, ◌≡◌, ◌≢◌, refl, sym, ap, ◌∙◌, none, List, [], ◌∷◌, map, foldl, arith, Text, text_eq,
  insert_new, pair_eq, length, inl, inr,
}
use codeburn_watcher.Prelude.Results.{Result-cases}
use codeburn_watcher.Shared.{source_eq}
use codeburn_watcher.Collection.Event.{RawUsageEvent}
use codeburn_watcher.Store.{
  Row, unique_key, Engine, IsEngine, Written, Loop, finished, failed, row_of, insert_all,
  commit_all, write_events,
}

module _ {S : Type 0} (e : Engine S) (marshal : List Text → Text) where
  -- The rows of a list of events, inserted one after the other.
  abbrev pub inserted_into : List Row → List RawUsageEvent → List Row
  inserted_into rows events = foldl (insert_new unique_key) rows (map (row_of marshal) events)

  -- The outcome of a write: without an error the rows are inserted and the new ones counted, and with
  -- an error the database is as before.
  pub record IsWritten (s : S) (events : List RawUsageEvent) (w : Written S) : Type 0 where
    pub rows_eq : w.error ≡ none → e.rows w.db ≡ inserted_into (e.rows s) events
    pub count_eq : w.error ≡ none → length (e.rows s) + w.inserted ≡ length (e.rows w.db)
    pub undone : w.error ≢ none → w.db ≡ s

  module _ (laws : IsEngine e) where
    insert_all_lem :
        (events : List RawUsageEvent) (t : S) (n : ℕ) (u : S) (k : ℕ)
        → insert_all e marshal t n events ≡ finished u k
        → (e.rows u ≡ inserted_into (e.rows t) events)
          × (length (e.rows t) + k ≡ length (e.rows u) + n)
    unfolding insert_all
    insert_all_lem [] t n u k h =
        let same : t ≡ u = cc in
        let count : n ≡ k = cc in (ap e.rows (sym same), rw (same, count) refl)
    insert_all_lem (ev ∷ events) t n u k h = elim (Result-cases (e.exec (row_of marshal ev) t)) [
      | inl (m, p) ↦ cc (rw (p, insert_all) at h)
      | inr ((v, i), p) ↦
          let (rows, count) = laws.rows-exec (row_of marshal ev) t v i p in
          let (rows', count') = insert_all_lem events v (n + i) u k (rw (p, insert_all) at h) in
          (rows' ∙ ap (λ r. inserted_into r events) rows, omega (arith, count, count'))
    ]

    commit_all-IsWritten :
        (events : List RawUsageEvent) (s t : S) (l : Loop S)
        → e.rows t ≡ e.rows s
        → l ≡ insert_all e marshal t 0 events
        → IsWritten s events (commit_all e s l)
    unfolding commit_all
    commit_all-IsWritten events s t (failed n m) same h = record {
      rows_eq = λ q. cc;
      count_eq = λ q. cc;
      undone = λ q. refl;
    }
    commit_all-IsWritten events s t (finished u n) same h = elim (Result-cases (e.commit u)) [
      | inl (m, p) ↦
          rw (p, commit_all)
            (record {
              rows_eq = λ q. cc;
              count_eq = λ q. cc;
              undone = λ q. laws.failed_commit-eq s u;
            })
      | inr (v, p) ↦
          let (rows, count) = insert_all_lem events t 0 u n (sym h) in
          let kept = laws.rows-commit u v p in
          rw (p, commit_all)
            (record {
              rows_eq = λ q. kept ∙ rows ∙ ap (λ r. inserted_into r events) same;
              count_eq = λ q. rw (kept, ← same) (omega (arith, count));
              undone = λ q. absurd (q refl);
            })
    ]

    pub write_events-IsWritten :
        (s : S) (events : List RawUsageEvent) → IsWritten s events (write_events e marshal s events)
    unfolding write_events
    write_events-IsWritten s [] = record {
      rows_eq = λ q. refl;
      count_eq = λ q. omega arith;
      undone = λ q. refl;
    }
    write_events-IsWritten s (ev ∷ events) = elim (Result-cases (e.begin_tx s)) [
      | inl (m, p) ↦
          rw (p, write_events)
            (record { rows_eq = λ q. cc; count_eq = λ q. cc; undone = λ q. refl })
      | inr (t, p) ↦ elim (Result-cases (e.prepare t)) [
        | inl (m, q) ↦
            rw (p, q, write_events)
              (record { rows_eq = λ q. cc; count_eq = λ q. cc; undone = λ q. refl })
        | inr (u, q) ↦
            rw (p, q, write_events)
              (commit_all-IsWritten (ev ∷ events) s u (insert_all e marshal u 0 (ev ∷ events))
                (laws.rows-prepare t u q ∙ laws.rows-begin_tx s t p) refl)
      ]
    ]
