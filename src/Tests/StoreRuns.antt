-- ===== src/Tests/StoreRuns.antt =====
-- The theorems on infrastructure/sqlite and application/collect.go at a concrete input: an engine that
-- keeps the table as a list.
use mathlib.Core.List.{Perm}
use mathlib.Core.Path.{subst}
use codeburn_watcher.Prelude.{
  ℕ, zero, suc, ◌+◌, ◌≡◌, refl, ap, ◌∙◌, false, none, some, List, [], ◌∷◌, ◌++◌, map, arith, Text,
  codes, length, length-append, select, has_one, insert_new, firsts_by, HasDistinct, pair_eq,
  text_eq, text_lt, text_lt_asymm, if◌then◌else◌, Bool-cases, inl, inr,
}
use codeburn_watcher.Prelude.Results.{ok, err}
use codeburn_watcher.Prelude.Sort.{sort_by, insert_by, sort_by-perm, sort_by-IsSorted, IsSorted}
use codeburn_watcher.Shared.{Source, source_eq, claude_code, codex, coding, StoredEvent}
use codeburn_watcher.Collection.Event.{RawUsageEvent, UsageEvent, CollectResult}
use codeburn_watcher.Store.{
  Row, Engine, IsEngine, Where, is_selected, is_before, unique_key, row_of, write_events,
  load_events, QueryFilter, insert_all, commit_all,
}
use codeburn_watcher.Store.Runs.{Run, opened, committed, write_events-refines}
use codeburn_watcher.Store.Load.{is_asked, first_writes, stored, load_events-write_events}
use codeburn_watcher.Store.Write.{inserted_into}
use codeburn_watcher.Application.Collect.{Report, handle, write_batch, add_report}
use codeburn_watcher.Application.Collect.Handled.{is_taken, events_of, handle-taken, handle_twice}

abbrev list_engine : Engine (List Row)
list_engine = record {
  rows = λ s. s;
  begin_tx = λ s. ok s;
  prepare = λ s. ok s;
  exec =
      λ r s. ok (insert_new unique_key s r, if has_one unique_key (unique_key r) s then 0 else 1);
  commit = λ s. ok s;
  failed_commit = λ s t. s;
  query = λ q s. ok (sort_by is_before (select (is_selected q) s), none);
}

inserted_one :
    (r : Row) (s : List Row)
    → length s + (if has_one unique_key (unique_key r) s then 0 else 1)
      ≡ length (insert_new unique_key s r)
inserted_one r s = elim (Bool-cases (has_one unique_key (unique_key r) s)) [
  | inl p ↦ rw p (omega arith)
  | inr p ↦ rw p (omega (arith, length-append s (r ∷ [])))
]

exec_count :
    (r : Row) (s t : List Row) (n : ℕ) → list_engine.exec r s ≡ ok (t, n) → length s + n ≡ length t
exec_count r s t n h =
    let table : insert_new unique_key s r ≡ t = cc in
    let count : (if has_one unique_key (unique_key r) s then 0 else 1) ≡ n = cc in
    omega (arith, count, ap length table, inserted_one r s)

query_lem :
    (q : Where) (s l : List Row)
    → list_engine.query q s ≡ ok (l, none)
    → Perm l (select (is_selected q) s) × IsSorted is_before l
query_lem q s l h =
    let same : sort_by is_before (select (is_selected q) s) ≡ l = cc in
    subst (λ k. Perm k (select (is_selected q) s) × IsSorted is_before k) same
      (
        sort_by-perm is_before (select (is_selected q) s),
        sort_by-IsSorted is_before (λ a b. text_lt_asymm a.ts b.ts) (select (is_selected q) s),
      )

list_engine-IsEngine : IsEngine list_engine
list_engine-IsEngine = record {
  rows-begin_tx = λ s t h. cc;
  rows-prepare = λ s t h. cc;
  rows-exec = λ r s t n h. (cc, exec_count r s t n h);
  rows-commit = λ s t h. cc;
  failed_commit-eq = λ s t. refl;
  query-perm = λ q s l h. query_lem q s l h;
}

-- Lists of strings as strings, and back.
abbrev marshal : List Text → Text
marshal [] = []
marshal (t ∷ ts) = map (λ c. suc c) t ++ (0 ∷ marshal ts)

abbrev prepend : ℕ → List Text → List Text
prepend c [] = (c ∷ []) ∷ []
prepend c (t ∷ ts) = (c ∷ t) ∷ ts

abbrev unmarshal : Text → List Text
unmarshal [] = []
unmarshal (zero ∷ s) = [] ∷ unmarshal s
unmarshal (suc c ∷ s) = prepend c (unmarshal s)

unmarshal-text : (t s : Text) → unmarshal (map (λ c. suc c) t ++ (0 ∷ s)) ≡ t ∷ unmarshal s
unmarshal-text [] s = refl
unmarshal-text (c ∷ t) s = ap (prepend c) (unmarshal-text t s)

unmarshal-marshal : (ts : List Text) → unmarshal (marshal ts) ≡ ts
unmarshal-marshal [] = refl
unmarshal-marshal (t ∷ ts) = unmarshal-text t (marshal ts) ∙ ap (λ l. t ∷ l) (unmarshal-marshal ts)

abbrev event : Source → Text → Text → RawUsageEvent
event source key ts = record {
  source = source;
  session_id = codes "s";
  event_key = key;
  project = codes "p";
  branch = [];
  model = codes "m";
  tools = [];
  activity = coding;
  ts = ts;
  input_tokens = 3;
  output_tokens = 1;
  cache_read_tokens = 0;
  cache_creation_tokens = 0;
  is_error = false;
}

abbrev two_events : List RawUsageEvent
two_events =
    event codex (codes "b") (codes "2026-01-02")
    ∷ event codex (codes "a") (codes "2026-01-01")
    ∷ event codex (codes "b") (codes "2026-01-03")
    ∷ []

abbrev db : List Row
db = (write_events list_engine marshal [] two_events).db

two-Run : Run list_engine marshal db two_events
unfolding write_events insert_all commit_all
two-Run = committed (opened [] refl) two_events refl

write_events-refines_example :
    (db ≡ firsts_by unique_key (map (row_of marshal) two_events)) × HasDistinct unique_key db
write_events-refines_example = write_events-refines list_engine list_engine-IsEngine marshal two-Run

abbrev cutoff : ℕ → Text
cutoff days = codes "2026-01-01"

abbrev everything : QueryFilter
everything = record { days = 30; project_filter = []; source_filter = codes "codex" }

abbrev loaded : List StoredEvent
loaded =
    stored (event codex (codes "a") (codes "2026-01-01"))
    ∷ stored (event codex (codes "b") (codes "2026-01-02"))
    ∷ []

two_loaded : load_events list_engine unmarshal cutoff everything db ≡ ok loaded
unfolding load_events write_events insert_all commit_all sort_by select insert_by
two_loaded = refl

load_events-write_events_example :
    Perm loaded (select (is_asked cutoff everything) (first_writes two_events))
    × IsSorted (λ (a b : StoredEvent). text_lt a.ts b.ts) loaded
load_events-write_events_example =
    load_events-write_events list_engine list_engine-IsEngine marshal unmarshal cutoff everything
      loaded unmarshal-marshal two-Run two_loaded

abbrev usage : Text → UsageEvent
usage key = record {
  source = codex;
  session_id = codes "s";
  event_key = key;
  project = codes "p";
  branch = [];
  model = codes "m";
  tools = [];
  activity = coding;
  ts = codes "2026-01-02";
  input_tokens = 3;
  output_tokens = 1;
  cache_read_tokens = 0;
  cache_creation_tokens = 0;
  is_error = false;
}

abbrev result_of : Source → CollectResult
result_of source = record { source = source; found = 2; inserted = 2 }

abbrev reports : List Report
reports =
    record {
      events = usage (codes "a") ∷ usage (codes "b") ∷ [];
      result = result_of codex;
      error = none;
    }
    ∷ record { events = []; result = result_of claude_code; error = some (codes "no access") }
    ∷ []

abbrev after : List Row
after = (handle list_engine marshal none reports []).db

handle-taken_example :
    ((results : List CollectResult)
      → (handle list_engine marshal none reports []).answer ≡ ok results
      → (results ≡ map (λ (r : Report). r.result) (select (is_taken none) reports))
        × (after
            ≡ inserted_into list_engine marshal [] (events_of (select (is_taken none) reports))))
    × ((m : Text) → (handle list_engine marshal none reports []).answer ≡ err m → after ≡ [])
handle-taken_example = handle-taken list_engine list_engine-IsEngine marshal none reports []

first_answer : (handle list_engine marshal none reports []).answer ≡ ok (result_of codex ∷ [])
unfolding handle write_batch add_report write_events insert_all commit_all
first_answer = refl

second_answer : (handle list_engine marshal none reports after).answer ≡ ok (result_of codex ∷ [])
unfolding handle write_batch add_report write_events insert_all commit_all
second_answer = refl

handle_twice_example :
    ((handle list_engine marshal none reports after).db ≡ after)
    × (◌≡◌ {A = List CollectResult} (result_of codex ∷ []) (result_of codex ∷ []))
handle_twice_example =
    handle_twice list_engine list_engine-IsEngine marshal none reports [] (result_of codex ∷ [])
      (result_of codex ∷ []) first_answer second_answer
