-- ===== src/Store.antt =====
-- infrastructure/sqlite: the event store of event_store.go on the table events of db.go. The SQL engine
-- is an interface: what its statements do on the table is stated as laws.
pub mod Write
pub mod Runs
pub mod Load
use codeburn_watcher.Prelude.{
  ℕ, ◌+◌, ◌≡◌, Bool, true, false, not, ◌&&◌, Option, none, some, List, [], ◌∷◌, ◌++◌, map, Text,
  text_eq, nat_eq, codes, text_lt, if◌then◌else◌, nat_beq, has_one, insert_new, select, ◌==◌,
  pair_eq, length,
}
use codeburn_watcher.Prelude.Results.{Result, ok, err}
use codeburn_watcher.Prelude.Sort.{IsSorted}
use codeburn_watcher.Shared.{Source, source_name, source_eq, Activity, StoredEvent}
use codeburn_watcher.Collection.Event.{RawUsageEvent, DeduplicationKey}
use mathlib.Core.List.{Perm}

-- A row of the table events, without its id.
pub record Row : Type 0 where
  pub source : Source
  pub session_id : Text
  pub event_key : Text
  pub project : Text
  pub branch : Text
  pub model : Text
  pub tools : Text
  pub activity : Activity
  pub ts : Text
  pub input_tokens : ℕ
  pub output_tokens : ℕ
  pub cache_read_tokens : ℕ
  pub cache_creation_tokens : ℕ
  pub is_error : ℕ

-- UNIQUE(source, event_key)
abbrev pub unique_key : Row → Source × Text
unique_key r = (r.source, r.event_key)

-- QueryFilter
pub record QueryFilter : Type 0 where
  pub days : ℕ
  pub project_filter : Text
  pub source_filter : Text

-- The WHERE clause: a lower bound of ts, and the columns that have to be equal to an argument.
pub record Where : Type 0 where
  pub since : Text
  pub project : Option Text
  pub source : Option Text

abbrev pub is_equal_to : Option Text → Text → Bool
is_equal_to none t = true
is_equal_to (some s) t = t == s

-- ts >= ? AND project = ? AND source = ?
abbrev pub is_selected : Where → Row → Bool
is_selected q r =
    not (text_lt r.ts q.since)
    && is_equal_to q.project r.project
    && is_equal_to q.source (source_name r.source)

abbrev pub is_before : Row → Row → Bool
is_before a b = text_lt a.ts b.ts

-- The engine: `rows` are the rows of a state of the database in the order of their ids, `exec` is
-- INSERT OR IGNORE with the number of rows that it affects, and `query` the SELECT ordered by ts, with the
-- rows that it reads and the error that ends the reading, which rows.Err returns. `failed_commit s t` is
-- the state when a transaction that began at `s` and is at `t` fails to commit.
pub record Engine (S : Type 0) : Type 0 where
  pub rows : S → List Row
  pub begin_tx : S → Result Text S
  pub prepare : S → Result Text S
  pub exec : Row → S → Result Text (S × ℕ)
  pub commit : S → Result Text S
  pub failed_commit : S → S → S
  pub query : Where → S → Result Text (List Row × Option Text)

-- A row whose key is in the table is ignored, and else goes to the end; a query returns the rows that
-- it selects, in ascending order of ts, if no error ends the reading; beginning, preparing and committing
-- change no row; and a transaction that fails to commit leaves the state before it.
pub record IsEngine {S : Type 0} (e : Engine S) : Type 0 where
  pub rows-begin_tx : (s t : S) → e.begin_tx s ≡ ok t → e.rows t ≡ e.rows s
  pub rows-prepare : (s t : S) → e.prepare s ≡ ok t → e.rows t ≡ e.rows s
  pub rows-exec :
      (r : Row) (s t : S) (n : ℕ)
      → e.exec r s ≡ ok (t, n)
      → (e.rows t ≡ insert_new unique_key (e.rows s) r)
        × (length (e.rows s) + n ≡ length (e.rows t))
  pub rows-commit : (s t : S) → e.commit s ≡ ok t → e.rows t ≡ e.rows s
  pub failed_commit-eq : (s t : S) → e.failed_commit s t ≡ s
  pub query-perm :
      (q : Where) (s : S) (l : List Row)
      → e.query q s ≡ ok (l, none)
      → Perm l (select (is_selected q) (e.rows s)) × IsSorted is_before l

-- What WriteEvents leaves and returns.
pub record Written (S : Type 0) : Type 0 where
  pub db : S
  pub inserted : ℕ
  pub error : Option Text

pub data Loop (S : Type 0) : Type 0 where
  finished : S → ℕ → Loop S
  failed : ℕ → Text → Loop S

-- `marshal` and `unmarshal` are json.Marshal and json.Unmarshal on lists of strings.
abbrev pub row_of : (List Text → Text) → RawUsageEvent → Row
row_of marshal e = record {
  source = e.source;
  session_id = e.session_id;
  event_key = e.event_key;
  project = e.project;
  branch = e.branch;
  model = e.model;
  tools = marshal e.tools;
  activity = e.activity;
  ts = e.ts;
  input_tokens = e.input_tokens;
  output_tokens = e.output_tokens;
  cache_read_tokens = e.cache_read_tokens;
  cache_creation_tokens = e.cache_creation_tokens;
  is_error = if e.is_error then 1 else 0;
}

abbrev pub event_of : (Text → List Text) → Row → StoredEvent
event_of unmarshal r = record {
  source = r.source;
  session_id = r.session_id;
  event_key = r.event_key;
  project = r.project;
  branch = r.branch;
  model = r.model;
  tools = unmarshal r.tools;
  activity = r.activity;
  ts = r.ts;
  input_tokens = r.input_tokens;
  output_tokens = r.output_tokens;
  cache_read_tokens = r.cache_read_tokens;
  cache_creation_tokens = r.cache_creation_tokens;
  is_error = not (nat_beq r.is_error 0);
}

abbrev pub non_empty : Text → Option Text
non_empty t = if length t == 0 then none else some t

-- `cutoff` is the time that many days ago, in RFC 3339.
abbrev pub where_clause : (ℕ → Text) → QueryFilter → Where
where_clause cutoff filter = record {
  since = cutoff filter.days;
  project = non_empty filter.project_filter;
  source = non_empty filter.source_filter;
}

module _ {S : Type 0} (e : Engine S) where
  -- The loop over the events, in a transaction.
  unfoldable pub insert_all : (List Text → Text) → S → ℕ → List RawUsageEvent → Loop S
  insert_all marshal t inserted [] = finished t inserted
  insert_all marshal t inserted (ev ∷ events) = elim (e.exec (row_of marshal ev) t) [
    | err m ↦ failed inserted (
        codes "insert event "
        ++ (source_name ev.source ++ (codes "/" ++ (ev.event_key ++ (codes ": " ++ m)))))
    | ok (u, n) ↦ insert_all marshal u (inserted + n) events
  ]

  -- An error rolls the transaction back to the state `s` before it.
  abbrev rolled_back : S → ℕ → Text → Written S
  rolled_back s n m = record { db = s; inserted = n; error = some m }

  unfoldable pub commit_all : S → Loop S → Written S
  commit_all s (failed n m) = rolled_back s n m
  commit_all s (finished t n) = elim (e.commit t) [
    | err m ↦ rolled_back (e.failed_commit s t) n m
    | ok u ↦ record { db = u; inserted = n; error = none }
  ]

  unfoldable pub write_events : (List Text → Text) → S → List RawUsageEvent → Written S
  write_events marshal s [] = record { db = s; inserted = 0; error = none }
  write_events marshal s (ev ∷ events) = elim (e.begin_tx s) [
    | err m ↦ rolled_back s 0 (codes "begin tx: " ++ m)
    | ok t ↦ elim (e.prepare t) [
      | err m ↦ rolled_back s 0 (codes "prepare: " ++ m)
      | ok u ↦ commit_all s (insert_all marshal u 0 (ev ∷ events))
    ]
  ]

  -- With an error of rows.Err come the events read so far, which no caller looks at.
  unfoldable pub load_events :
      (Text → List Text) → (ℕ → Text) → QueryFilter → S → Result Text (List StoredEvent)
  load_events unmarshal cutoff filter s = elim (e.query (where_clause cutoff filter) s) [
    | err m ↦ err (codes "load events: " ++ m)
    | ok (l, none) ↦ ok (map (event_of unmarshal) l)
    | ok (l, some m) ↦ err m
  ]
