-- ===== src/Insights/FollowThrough/Store.antt =====
-- infrastructure/sqlite/followthrough_store.go: the follow-through records on the table recommendations of
-- db.go. The SQL engine is an interface, with laws of its statements by the table's primary key.
pub mod Rows
pub mod Baseline
use codeburn_watcher.Prelude.{
  ℕ, ◌≡◌, Bool, true, false, Option, none, some, List, [], ◌∷◌, ◌++◌, map, Text, codes,
  if◌then◌else◌, ◌==◌, HasDistinct, has_one,
}
use codeburn_watcher.Prelude.Results.{Result, ok, err}
use codeburn_watcher.Insights.Finding.{MetricKey, key_eq}
use codeburn_watcher.Insights.FollowThrough.{
  FollowThroughStatus, FollowThroughRecord, FollowThroughRepository,
}

-- A row of the table recommendations.
pub record Row (F : Type 0) : Type 0 where
  pub metric_key : MetricKey
  pub baseline_value : F
  pub baseline_ts : Text
  pub current_value : F
  pub status : FollowThroughStatus
  pub updated_at : Text

-- The first row with a key.
abbrev pub find : {F : Type 0} → MetricKey → List (Row F) → Option (Row F)
find k [] = none
find k (r ∷ l) = if k == r.metric_key then some r else find k l

-- The engine: `row` is the row of a key in a state of the database, `replace` is INSERT OR REPLACE, and
-- `query` the SELECT of all rows, with the rows that it reads and the error that ends the reading.
-- `failed_commit s t` is the state when a transaction that began at `s` and is at `t` fails to commit.
pub record Engine (S F : Type 0) : Type 0 where
  pub row : MetricKey → S → Option (Row F)
  pub begin_tx : S → Result Text S
  pub prepare : S → Result Text S
  pub replace : Row F → S → Result Text S
  pub commit : S → Result Text S
  pub failed_commit : S → S → S
  pub query : S → Result Text (List (Row F) × Option Text)

-- A row takes the place of that of its key; a query returns each row once, if no error ends
-- the reading; and beginning, preparing and
-- committing change no row.
pub record IsEngine {S F : Type 0} (e : Engine S F) : Type 0 where
  pub row-begin_tx : (k : MetricKey) (s t : S) → e.begin_tx s ≡ ok t → e.row k t ≡ e.row k s
  pub row-prepare : (k : MetricKey) (s t : S) → e.prepare s ≡ ok t → e.row k t ≡ e.row k s
  pub row-replace :
      (k : MetricKey) (r : Row F) (s t : S)
      → e.replace r s ≡ ok t
      → e.row k t ≡ (if k == r.metric_key then some r else e.row k s)
  pub row-commit : (k : MetricKey) (s t : S) → e.commit s ≡ ok t → e.row k t ≡ e.row k s
  pub query_rows :
      (s : S) (l : List (Row F))
      → e.query s ≡ ok (l, none)
      → HasDistinct (λ (r : Row F). r.metric_key) l × ((k : MetricKey) → find k l ≡ e.row k s)

-- What the store calls: time.Format and time.Parse in RFC 3339, and the names of the keys.
pub record Calls : Type 0 where
  pub format : ℕ → Text
  pub parse : Text → ℕ
  pub key_name : MetricKey → Text

-- The database after a call, and its answer.
pub record Written (S : Type 0) : Type 0 where
  pub db : S
  pub answer : Result Text (Unit {0})

module _ {F : Type 0} (calls : Calls) where
  abbrev pub record_of : Row F → FollowThroughRecord F
  record_of r = record {
    key = r.metric_key;
    baseline_value = r.baseline_value;
    baseline_ts = calls.parse r.baseline_ts;
    current_value = r.current_value;
    status = r.status;
  }

  abbrev pub row_of : Text → FollowThroughRecord F → Row F
  row_of now r = record {
    metric_key = r.key;
    baseline_value = r.baseline_value;
    baseline_ts = calls.format r.baseline_ts;
    current_value = r.current_value;
    status = r.status;
    updated_at = now;
  }

  module _ {S : Type 0} (e : Engine S F) where
    unfoldable pub load_records : S → Result Text (List (FollowThroughRecord F))
    load_records s = elim (e.query s) [
      | err m ↦ err (codes "load recommendations: " ++ m)
      | ok (l, none) ↦ ok (map record_of l)
      | ok (l, some m) ↦ err m
    ]

    -- The loop over the records, in a transaction.
    unfoldable pub replace_all : Text → S → List (FollowThroughRecord F) → Result Text S
    replace_all now t [] = ok t
    replace_all now t (r ∷ rs) = elim (e.replace (row_of now r) t) [
      | err m ↦ err (codes "upsert recommendation " ++ (calls.key_name r.key ++ (codes ": " ++ m)))
      | ok u ↦ replace_all now u rs
    ]

    -- An error rolls the transaction back to the state before it.
    unfoldable pub commit_all : S → Result Text S → Written S
    commit_all s (err m) = record { db = s; answer = err m }
    commit_all s (ok t) = elim (e.commit t) [
      | err m ↦ record { db = e.failed_commit s t; answer = err m }
      | ok u ↦ record { db = u; answer = ok tt }
    ]

    unfoldable pub upsert_records : Text → S → List (FollowThroughRecord F) → Written S
    upsert_records now s [] = record { db = s; answer = ok tt }
    upsert_records now s (r ∷ rs) = elim (e.begin_tx s) [
      | err m ↦ record { db = s; answer = err (codes "begin tx: " ++ m) }
      | ok t ↦ elim (e.prepare t) [
        | err m ↦ record { db = s; answer = err (codes "prepare: " ++ m) }
        | ok u ↦ commit_all s (replace_all now u (r ∷ rs))
      ]
    ]

    -- The store as the repository that Sync uses.
    abbrev pub repository : Text → S → FollowThroughRepository Text F
    repository now s = record {
      load_records = load_records s;
      upsert_records = λ records. (upsert_records now s records).answer;
    }
