-- ===== src/Tests/FollowRuns.antt =====
-- The theorem on infrastructure/sqlite/followthrough_store.go at a concrete input: an engine that keeps the
-- table as the list of the rows that were written, the last first.
use codeburn_watcher.Prelude.{
  ◌≡◌, refl, sym, ap, ◌∙◌, false, not, none, some, List, [], ◌∷◌, codes, if◌then◌else◌, ◌==◌,
  select, firsts_by, firsts_by-HasDistinct, HasDistinct, All, Bool-cases, inl, inr,
}
use codeburn_watcher.Prelude.Results.{ok, err}
use codeburn_watcher.Prelude.Float.{Micro, micro_float, of_nat}
use codeburn_watcher.Insights.Finding.{MetricKey, rework, key_eq}
use codeburn_watcher.Insights.Recommendation.{EnrichedRecommendation}
use codeburn_watcher.Insights.FollowThrough.{FollowThroughRecord, index_records, sync_key, sync}
use codeburn_watcher.Insights.FollowThrough.Store.{
  Row, find, Engine, IsEngine, Calls, load_records, replace_all, commit_all, upsert_records,
  repository,
}
use codeburn_watcher.Insights.FollowThrough.Store.Baseline.{sync_twice}
use codeburn_watcher.Tests.Samples.{sample_metrics}

abbrev key_of : Row Micro → MetricKey
key_of r = r.metric_key

find-select :
    (k j : MetricKey) (l : List (Row Micro))
    → (k == j) ≡ false
    → find k (select (λ y. not (key_of y == j)) l) ≡ find k l
unfolding select
find-select k j [] h = refl
find-select k j (r ∷ l) h = elim (Bool-cases (r.metric_key == j)) [
  | inl p ↦
      let other : (k == r.metric_key) ≡ false = rw ((key_eq.beq_iff r.metric_key j).0 p) h in
      rw (p, other) (find-select k j l h)
  | inr p ↦ elim (Bool-cases (k == r.metric_key)) [
    | inl q ↦ rw (p, q) refl
    | inr q ↦ rw (p, q) (find-select k j l h)
  ]
]

find-firsts_by : (k : MetricKey) (l : List (Row Micro)) → find k (firsts_by key_of l) ≡ find k l
find-firsts_by k [] = refl
find-firsts_by k (r ∷ l) = elim (Bool-cases (k == r.metric_key)) [
  | inl p ↦ rw p refl
  | inr p ↦ rw p (find-select k r.metric_key (firsts_by key_of l) p ∙ find-firsts_by k l)
]

abbrev table_engine : Engine (List (Row Micro)) Micro
table_engine = record {
  row = find;
  begin_tx = λ s. ok s;
  prepare = λ s. ok s;
  replace = λ r s. ok (r ∷ s);
  commit = λ s. ok s;
  failed_commit = λ s t. s;
  query = λ s. ok (firsts_by key_of s, none);
}

query_lem :
    (s l : List (Row Micro))
    → table_engine.query s ≡ ok (l, none)
    → HasDistinct key_of l × ((k : MetricKey) → find k l ≡ find k s)
query_lem s l h =
    let same : firsts_by key_of s ≡ l = cc in
    rw (← same) (firsts_by-HasDistinct key_of s, λ k. find-firsts_by k s)

replace_lem :
    (k : MetricKey) (r : Row Micro) (s t : List (Row Micro))
    → table_engine.replace r s ≡ ok t
    → find k t ≡ (if k == r.metric_key then some r else find k s)
replace_lem k r s t h = let same : r ∷ s ≡ t = cc in rw (← same) refl

same_row :
    (k : MetricKey) (s t : List (Row Micro)) → table_engine.commit s ≡ ok t → find k t ≡ find k s
same_row k s t h = let same : s ≡ t = cc in ap (find k) (sym same)

table_engine-IsEngine : IsEngine table_engine
table_engine-IsEngine = record {
  row-begin_tx = same_row;
  row-prepare = same_row;
  row-replace = replace_lem;
  row-commit = same_row;
  query_rows = query_lem;
}

-- Times in unary.
abbrev times : Calls
times = record {
  format = λ n. n ∷ [];
  parse = λ t. elim t [ [] ↦ 0 | n ∷ s ↦ n ];
  key_name = λ k. [];
}

abbrev rework_rec : EnrichedRecommendation Micro
rework_rec = record {
  key = rework;
  label = [];
  priority = 1;
  target = record { metric = rework; goal = of_nat 0; message = []; personal = false };
  evidence = record {
    current_value = of_nat 0;
    goal_value = of_nat 0;
    savings_usd = of_nat 0;
    metric_label = [];
    savings_label = [];
  };
}

abbrev first : List (FollowThroughRecord Micro)
first = sync_key 5 [] sample_metrics rework ∷ []

first_returns :
    sync (repository times table_engine (codes "a") []) 5 (rework_rec ∷ []) sample_metrics
    ≡ ok first
unfolding sync load_records upsert_records replace_all commit_all index_records
first_returns = refl

abbrev table : List (Row Micro)
table = (upsert_records times table_engine (codes "a") [] first).db

abbrev stored : List (FollowThroughRecord Micro)
stored = elim (load_records times table_engine table) [ ok l ↦ l | err m ↦ [] ]

abbrev second : List (FollowThroughRecord Micro)
second = sync_key 9 (index_records stored) sample_metrics rework ∷ []

second_returns :
    sync (repository times table_engine (codes "b") table) 9 (rework_rec ∷ []) sample_metrics
    ≡ ok second
unfolding sync load_records upsert_records replace_all commit_all index_records select
second_returns = refl

sync_twice_example :
    All
      (λ (r : FollowThroughRecord Micro).
        All
          (λ (r' : FollowThroughRecord Micro).
            r'.key ≡ r.key
            → (r'.baseline_value ≡ r.baseline_value)
              × (r'.baseline_ts ≡ times.parse (times.format r.baseline_ts)))
          second)
      first
sync_twice_example =
    sync_twice times table_engine table_engine-IsEngine (codes "a") (codes "b") 5 9
      (rework_rec ∷ []) (rework_rec ∷ []) sample_metrics sample_metrics [] first_returns
      second_returns
