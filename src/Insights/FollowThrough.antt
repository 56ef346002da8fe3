-- ===== src/Insights/FollowThrough.antt =====
-- internal/insights/follow_through.go and repository.go: the follow-through records of the active
-- findings.
pub mod Status
pub mod Sync
pub mod Store
use codeburn_watcher.Prelude.{
  ℕ, Bool, true, false, not, Option, none, some, List, [], ◌∷◌, map, foldl, Assoc, lookup, insert,
  if◌then◌else◌, ◌==◌,
}
use codeburn_watcher.Prelude.Results.{Result, ok, err, ◌>>=◌, ◌>>◌}
use codeburn_watcher.Prelude.Float.{Float64, of_nat}
use codeburn_watcher.Analytics.Metrics.{Metrics, zero_metrics}
use codeburn_watcher.Insights.Recommendation.{EnrichedRecommendation}
use codeburn_watcher.Insights.Finding.{
  MetricKey, cache_miss, rework, think_overcode, bloat, cold_restart, premium_waste, retry_loop,
  high_cost, key_eq, Finding, findings,
}

pub data FollowThroughStatus : Type 0 where
  improving regressing resolved : FollowThroughStatus

-- A time is a number of nanoseconds.
pub record FollowThroughRecord (F : Type 0) : Type 0 where
  pub key : MetricKey
  pub baseline_value : F
  pub baseline_ts : ℕ
  pub current_value : F
  pub status : FollowThroughStatus

-- The repository's answers: what LoadRecords returns, and what UpsertRecords returns for a list.
pub record FollowThroughRepository (E F : Type 0) : Type 0 where
  pub load_records : Result E (List (FollowThroughRecord F))
  pub upsert_records : List (FollowThroughRecord F) → Result E (Unit {0})

module _ {F : Type 0} ⦃d : Float64 F⦄ where
  unfoldable pub metric_value : MetricKey → Metrics F → F
  metric_value cache_miss m = m.cache_hit_ratio
  metric_value rework m = m.rework_ratio
  metric_value premium_waste m = m.premium_waste_share
  metric_value cold_restart m = m.cold_restart_share
  metric_value bloat m = m.context_bloat_share
  metric_value think_overcode m = m.think_to_code_ratio
  metric_value retry_loop m = m.retry_share
  metric_value high_cost m = m.cost_usd

  unfoldable pub is_improving : MetricKey → F → F → Bool
  is_improving cache_miss baseline current = d.lt baseline current
  is_improving _ baseline current = d.lt current baseline

  abbrev pub maybe_set : MetricKey → MetricKey → F → F
  maybe_set target check v = if target == check then v else of_nat 0

  -- The metrics that isResolved makes up to put the predicate to.
  abbrev pub probe : MetricKey → F → Metrics F
  probe key current =
      let zero : Metrics F = zero_metrics in
      record zero {
        cost_usd = maybe_set key high_cost current;
        cache_hit_ratio = maybe_set key cache_miss current;
        rework_ratio = maybe_set key rework current;
        think_to_code_ratio = maybe_set key think_overcode current;
        context_bloat_share = maybe_set key bloat current;
        cold_restart_share = maybe_set key cold_restart current;
        premium_waste_share = maybe_set key premium_waste current;
        retry_share = maybe_set key retry_loop current;
      }

  unfoldable pub resolved_in : List (Finding F) → MetricKey → F → Bool
  resolved_in [] key current = false
  resolved_in (f ∷ fs) key current =
      if f.key == key then not (f.predicate (probe key current)) else resolved_in fs key current

  abbrev pub is_resolved : MetricKey → F → Bool
  is_resolved = resolved_in findings

  -- byKey[r.Key] = r, for each stored record in turn
  unfoldable pub index_records :
      List (FollowThroughRecord F) → Assoc MetricKey (FollowThroughRecord F)
  index_records = foldl (λ m r. insert r.key r m) []

  abbrev pub status_of : MetricKey → F → F → FollowThroughStatus
  status_of key baseline current =
      if is_resolved key current
      then resolved
      else if is_improving key baseline current
      then improving
      else regressing

  -- The body of the loop of Sync, at the time `now`.
  unfoldable pub sync_key :
      ℕ → Assoc MetricKey (FollowThroughRecord F) → Metrics F → MetricKey → FollowThroughRecord F
  sync_key now by_key m key =
      let current = metric_value key m in
      elim (lookup key by_key) [
        | none ↦ record {
          key = key;
          baseline_value = current;
          baseline_ts = now;
          current_value = current;
          status = improving;
        }
        | some existing ↦ record {
          key = key;
          baseline_value = existing.baseline_value;
          baseline_ts = existing.baseline_ts;
          current_value = current;
          status = status_of key existing.baseline_value current;
        }
      ]

  unfoldable pub sync :
      {E : Type 0}
      → FollowThroughRepository E F
      → ℕ
      → List (EnrichedRecommendation F)
      → Metrics F
      → Result E (List (FollowThroughRecord F))
  sync repo now recs m = do
    stored ← repo.load_records
    let updated = map (λ rec. sync_key now (index_records stored) m rec.key) recs
    repo.upsert_records updated
    ok updated
