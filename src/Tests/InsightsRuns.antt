-- ===== src/Tests/InsightsRuns.antt =====
-- The theorems on internal/insights at a concrete input.
use mathlib.Core.Path.{◌≡◌, refl}
use codeburn_watcher.Prelude.{not, List, [], ◌∷◌, Text, map, any, ◌==◌}
use codeburn_watcher.Prelude.Results.{ok, err}
use codeburn_watcher.Prelude.Float.{Micro, micro_float, Micro-IsIeee, of_nat}
use codeburn_watcher.Insights.Finding.{rework, retry_loop, key_eq, active_findings}
use codeburn_watcher.Insights.Recommendation.{EnrichedRecommendation, enrich}
use codeburn_watcher.Insights.Recommendation.Ranking.{IsRanked, enrich-IsRanked}
use codeburn_watcher.Insights.FollowThrough.{
  FollowThroughRecord, FollowThroughRepository, improving, metric_value, is_resolved, index_records,
  sync_key, sync,
}
use codeburn_watcher.Insights.FollowThrough.Status.{is_resolved_iff}
use codeburn_watcher.Insights.FollowThrough.Sync.{IsSynced, sync-IsSynced}
use codeburn_watcher.Tests.Samples.{sample_metrics, blank}

is_resolved_iff_example :
    is_resolved retry_loop (metric_value retry_loop sample_metrics)
    ≡ not (any (λ k. k == retry_loop) (active_findings sample_metrics))
is_resolved_iff_example = is_resolved_iff retry_loop sample_metrics

enrich-IsRanked_example : IsRanked blank sample_metrics 7 (enrich blank sample_metrics 7).0
enrich-IsRanked_example = enrich-IsRanked blank Micro-IsIeee sample_metrics 7

-- A repository that holds one record and accepts every write.
abbrev repository : FollowThroughRepository Text Micro
repository = record {
  load_records = ok (
      record {
        key = rework;
        baseline_value = of_nat 1;
        baseline_ts = 5;
        current_value = of_nat 1;
        status = improving;
      }
      ∷ []);
  upsert_records = λ l. ok tt;
}

abbrev sample_recs : List (EnrichedRecommendation Micro)
sample_recs = (enrich blank sample_metrics 7).0

abbrev synced : List (FollowThroughRecord Micro)
synced = elim repository.load_records [
  | ok stored ↦ map (λ rec. sync_key 100 (index_records stored) sample_metrics rec.key) sample_recs
  | err e ↦ []
]

sync_returns : sync repository 100 sample_recs sample_metrics ≡ ok synced
unfolding sync
sync_returns = refl

sync-IsSynced_example : IsSynced repository 100 sample_recs sample_metrics synced
sync-IsSynced_example = sync-IsSynced repository 100 sample_recs sample_metrics sync_returns
