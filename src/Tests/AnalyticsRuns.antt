-- ===== src/Tests/AnalyticsRuns.antt =====
-- The theorems on internal/analytics and internal/reconciliation at a concrete input.
use mathlib.Core.Path.{◌≡◌}
use mathlib.Core.Logic.{◌⊎◌}
use codeburn_watcher.Prelude.{
  ◌*◌, true, false, List, [], ◌∷◌, arith, Text, codes, All, sum_by, to_lower,
}
use codeburn_watcher.Prelude.Float.{Micro, micro_float, Micro-IsIeee}
use codeburn_watcher.Shared.{StoredEvent, coding, sample_event}
use codeburn_watcher.Analytics.Price.{ModelPrice, matches, prices, cost_of}
use codeburn_watcher.Analytics.Price.Longest.{IsLongest, priced, unpriced, cost_of-prices}
use codeburn_watcher.Analytics.Metrics.{QueryWindow}
use codeburn_watcher.Analytics.Engine.{start, waste_of, ratio}
use codeburn_watcher.Analytics.Engine.Compute.{compute}
use codeburn_watcher.Analytics.Engine.Totals.{IsConsistent}
use codeburn_watcher.Analytics.Engine.Ratios.{AreShares, compute-AreShares}
use codeburn_watcher.Analytics.Engine.Breakdown.{
  IsAccounted, compute-IsAccounted, compute-premium_waste,
}
use codeburn_watcher.Reconciliation.{ProviderUsage, to_local_totals, compare_totals}
use codeburn_watcher.Reconciliation.Verdicts.{IsReconciled, compare_totals-IsReconciled}
use codeburn_watcher.Tests.Samples.{clock, micro_pricing, sample_events, sample_metrics}

compute-IsAccounted_example : IsAccounted sample_metrics sample_events
compute-IsAccounted_example = compute-IsAccounted clock micro_pricing sample_events

compute-AreShares_example : AreShares sample_metrics
compute-AreShares_example =
    compute-AreShares Micro-IsIeee clock micro_pricing sample_events (omega arith) (omega arith)

abbrev first_event : StoredEvent
first_event = sample_event (codes "s1") (codes "claude-opus-4") coding (codes "1") 1000 false

compute-premium_waste_example :
    (compute clock micro_pricing (first_event ∷ sample_events)).premium_waste_share
    ≡ ratio
        ((compute clock micro_pricing (first_event ∷ sample_events)).sessions
          * sum_by (waste_of micro_pricing) (first_event ∷ sample_events))
        (compute clock micro_pricing (first_event ∷ sample_events)).spend_tokens
compute-premium_waste_example = compute-premium_waste clock micro_pricing first_event sample_events

start-IsConsistent : IsConsistent {F = Micro} start
start-IsConsistent = ground arith

abbrev opus : Text
opus = codes "claude-opus-4-20250514"

cost_of-prices_example :
    ((p : ModelPrice Micro) × (matches (to_lower opus) p ≡ true)
      × IsLongest (to_lower opus) p prices
      × (cost_of micro_pricing opus 1000 200 5 0 ≡ priced p 1000 200 5 0))
    ⊎ (All (λ q. matches {F = Micro} (to_lower opus) q ≡ false) prices
        × (cost_of micro_pricing opus 1000 200 5 0 ≡ unpriced 1000 200 5 0))
cost_of-prices_example = cost_of-prices opus 1000 200 5 0

abbrev window : QueryWindow
window = record { days = 7; project_filter = []; source_filter = [] }

abbrev usages : List ProviderUsage
usages =
    record {
      model = codes "claude-opus-4";
      input_tokens = 100;
      output_tokens = 10;
      cache_read_tokens = 0;
      cache_creation_tokens = 0;
    }
    ∷ []

compare_totals-IsReconciled_example :
    IsReconciled {F = Micro} sample_events usages
      (compare_totals (codes "anthropic") window (to_local_totals sample_events) usages)
compare_totals-IsReconciled_example =
    compare_totals-IsReconciled Micro (codes "anthropic") window sample_events usages
