-- ===== src/Analytics/Engine/Compute.antt =====
-- internal/analytics/metrics_engine.go: the metrics that Compute returns.
use codeburn_watcher.Prelude.{ℕ, Option, ◌+◌, List, [], ◌∷◌, map, Text, length, get_or, text_eq}
use codeburn_watcher.Prelude.Float.{Float64, of_nat}
use codeburn_watcher.Shared.{Activity, StoredEvent, activities, thinking, coding, activity_eq}
use codeburn_watcher.Analytics.Price.{PricingService}
use codeburn_watcher.Analytics.Metrics.{Metrics, ActivityBreakdown, ModelBreakdown, zero_metrics}
use codeburn_watcher.Analytics.Engine.{
  Pass1, pass1, safe_div, ratio, total_spend, total_retry, total_cold_restart, total_long,
  total_bloat, total_premium_waste,
}

module _ {F : Type 0} ⦃d : Float64 F⦄ where
  abbrev pub activity_breakdown : ℕ → Pass1 F → Activity → Activity × ActivityBreakdown F
  activity_breakdown total s a = (
    a,
    record {
      activity = a;
      tokens = get_or 0 a s.by_activity;
      share = safe_div (of_nat (get_or 0 a s.by_activity)) (of_nat total);
      cost_usd = get_or (of_nat 0) a s.by_activity_cost;
    },
  )

  abbrev pub model_breakdown : ℕ → Pass1 F → Text → Text × ModelBreakdown F
  model_breakdown total s m = (
    m,
    record {
      model = m;
      tokens = get_or 0 m s.by_model;
      share = safe_div (of_nat (get_or 0 m s.by_model)) (of_nat total);
      cost_usd = get_or (of_nat 0) m s.by_model_cost;
    },
  )

module _ {F : Type 0} ⦃d : Float64 F⦄ (parse_time : Text → Option ℕ)
    (pricing : PricingService F) where
  -- The metrics of the totals `s` that pass 1 left for the events.
  unfoldable pub derive : List StoredEvent → Pass1 F → Metrics F
  derive events s =
      let spent = total_spend s in
      let retried = total_retry s in
      let cold = total_cold_restart s in
      let bloated = total_bloat s in
      let long = total_long s in
      let wasted = total_premium_waste pricing events s in
      let all_input =
        s.total_input_tokens + s.total_cache_read_tokens + s.total_cache_creation_tokens in
      let thought = get_or 0 thinking s.by_activity in
      let coded = get_or 0 coding s.by_activity in
      record {
        events = s.total_events;
        sessions = length s.sessions;
        spend_tokens = spent;
        cost_usd = s.total_cost_usd;
        cost_estimated = s.cost_estimated;
        cost_unpriced_tokens = s.cost_unpriced_tokens;
        cache_hit_ratio = ratio s.total_cache_read_tokens all_input;
        rework_ratio = ratio retried spent;
        think_to_code_ratio = ratio thought (thought + coded);
        context_bloat_share = ratio bloated long;
        cold_restart_share = ratio cold s.total_input_tokens;
        premium_waste_share = ratio wasted spent;
        retry_share = ratio retried spent;
        by_activity = map (activity_breakdown spent s) activities;
        by_model = map (model_breakdown spent s) s.model_order;
        cache_read_tokens = s.total_cache_read_tokens;
        cache_creation_tokens = s.total_cache_creation_tokens;
        retry_tokens = retried;
        cold_restart_tokens = cold;
        bloat_sessions = bloated;
        total_long_sessions = long;
      }

  unfoldable pub compute : List StoredEvent → Metrics F
  compute [] = zero_metrics
  compute (ev ∷ rest) = derive (ev ∷ rest) (pass1 parse_time pricing (ev ∷ rest))
