-- ===== src/Render/Names.antt =====
-- The strings of the enumerations that the reports show.
use codeburn_watcher.Prelude.{Text, codes}
use codeburn_watcher.Shared.{
  Activity, thinking, exploration, coding, testing, shipping, conversation,
}
use codeburn_watcher.Insights.Finding.{
  MetricKey, cache_miss, rework, think_overcode, bloat, cold_restart, premium_waste, retry_loop,
  high_cost,
}
use codeburn_watcher.Insights.Trend.{TrendVerdict, trend_up, trend_down, trend_flat}
use codeburn_watcher.Reconciliation.{ReconcileVerdict, verdict_ok, local_exceeds_api, local_only}

abbrev pub activity_name : Activity → Text
activity_name thinking = codes "thinking"
activity_name exploration = codes "exploration"
activity_name coding = codes "coding"
activity_name testing = codes "testing"
activity_name shipping = codes "shipping"
activity_name conversation = codes "conversation"

abbrev pub metric_key_name : MetricKey → Text
metric_key_name cache_miss = codes "cache-miss"
metric_key_name rework = codes "rework"
metric_key_name think_overcode = codes "think-overcode"
metric_key_name bloat = codes "bloat"
metric_key_name cold_restart = codes "cold-restart"
metric_key_name premium_waste = codes "premium-waste"
metric_key_name retry_loop = codes "retry-loop"
metric_key_name high_cost = codes "high-cost"

abbrev pub trend_verdict_name : TrendVerdict → Text
trend_verdict_name trend_up = codes "up"
trend_verdict_name trend_down = codes "down"
trend_verdict_name trend_flat = codes "flat"

abbrev pub reconcile_verdict_name : ReconcileVerdict → Text
reconcile_verdict_name verdict_ok = codes "ok"
reconcile_verdict_name local_exceeds_api = codes "local-exceeds-api"
reconcile_verdict_name local_only = codes "local-only"
