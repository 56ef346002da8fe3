-- ===== src/Analytics/Metrics.antt =====
-- internal/analytics/metrics.go and query_window.go: the record that the engine computes.
use codeburn_watcher.Prelude.{ℕ, Bool, false, [], Text, Assoc}
use codeburn_watcher.Prelude.Float.{Float64, of_nat}
use codeburn_watcher.Shared.{Activity, thinking}

pub record ActivityBreakdown (F : Type 0) : Type 0 where
  pub activity : Activity
  pub tokens : ℕ
  pub share : F
  pub cost_usd : F

pub record ModelBreakdown (F : Type 0) : Type 0 where
  pub model : Text
  pub tokens : ℕ
  pub share : F
  pub cost_usd : F

pub record Metrics (F : Type 0) : Type 0 where
  pub events : ℕ
  pub sessions : ℕ
  pub spend_tokens : ℕ
  pub cost_usd : F
  pub cost_estimated : Bool
  pub cost_unpriced_tokens : ℕ
  pub cache_hit_ratio : F
  pub rework_ratio : F
  pub think_to_code_ratio : F
  pub context_bloat_share : F
  pub cold_restart_share : F
  pub premium_waste_share : F
  pub retry_share : F
  pub by_activity : Assoc Activity (ActivityBreakdown F)
  pub by_model : Assoc Text (ModelBreakdown F)
  pub cache_read_tokens : ℕ
  pub cache_creation_tokens : ℕ
  pub retry_tokens : ℕ
  pub cold_restart_tokens : ℕ
  pub bloat_sessions : ℕ
  pub total_long_sessions : ℕ

-- A negative number of days, which Go would take, is left out.
pub record QueryWindow : Type 0 where
  pub days : ℕ
  pub project_filter : Text
  pub source_filter : Text

-- The zero value of the record.
abbrev pub zero_metrics : {F : Type 0} ⦃d : Float64 F⦄ → Metrics F
zero_metrics = record {
  events = 0;
  sessions = 0;
  spend_tokens = 0;
  cost_usd = of_nat 0;
  cost_estimated = false;
  cost_unpriced_tokens = 0;
  cache_hit_ratio = of_nat 0;
  rework_ratio = of_nat 0;
  think_to_code_ratio = of_nat 0;
  context_bloat_share = of_nat 0;
  cold_restart_share = of_nat 0;
  premium_waste_share = of_nat 0;
  retry_share = of_nat 0;
  by_activity = [];
  by_model = [];
  cache_read_tokens = 0;
  cache_creation_tokens = 0;
  retry_tokens = 0;
  cold_restart_tokens = 0;
  bloat_sessions = 0;
  total_long_sessions = 0;
}

abbrev pub empty_activity : {F : Type 0} ⦃d : Float64 F⦄ → ActivityBreakdown F
empty_activity = record { activity = thinking; tokens = 0; share = of_nat 0; cost_usd = of_nat 0 }
