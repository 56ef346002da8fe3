-- ===== src/Insights/Finding.antt =====
-- internal/insights/finding.go: the eight findings and their thresholds.
use codeburn_watcher.Prelude.{
  ◌≡◌, Bool, true, false, List, [], ◌∷◌, arith, Text, codes, KeyEq, if◌then◌else◌,
}
use codeburn_watcher.Prelude.Float.{Float64}
use codeburn_watcher.Analytics.Metrics.{Metrics}

pub data MetricKey : Type 0 where
  cache_miss rework think_overcode bloat cold_restart premium_waste retry_loop high_cost : MetricKey

abbrev pub key_beq : MetricKey → MetricKey → Bool
key_beq cache_miss cache_miss = true
key_beq rework rework = true
key_beq think_overcode think_overcode = true
key_beq bloat bloat = true
key_beq cold_restart cold_restart = true
key_beq premium_waste premium_waste = true
key_beq retry_loop retry_loop = true
key_beq high_cost high_cost = true
key_beq _ _ = false

pub key_beq_iff : (a b : MetricKey) → (key_beq a b ≡ true → a ≡ b) × (a ≡ b → key_beq a b ≡ true)
key_beq_iff a b = ground arith

instance abbrev pub key_eq : KeyEq MetricKey
key_eq = record { beq = key_beq; beq_iff = key_beq_iff }

pub record Finding (F : Type 0) : Type 0 where
  pub key : MetricKey
  pub label : Text
  pub predicate : Metrics F → Bool

module _ {F : Type 0} ⦃d : Float64 F⦄ where
  abbrev pub findings : List (Finding F)
  findings =
      record {
        key = cache_miss;
        label = codes "Low cache hit ratio";
        predicate = λ m. d.lt m.cache_hit_ratio (d.lit 40 100);
      }
      ∷ record {
        key = rework;
        label = codes "High rework ratio";
        predicate = λ m. d.lt (d.lit 20 100) m.rework_ratio;
      }
      ∷ record {
        key = think_overcode;
        label = codes "Thinking exceeds coding";
        predicate = λ m. d.lt (d.lit 50 100) m.think_to_code_ratio;
      }
      ∷ record {
        key = bloat;
        label = codes "Context bloat in sessions";
        predicate = λ m. d.lt (d.lit 20 100) m.context_bloat_share;
      }
      ∷ record {
        key = cold_restart;
        label = codes "Frequent cold restarts";
        predicate = λ m. d.lt (d.lit 10 100) m.cold_restart_share;
      }
      ∷ record {
        key = premium_waste;
        label = codes "Premium model on low-value tasks";
        predicate = λ m. d.lt (d.lit 25 100) m.premium_waste_share;
      }
      ∷ record {
        key = retry_loop;
        label = codes "High retry loop rate";
        predicate = λ m. d.lt (d.lit 15 100) m.retry_share;
      }
      ∷ record {
        key = high_cost;
        label = codes "High overall cost";
        predicate = λ m. d.lt (d.lit 50 1) m.cost_usd;
      }
      ∷ []

  -- The loop of ActiveFindings.
  unfoldable pub active_of : Metrics F → List (Finding F) → List MetricKey
  active_of m [] = []
  active_of m (f ∷ fs) = let rest = active_of m fs in if f.predicate m then f.key ∷ rest else rest

  abbrev pub active_findings : Metrics F → List MetricKey
  active_findings m = active_of m findings
