-- ===== src/Insights/Recommendation.antt =====
-- internal/insights/recommendation.go: the recommendations for the active findings, with their
-- estimated savings.
pub mod Ranking
use codeburn_watcher.Prelude.{
  ℕ, suc, ◌+◌, ◌/◌, Bool, true, false, not, Option, none, some, List, [], ◌∷◌, ◌++◌, map, foldl,
  Assoc, if◌then◌else◌, Text, codes, nat_beq, values, sum_by,
}
use codeburn_watcher.Prelude.Int.{ℤ, pos, negsuc}
use codeburn_watcher.Prelude.Float.{Float64, of_nat}
use codeburn_watcher.Prelude.Sort.{sort_by}
use codeburn_watcher.Analytics.Metrics.{Metrics, ModelBreakdown}
use codeburn_watcher.Insights.Finding.{
  MetricKey, cache_miss, rework, think_overcode, bloat, cold_restart, premium_waste, retry_loop,
  high_cost, active_findings,
}

pub record Target (F : Type 0) : Type 0 where
  pub metric : MetricKey
  pub goal : F
  pub message : Text
  pub personal : Bool

pub record Evidence (F : Type 0) : Type 0 where
  pub current_value : F
  pub goal_value : F
  pub savings_usd : F
  pub metric_label : Text
  pub savings_label : Text

pub record EnrichedRecommendation (F : Type 0) : Type 0 where
  pub key : MetricKey
  pub label : Text
  pub priority : ℕ
  pub target : Target F
  pub evidence : Evidence F

pub record PotentialBill (F : Type 0) : Type 0 where
  pub total_savings_usd : F
  pub sessions : ℕ
  pub days : ℕ

pub record BlendedRates (F : Type 0) : Type 0 where
  pub input_rate : F
  pub output_rate : F

module _ {F : Type 0} ⦃d : Float64 F⦄ where
  abbrev no_rates : BlendedRates F
  no_rates = record { input_rate = of_nat 0; output_rate = of_nat 0 }

  -- The loop adds half of a model's tokens to the input and half to the output.
  unfoldable pub blended_rates : Metrics F → BlendedRates F
  blended_rates m =
      let models : List (ModelBreakdown F) = values m.by_model in
      let total_input = sum_by (λ b. b.tokens / 2) models in
      let total_output = sum_by (λ b. b.tokens / 2) models in
      let total_cost = foldl (λ c b. d.add c b.cost_usd) (of_nat 0) models in
      let rate = d.div total_cost (of_nat (total_input + total_output)) in
      if nat_beq m.spend_tokens 0
      then no_rates
      else if nat_beq total_input 0
      then no_rates
      else record { input_rate = rate; output_rate = rate }

  unfoldable pub savings_usd : ℤ → BlendedRates F → ℕ → F
  savings_usd avoidable blended days =
      let daily_rate = d.div (d.add blended.input_rate blended.output_rate) (d.lit 2 1) in
      if nat_beq days 0
      then of_nat 0
      else d.div (d.mul (d.mul (d.of_int avoidable) daily_rate) (d.lit 30 1)) (of_nat days)

-- `fixed n x` is the verb %.nf: the decimal notation of `x` with `n` digits after the point.
module _ {F : Type 0} ⦃d : Float64 F⦄ (fixed : ℕ → F → Text) where
  abbrev pub pct : F → Text
  pct v = fixed 1 (d.mul v (d.lit 100 1)) ++ codes "%"

  abbrev pub usd : F → Text
  usd v = codes "$" ++ (fixed 2 v ++ codes "/mo")

  -- The literal of EnrichedRecommendation that each case of enrich returns.
  abbrev recommend : MetricKey → Text → F → Text → F → F → Text → EnrichedRecommendation F
  recommend key label goal message current savings metric_label = record {
    key = key;
    label = label;
    priority = 0;
    target = record { metric = key; goal = goal; message = message; personal = false };
    evidence = record {
      current_value = current;
      goal_value = goal;
      savings_usd = savings;
      metric_label = metric_label;
      savings_label = usd savings;
    };
  }

  -- if avoidable < 0 { avoidable = 0 }
  abbrev clamp : ℤ → ℤ
  clamp (pos n) = pos n
  clamp (negsuc n) = pos 0

  -- int(float64(m.SpendTokens) * share)
  abbrev part_of_spend : Metrics F → F → ℤ
  part_of_spend m share = d.trunc (d.mul (of_nat m.spend_tokens) share)

  unfoldable pub enrich_key : MetricKey → Metrics F → BlendedRates F → ℕ → EnrichedRecommendation F
  unfolding savings_usd
  enrich_key cache_miss m blended days =
      let goal = d.lit 60 100 in
      let avoidable = clamp (part_of_spend m (d.sub goal m.cache_hit_ratio)) in
      recommend cache_miss (codes "Low cache hit ratio") goal
        (codes "Aim for 60%+ cache hit ratio by keeping sessions alive longer") m.cache_hit_ratio
        (savings_usd avoidable blended days) (pct m.cache_hit_ratio)
  enrich_key rework m blended days =
      let goal = d.lit 10 100 in
      let avoidable = part_of_spend m (d.sub m.rework_ratio goal) in
      recommend rework (codes "High rework ratio") goal
        (codes "Reduce error-recovery loops by breaking work into smaller steps") m.rework_ratio
        (savings_usd avoidable blended days) (pct m.rework_ratio)
  enrich_key premium_waste m blended days =
      let goal = d.lit 10 100 in
      let avoidable = part_of_spend m (d.sub m.premium_waste_share goal) in
      recommend premium_waste (codes "Premium model on low-value tasks") goal
        (codes "Use Haiku or Flash for exploration and conversation turns") m.premium_waste_share
        (savings_usd avoidable blended days) (pct m.premium_waste_share)
  enrich_key cold_restart m blended days =
      let goal = d.lit 5 100 in
      let kept = d.sub (d.lit 1 1) (d.div goal m.cold_restart_share) in
      let avoidable = d.trunc (d.mul (of_nat m.cold_restart_tokens) kept) in
      recommend cold_restart (codes "Frequent cold restarts") goal
        (codes "Keep sessions warm — resume within 5 minutes to avoid re-paying input tokens")
        m.cold_restart_share (savings_usd avoidable blended days) (pct m.cold_restart_share)
  enrich_key bloat m blended days =
      let avoidable = pos (m.spend_tokens / 10) in
      recommend bloat (codes "Context bloat in sessions") (d.lit 10 100)
        (codes "Start fresh sessions when context grows beyond 2× early size") m.context_bloat_share
        (savings_usd avoidable blended days) (pct m.context_bloat_share)
  enrich_key think_overcode m blended days =
      let avoidable = pos (m.spend_tokens / 20) in
      recommend think_overcode (codes "Thinking exceeds coding") (d.lit 30 100)
        (codes "Use a cheaper model for planning; switch to Sonnet for implementation")
        m.think_to_code_ratio (savings_usd avoidable blended days) (pct m.think_to_code_ratio)
  enrich_key retry_loop m blended days =
      let avoidable = pos (m.retry_tokens / 2) in
      recommend retry_loop (codes "High retry loop rate") (d.lit 5 100)
        (codes "Diagnose root cause of tool errors instead of letting the agent retry")
        m.retry_share (savings_usd avoidable blended days) (pct m.retry_share)
  enrich_key high_cost m blended days =
      let savings = d.mul m.cost_usd (d.lit 20 100) in
      recommend high_cost (codes "High overall cost") (of_nat 0)
        (codes "Review other findings to identify the highest-savings optimisations") m.cost_usd
        savings (usd m.cost_usd)

  -- recs[i].Evidence.SavingsUsd > recs[j].Evidence.SavingsUsd
  abbrev pub saves_more : EnrichedRecommendation F → EnrichedRecommendation F → Bool
  saves_more a b = d.lt b.evidence.savings_usd a.evidence.savings_usd

  -- recs[i].Priority = i + 1, from index `i` on
  unfoldable pub number_from : ℕ → List (EnrichedRecommendation F) → List (EnrichedRecommendation F)
  number_from i [] = []
  number_from i (r ∷ rs) = record r { priority = suc i } ∷ number_from (suc i) rs

  abbrev pub total_savings : List (EnrichedRecommendation F) → F
  total_savings = foldl (λ t r. d.add t r.evidence.savings_usd) (of_nat 0)

  -- Enrich does not read its events.
  unfoldable pub enrich : Metrics F → ℕ → List (EnrichedRecommendation F) × PotentialBill F
  enrich m days =
      let blended = blended_rates m in
      let found = map (λ key. enrich_key key m blended days) (active_findings m) in
      let recs = number_from 0 (sort_by saves_more found) in
      (recs, record { total_savings_usd = total_savings recs; sessions = m.sessions; days = days })
