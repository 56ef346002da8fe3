-- ===== src/Analytics/Engine/Breakdown.antt =====
-- The counts and breakdowns of the metrics against the events.
use codeburn_watcher.Prelude.{
  ℕ, Option, ◌+◌, ◌*◌, ◌≡◌, refl, ◌∙◌, ap, List, [], ◌∷◌, arith, map, Text, length, sum_by, values,
  Assoc, get_or, text_eq, total, sum-keys,
}
use codeburn_watcher.Prelude.Float.{Float64}
use codeburn_watcher.Shared.{StoredEvent, spend, activities, Activity, activity_eq}
use codeburn_watcher.Analytics.Price.{PricingService}
use codeburn_watcher.Analytics.Metrics.{Metrics}
use codeburn_watcher.Analytics.Engine.{
  SessionState, Pass1, start, pass1, ratio, waste_of, total_spend, total_premium_waste,
}
use codeburn_watcher.Analytics.Engine.Compute.{compute, derive, activity_breakdown, model_breakdown}
use codeburn_watcher.Analytics.Engine.Totals.{IsConsistent, pass1-IsConsistent}
use codeburn_watcher.Analytics.Engine.Sums.{IsRaised, pass1-IsRaised, sum-activities}

sum-spend :
    (events : List StoredEvent)
    → sum_by spend events
      ≡ sum_by (λ ev. ev.input_tokens) events + sum_by (λ ev. ev.output_tokens) events
sum-spend [] = refl
sum-spend (ev ∷ l) = omega (arith, sum-spend l)

sum-const : (n : ℕ) (l : List SessionState) → sum_by (λ ss. n) l ≡ length l * n
sum-const n [] = omega arith
sum-const n (ss ∷ l) = grind (arith, sum-const n l)

length-values : (m : Assoc Text SessionState) → length (values m) ≡ length m
length-values [] = refl
length-values (e ∷ m) = omega (arith, length-values m)

-- The metrics account for every event and every input and output token.
pub record IsAccounted {F : Type 0} (m : Metrics F) (events : List StoredEvent) : Type 0 where
  pub events_eq : m.events ≡ length events
  pub spend_eq : m.spend_tokens ≡ sum_by spend events
  pub activities_eq : sum_by (λ b. b.tokens) (values m.by_activity) ≡ m.spend_tokens
  pub models_eq : sum_by (λ b. b.tokens) (values m.by_model) ≡ m.spend_tokens

module _ {F : Type 0} ⦃d : Float64 F⦄ where
  activity_tokens :
      (n : ℕ) (s : Pass1 F) (l : List Activity)
      → sum_by (λ b. b.tokens) (values (map (activity_breakdown n s) l))
        ≡ sum_by (λ a. get_or 0 a s.by_activity) l
  activity_tokens n s [] = refl
  activity_tokens n s (a ∷ l) = omega (arith, activity_tokens n s l)

  model_tokens :
      (n : ℕ) (s : Pass1 F) (l : List Text)
      → sum_by (λ b. b.tokens) (values (map (model_breakdown n s) l))
        ≡ sum_by (λ a. get_or 0 a s.by_model) l
  model_tokens n s [] = refl
  model_tokens n s (a ∷ l) = omega (arith, model_tokens n s l)

  module _ (parse_time : Text → Option ℕ) (pricing : PricingService F) where
    derive-IsAccounted :
        (events : List StoredEvent) (s : Pass1 F)
        → IsConsistent s
        → IsRaised start s events
        → IsAccounted (derive parse_time pricing events s) events
    unfolding derive
    derive-IsAccounted events s c r =
        let n = total_spend s in
        let by_key : sum_by (λ m. get_or 0 m s.by_model) s.model_order ≡ total s.by_model =
          rw c.models_listed (sum-keys s.by_model c.models_distinct) in
        record {
          events_eq = omega arith;
          spend_eq = omega (arith, sum-spend events);
          activities_eq = omega (
            arith,
            activity_tokens n s activities,
            sum-activities s.by_activity c.activities_distinct,
          );
          models_eq = omega (arith, model_tokens n s s.model_order, by_key);
        }

    -- The metrics that Compute returns count every event; their spend is the sum of the input and
    -- output tokens of all events; and the tokens of the breakdown by activity, and those of the
    -- breakdown by model, add up to the spend.
    pub compute-IsAccounted :
        (events : List StoredEvent) → IsAccounted (compute parse_time pricing events) events
    unfolding compute
    compute-IsAccounted [] = omega arith
    compute-IsAccounted (ev ∷ l) =
        derive-IsAccounted (ev ∷ l) (pass1 parse_time pricing (ev ∷ l))
          (pass1-IsConsistent parse_time pricing (ev ∷ l))
          (pass1-IsRaised parse_time pricing (ev ∷ l))

    -- In the metrics of at least one event the premium waste share is the ratio of the wasted tokens,
    -- counted once for each session of the window, to the spend.
    pub compute-premium_waste :
        (ev : StoredEvent) (l : List StoredEvent)
        → let m = compute parse_time pricing (ev ∷ l) in
          m.premium_waste_share
          ≡ ratio (m.sessions * sum_by (waste_of pricing) (ev ∷ l)) m.spend_tokens
    unfolding compute derive
    compute-premium_waste ev l =
        let s = pass1 parse_time pricing (ev ∷ l) in
        let waste = sum_by (waste_of pricing) (ev ∷ l) in
        let e : total_premium_waste pricing (ev ∷ l) s ≡ length s.sessions * waste =
          sum-const waste (values s.sessions)
          ∙ ap (λ (n : ℕ). n * waste) (length-values s.sessions) in
        ap (λ (n : ℕ). ratio n (total_spend s)) e
