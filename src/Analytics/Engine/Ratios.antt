-- ===== src/Analytics/Engine/Ratios.antt =====
-- The ratios that Compute returns are from 0 to 1, but for the share of premium waste.
use codeburn_watcher.Prelude.{
  ℕ, Option, ◌+◌, ◌^◌, ◌≤◌, ◌<◌, ◌≡◌, refl, List, [], ◌∷◌, arith, Text, length, sum_by, values,
  get_or, if◌then◌else◌, two-le-total, nat_beq, Bool-cases, inl, inr,
}
use codeburn_watcher.Prelude.Float.{Float64, IsIeee, InUnit, of_nat}
use codeburn_watcher.Shared.{StoredEvent, all_tokens, thinking, coding, activity_eq}
use codeburn_watcher.Analytics.Price.{PricingService}
use codeburn_watcher.Analytics.Metrics.{Metrics}
use codeburn_watcher.Analytics.Engine.{
  SessionState, Pass1, start, pass1, safe_div, ratio, is_long, is_bloated, total_spend, total_retry,
  total_cold_restart, total_bloat,
}
use codeburn_watcher.Analytics.Engine.Compute.{compute, derive}
use codeburn_watcher.Analytics.Engine.Session.{retry-le-spend, cold-le-input}
use codeburn_watcher.Analytics.Engine.Totals.{IsConsistent, pass1-IsConsistent}
use codeburn_watcher.Analytics.Engine.Sums.{IsRaised, pass1-IsRaised}

-- The six ratios of the metrics whose numerator is a part of the denominator.
pub record AreShares {F : Type 0} ⦃d : Float64 F⦄ (m : Metrics F) : Type 0 where
  pub cache_hit : InUnit m.cache_hit_ratio
  pub rework : InUnit m.rework_ratio
  pub think_to_code : InUnit m.think_to_code_ratio
  pub context_bloat : InUnit m.context_bloat_share
  pub cold_restart : InUnit m.cold_restart_share
  pub retry : InUnit m.retry_share

sum-all_tokens :
    (events : List StoredEvent)
    → sum_by all_tokens events
      ≡ sum_by (λ ev. ev.input_tokens) events
        + sum_by (λ ev. ev.output_tokens) events
        + sum_by (λ ev. ev.cache_read_tokens) events
        + sum_by (λ ev. ev.cache_creation_tokens) events
sum-all_tokens [] = refl
sum-all_tokens (ev ∷ l) = omega (arith, sum-all_tokens l)

long-le-turns :
    (l : List SessionState)
    → sum_by (λ ss. if is_long ss then 1 else 0) l ≤ sum_by (λ ss. ss.turns) l
long-le-turns [] = omega arith
long-le-turns (ss ∷ l) = ground (arith, long-le-turns l)

module _ (F : Type 0) ⦃d : Float64 F⦄ where
  bloat-le-long :
      (l : List SessionState)
      → sum_by (λ ss. if is_bloated F ss then 1 else 0) l
        ≤ sum_by (λ ss. if is_long ss then 1 else 0) l
  unfolding is_bloated
  bloat-le-long [] = omega arith
  bloat-le-long (ss ∷ l) = ground (arith, bloat-le-long l)

module _ {F : Type 0} ⦃d : Float64 F⦄ where
  module _ (ieee : IsIeee F) where
    ratio-InUnit : (a b : ℕ) → a ≤ b → b < 2 ^ 63 → InUnit (ratio {F = F} a b)
    unfolding safe_div
    ratio-InUnit a b h fits = elim (Bool-cases (nat_beq b 0)) [
      | inl e ↦
          rw (ieee.eq_zero_of_nat b fits, e)
            (
              ieee.le_of_nat 0 0 (omega arith) (omega arith),
              ieee.le_of_nat 0 1 (omega arith) (omega arith),
            )
      | inr e ↦
          rw (ieee.eq_zero_of_nat b fits, e)
            (
              ieee.zero_le_ratio a b h (ground arith) fits,
              ieee.ratio_le_one a b h (ground arith) fits,
            )
    ]

    module _ (parse_time : Text → Option ℕ) (pricing : PricingService F) where
      derive-AreShares :
          (events : List StoredEvent) (s : Pass1 F)
          → IsConsistent s
          → IsRaised start s events
          → length events < 2 ^ 63
          → sum_by all_tokens events < 2 ^ 63
          → AreShares (derive parse_time pricing events s)
      unfolding derive
      derive-AreShares events s c r few fits =
          let l = values s.sessions in
          let all = sum-all_tokens events in
          let thought = get_or 0 thinking s.by_activity in
          let coded = get_or 0 coding s.by_activity in
          let spent : total_spend s < 2 ^ 63 = omega arith in
          record {
            cache_hit = ratio-InUnit s.total_cache_read_tokens _ (omega arith) (omega arith);
            rework = ratio-InUnit (total_retry s) _ (retry-le-spend l c.sound) spent;
            think_to_code =
                ratio-InUnit thought _ (omega arith)
                  (omega (arith, two-le-total thinking coding s.by_activity refl));
            context_bloat =
                ratio-InUnit (total_bloat s) _ (bloat-le-long F l) (omega (arith, long-le-turns l));
            cold_restart =
                ratio-InUnit (total_cold_restart s) _ (omega (arith, cold-le-input l c.sound))
                  (omega arith);
            retry = ratio-InUnit (total_retry s) _ (retry-le-spend l c.sound) spent;
          }

      -- If the number of events and the sum of all their tokens are below 2 ^ 63, then in the metrics
      -- that Compute returns the cache hit ratio, the rework ratio, the think-to-code ratio, the
      -- context bloat share, the cold restart share and the retry share are numbers from 0 to 1.
      pub compute-AreShares :
          (events : List StoredEvent)
          → length events < 2 ^ 63
          → sum_by all_tokens events < 2 ^ 63
          → AreShares (compute parse_time pricing events)
      unfolding compute
      compute-AreShares [] few fits =
          let zero : InUnit (of_nat {F = F} 0) = (
            ieee.le_of_nat 0 0 (omega arith) (omega arith),
            ieee.le_of_nat 0 1 (omega arith) (omega arith),
          ) in
          record {
            cache_hit = zero;
            rework = zero;
            think_to_code = zero;
            context_bloat = zero;
            cold_restart = zero;
            retry = zero;
          }
      compute-AreShares (ev ∷ l) few fits =
          derive-AreShares (ev ∷ l) (pass1 parse_time pricing (ev ∷ l))
            (pass1-IsConsistent parse_time pricing (ev ∷ l))
            (pass1-IsRaised parse_time pricing (ev ∷ l)) few fits
