-- ===== src/Analytics/Engine/Sums.antt =====
-- The totals of pass 1 as sums over the events, and the breakdowns as shares of one total.
use codeburn_watcher.Prelude.{
  ℕ, Option, ◌+◌, ◌≡◌, refl, List, [], ◌∷◌, arith, foldl, Text, length, sum_by, Assoc, get_or,
  IsMap, total, get_or-fresh,
}
use codeburn_watcher.Prelude.Float.{Float64}
use codeburn_watcher.Shared.{
  Activity, thinking, exploration, coding, testing, shipping, conversation, activities, StoredEvent,
  activity_eq,
}
use codeburn_watcher.Analytics.Price.{PricingService}
use codeburn_watcher.Analytics.Engine.{Pass1, start, pass1, pass1_step}

-- The totals of `t` are those of `s`, raised by the sums over the events.
pub record IsRaised {F : Type 0} (s t : Pass1 F) (events : List StoredEvent) : Type 0 where
  pub count : t.total_events ≡ s.total_events + length events
  pub input : t.total_input_tokens ≡ s.total_input_tokens + sum_by (λ ev. ev.input_tokens) events
  pub output :
      t.total_output_tokens ≡ s.total_output_tokens + sum_by (λ ev. ev.output_tokens) events
  pub cache_read :
      t.total_cache_read_tokens
      ≡ s.total_cache_read_tokens + sum_by (λ ev. ev.cache_read_tokens) events
  pub cache_creation :
      t.total_cache_creation_tokens
      ≡ s.total_cache_creation_tokens + sum_by (λ ev. ev.cache_creation_tokens) events

module _ {F : Type 0} ⦃d : Float64 F⦄ (parse_time : Text → Option ℕ)
    (pricing : PricingService F) where
  foldl-IsRaised :
      (s : Pass1 F) (events : List StoredEvent)
      → IsRaised s (foldl (pass1_step parse_time pricing) s events) events
  unfolding pass1_step
  foldl-IsRaised s [] = omega arith
  foldl-IsRaised s (ev ∷ l) =
      let rest = foldl-IsRaised (pass1_step parse_time pricing s ev) l in omega (arith, rest)

  pub pass1-IsRaised :
      (events : List StoredEvent) → IsRaised start (pass1 parse_time pricing events) events
  unfolding pass1
  pass1-IsRaised events = foldl-IsRaised start events

-- The list of activities misses none.
pub sum-activities :
    (m : Assoc Activity ℕ) → IsMap m → sum_by (λ a. get_or 0 a m) activities ≡ total m
unfolding get_or
sum-activities [] h = refl
sum-activities ((thinking, n) ∷ m) h =
    omega (arith, get_or-fresh thinking m h.0, sum-activities m h.1)
sum-activities ((exploration, n) ∷ m) h =
    omega (arith, get_or-fresh exploration m h.0, sum-activities m h.1)
sum-activities ((coding, n) ∷ m) h = omega (arith, get_or-fresh coding m h.0, sum-activities m h.1)
sum-activities ((testing, n) ∷ m) h =
    omega (arith, get_or-fresh testing m h.0, sum-activities m h.1)
sum-activities ((shipping, n) ∷ m) h =
    omega (arith, get_or-fresh shipping m h.0, sum-activities m h.1)
sum-activities ((conversation, n) ∷ m) h =
    omega (arith, get_or-fresh conversation m h.0, sum-activities m h.1)
