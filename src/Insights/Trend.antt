-- ===== src/Insights/Trend.antt =====
-- internal/insights/trend.go: metric trends and project movers between the two halves of a window.

pub mod Movers
use codeburn_watcher.Prelude.{
  ℕ, ◌+◌, ◌*◌, ◌/◌, ◌-◌, Bool, true, false, not, ◌||◌, List, [], ◌∷◌, ◌++◌, Option, none, some,
  foldl, map, Text, codes, text_eq, Assoc, keys, get_or, has_key, tally, if◌then◌else◌, nat_beq,
  ltb, select,
}
use codeburn_watcher.Prelude.Int.{ℤ, pos, negsuc, sub_ℕ, pos_part, neg_part}
use codeburn_watcher.Prelude.Float.{Float64, of_nat}
use codeburn_watcher.Prelude.Sort.{sort_by}
use codeburn_watcher.Shared.{StoredEvent, spend}
use codeburn_watcher.Analytics.Price.{PricingService}
use codeburn_watcher.Analytics.Metrics.{Metrics}
use codeburn_watcher.Analytics.Engine.Compute.{compute}
use codeburn_watcher.Insights.Finding.{
  MetricKey, cache_miss, rework, premium_waste, cold_restart, bloat, retry_loop,
}

pub data TrendVerdict : Type 0 where
  trend_up trend_down trend_flat : TrendVerdict

pub record TrendRow (F : Type 0) : Type 0 where
  pub key : MetricKey
  pub label : Text
  pub current : F
  pub previous : F
  pub delta : F
  pub verdict : TrendVerdict
  pub fmt_current : Text
  pub fmt_delta : Text

pub record ProjectMover : Type 0 where
  pub project : Text
  pub current : ℕ
  pub previous : ℕ
  pub delta : ℤ
  pub verdict : TrendVerdict

-- Twenty-four hours, in nanoseconds.
abbrev pub day : ℕ
day = 86_400_000_000_000

-- `rfc3339` and `plain` are time.Parse under RFC 3339 and under the layout 2006-01-02T15:04:05Z, `none`
-- the error; `now` is the time of the call. Times are far past the year 1, so no cutoff is negative.
module _ (rfc3339 plain : Text → Option ℕ) where
  unfoldable pub split_time : Text → ℕ
  split_time ts = elim (rfc3339 ts) [
    | some t ↦ t
    | none ↦ elim (plain ts) [ some t ↦ t | none ↦ 0 ]
  ]

  -- ts.After(cutoff)
  abbrev pub is_current : ℕ → StoredEvent → Bool
  is_current cutoff ev = ltb cutoff (split_time ev.ts)

  -- SplitWindow: the current and the previous events.
  unfoldable pub split_window : ℕ → List StoredEvent → ℕ → List StoredEvent × List StoredEvent
  split_window now events days =
      let cutoff = now - days / 2 * day in
      if nat_beq days 0
      then ([], [])
      else (select (is_current cutoff) events, select (λ ev. not (is_current cutoff ev)) events)

-- prevSpend and curSpend
unfoldable pub project_spend : List StoredEvent → Assoc Text ℕ
project_spend = tally (λ ev. ev.project) spend

-- The keys of both maps, each once.
unfoldable pub seen_projects : Assoc Text ℕ → Assoc Text ℕ → List Text
seen_projects cur prev = keys cur ++ select (λ p. not (has_key p cur)) (keys prev)

abbrev pub mover : Text → ℕ → ℕ → ProjectMover
mover p c v = record {
  project = p;
  current = c;
  previous = v;
  delta = sub_ℕ c v;
  verdict = if ltb c v then trend_down else trend_up;
}

-- The loop over the seen projects; a project whose spend did not change is passed over.
unfoldable pub movers_of : Assoc Text ℕ → Assoc Text ℕ → List Text → List ProjectMover
movers_of cur prev [] = []
movers_of cur prev (p ∷ ps) =
    let c = get_or 0 p cur in
    let v = get_or 0 p prev in
    let rest = movers_of cur prev ps in if nat_beq c v then rest else mover p c v ∷ rest

-- The absolute value.
abbrev pub abs : ℤ → ℕ
abs a = pos_part a + neg_part a

abbrev pub moves_more : ProjectMover → ProjectMover → Bool
moves_more a b = ltb (abs b.delta) (abs a.delta)

unfoldable pub project_movers : List StoredEvent → List StoredEvent → List ProjectMover
project_movers current previous =
    let cur = project_spend current in
    let prev = project_spend previous in
    sort_by moves_more (movers_of cur prev (seen_projects cur prev))

-- `fixed n x` is the verb %.nf and `signed n x` the verb %+.nf.
module _ {F : Type 0} ⦃d : Float64 F⦄ where
  abbrev pub flat_threshold : F
  flat_threshold = d.lit 2 100

  unfoldable pub trend_verdict : F → F → Bool → TrendVerdict
  trend_verdict cur prev higher_is_better =
      let delta = d.sub cur prev in
      if d.lt flat_threshold delta
      then (if higher_is_better then trend_up else trend_down)
      else if d.lt delta (d.sub (of_nat 0) flat_threshold)
      then (if higher_is_better then trend_down else trend_up)
      else trend_flat

  module _ (fixed signed : ℕ → F → Text) where
    unfoldable pub trend_row : MetricKey → Text → F → F → Bool → TrendRow F
    unfolding trend_verdict
    trend_row key label cur prev higher_is_better = record {
      key = key;
      label = label;
      current = cur;
      previous = prev;
      delta = d.sub cur prev;
      verdict = trend_verdict cur prev higher_is_better;
      fmt_current = fixed 1 (d.mul cur (d.lit 100 1)) ++ codes "%";
      fmt_delta = signed 1 (d.mul (d.sub cur prev) (d.lit 100 1)) ++ codes "%";
    }

    abbrev pub trend_rows : Metrics F → Metrics F → List (TrendRow F)
    trend_rows cur prev =
        trend_row cache_miss (codes "Cache hit ratio") cur.cache_hit_ratio prev.cache_hit_ratio true
        ∷ trend_row rework (codes "Rework ratio") cur.rework_ratio prev.rework_ratio false
        ∷ trend_row premium_waste (codes "Premium waste share") cur.premium_waste_share
            prev.premium_waste_share false
        ∷ trend_row cold_restart (codes "Cold restart share") cur.cold_restart_share
            prev.cold_restart_share false
        ∷ trend_row bloat (codes "Context bloat share") cur.context_bloat_share
            prev.context_bloat_share false
        ∷ trend_row retry_loop (codes "Retry share") cur.retry_share prev.retry_share false
        ∷ []

    unfoldable pub compute_trends :
        (rfc3339 plain : Text → Option ℕ)
        → PricingService F
        → ℕ
        → List StoredEvent
        → ℕ
        → List (TrendRow F) × List ProjectMover
    compute_trends rfc3339 plain pricing now events days =
        let halves = split_window rfc3339 plain now events days in
        (
          trend_rows (compute rfc3339 pricing halves.0) (compute rfc3339 pricing halves.1),
          project_movers halves.0 halves.1,
        )
