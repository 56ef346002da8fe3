-- ===== src/Analytics/Engine.antt =====
-- internal/analytics/metrics_engine.go: MetricsEngine.Compute. Pass 1 folds the events into totals,
-- breakdowns and one state for each session; pass 2 derives the ratios.
pub mod Compute
pub mod Session
pub mod Totals
pub mod Sums
pub mod Ratios
pub mod Breakdown
use codeburn_watcher.Prelude.{
  ℕ, Option, none, some, codes, zero, suc, ◌+◌, ◌/◌, Bool, true, false, not, ◌&&◌, ◌||◌, List, [],
  ◌∷◌, ◌++◌, map, foldl, ltb, leb, Text, length, take, drop, sum_by, if◌then◌else◌, ◌==◌, Assoc,
  values, get_or, upsert, has_key, nat_eq, text_eq,
}
use codeburn_watcher.Prelude.Float.{Float64, of_nat}
use codeburn_watcher.Shared.{
  Activity, StoredEvent, activities, spend, thinking, coding, exploration, conversation,
  activity_eq,
}
use codeburn_watcher.Analytics.Price.{PricingService, cost_of, is_premium_model}
use codeburn_watcher.Analytics.Metrics.{Metrics, ActivityBreakdown, ModelBreakdown, zero_metrics}

abbrev pub bloat_min_turns : ℕ
bloat_min_turns = 10

-- Five minutes, in nanoseconds.
abbrev pub cold_restart_gap : ℕ
cold_restart_gap = 300_000_000_000

-- A time is the number of nanoseconds since the start of year 1, Go's zero time.
pub record SessionState : Type 0 where
  pub turns : ℕ
  pub spend_tokens : ℕ
  pub input_tokens : ℕ
  pub cache_read_tokens : ℕ
  pub cache_creation_tokens : ℕ
  pub output_tokens : ℕ
  pub error_turns : ℕ
  pub retry_tokens : ℕ
  pub cold_restart_tokens : ℕ
  pub by_activity : Assoc Activity ℕ
  pub context_per_turn : List ℕ
  pub last_ts : ℕ
  pub has_error : Bool
  pub last_tool : Text

abbrev pub new_session : SessionState
new_session = record {
  turns = 0;
  spend_tokens = 0;
  input_tokens = 0;
  cache_read_tokens = 0;
  cache_creation_tokens = 0;
  output_tokens = 0;
  error_turns = 0;
  retry_tokens = 0;
  cold_restart_tokens = 0;
  by_activity = [];
  context_per_turn = [];
  last_ts = 0;
  has_error = false;
  last_tool = [];
}

abbrev trim_z : Text → Text
trim_z [] = []
trim_z (c ∷ []) = if c == b'Z' then [] else c ∷ []
trim_z (c ∷ e ∷ s) = c ∷ trim_z (e ∷ s)

-- ts, _ := time.Parse(time.RFC3339, strings.TrimSuffix(ev.TS, "Z")+"Z"): the zero time on an error
unfoldable pub event_time : (Text → Option ℕ) → Text → ℕ
event_time parse_time ts = elim (parse_time (trim_z ts ++ codes "Z")) [ none ↦ 0 | some t ↦ t ]

-- !ss.lastTS.IsZero() && ts.Sub(ss.lastTS) > coldRestartGap
abbrev pub is_cold_restart : ℕ → ℕ → Bool
is_cold_restart last ts = not (last == 0) && ltb (last + cold_restart_gap) ts

-- The session-level accumulation of one event, at its parsed time.
unfoldable pub add_turn : ℕ → StoredEvent → SessionState → SessionState
add_turn ts ev ss =
    let failed = ss.has_error || ev.is_error in
    let retried = failed && not ev.is_error in
    record {
      turns = ss.turns + 1;
      spend_tokens = ss.spend_tokens + spend ev;
      input_tokens = ss.input_tokens + ev.input_tokens;
      cache_read_tokens = ss.cache_read_tokens + ev.cache_read_tokens;
      cache_creation_tokens = ss.cache_creation_tokens + ev.cache_creation_tokens;
      output_tokens = ss.output_tokens + ev.output_tokens;
      error_turns = if ev.is_error then ss.error_turns + 1 else ss.error_turns;
      retry_tokens = if retried then ss.retry_tokens + spend ev else ss.retry_tokens;
      cold_restart_tokens =
          if is_cold_restart ss.last_ts ts
          then ss.cold_restart_tokens + ev.input_tokens
          else ss.cold_restart_tokens;
      by_activity = upsert 0 ev.activity (λ t. t + spend ev) ss.by_activity;
      context_per_turn = ss.context_per_turn ++ ((ev.input_tokens + ev.cache_read_tokens) ∷ []);
      last_ts = ts;
      has_error = if retried then false else failed;
      last_tool = ss.last_tool;
    }

pub record Pass1 (F : Type 0) : Type 0 where
  pub sessions : Assoc Text SessionState
  pub session_order : List Text
  pub by_activity : Assoc Activity ℕ
  pub by_activity_cost : Assoc Activity F
  pub by_model : Assoc Text ℕ
  pub by_model_cost : Assoc Text F
  pub model_order : List Text
  pub total_events : ℕ
  pub total_input_tokens : ℕ
  pub total_output_tokens : ℕ
  pub total_cache_read_tokens : ℕ
  pub total_cache_creation_tokens : ℕ
  pub total_cost_usd : F
  pub cost_estimated : Bool
  pub cost_unpriced_tokens : ℕ

-- if _, seen := m[k]; !seen { order = append(order, k) }
abbrev pub note_key : {V : Type 0} → Text → Assoc Text V → List Text → List Text
note_key k m order = if has_key k m then order else order ++ (k ∷ [])

module _ {F : Type 0} ⦃d : Float64 F⦄ where
  abbrev pub start : Pass1 F
  start = record {
    sessions = [];
    session_order = [];
    by_activity = [];
    by_activity_cost = [];
    by_model = [];
    by_model_cost = [];
    model_order = [];
    total_events = 0;
    total_input_tokens = 0;
    total_output_tokens = 0;
    total_cache_read_tokens = 0;
    total_cache_creation_tokens = 0;
    total_cost_usd = of_nat 0;
    cost_estimated = false;
    cost_unpriced_tokens = 0;
  }

  unfoldable pub safe_div : F → F → F
  safe_div a b = if d.eq b (of_nat 0) then of_nat 0 else d.div a b

  unfoldable pub avg_int : List ℕ → F
  avg_int [] = of_nat 0
  avg_int (x ∷ xs) = d.div (of_nat (foldl ◌+◌ 0 (x ∷ xs))) (of_nat (length (x ∷ xs)))

abbrev pub is_long : SessionState → Bool
is_long ss = leb bloat_min_turns ss.turns

-- early > 0 && late/early >= bloatGrowthRatio, in a session that is long enough
unfoldable pub is_bloated : (F : Type 0) ⦃d : Float64 F⦄ → SessionState → Bool
is_bloated F ⦃d⦄ ss =
    let mid = length ss.context_per_turn / 2 in
    let early : F = avg_int (take mid ss.context_per_turn) in
    let late : F = avg_int (drop mid ss.context_per_turn) in
    is_long ss && (d.lt (of_nat 0) early && d.le (d.lit 2 1) (d.div late early))

abbrev pub is_low_value : Activity → Bool
is_low_value a = a == exploration || a == conversation

module _ {F : Type 0} (pricing : PricingService F) where
  -- The body of the loop over the events inside the loop over the sessions.
  abbrev pub waste_of : StoredEvent → ℕ
  waste_of ev =
      if ev.session_id == []
      then 0
      else if is_premium_model pricing ev.model && is_low_value ev.activity
      then spend ev
      else 0

  -- In pass 2 the waste of all events is summed once for each session.
  abbrev pub total_premium_waste : List StoredEvent → Pass1 F → ℕ
  total_premium_waste events s = sum_by (λ ss. sum_by waste_of events) (values s.sessions)

module _ {F : Type 0} ⦃d : Float64 F⦄ where
  -- Pass 2: each total is summed over the sessions.
  abbrev pub total_spend : Pass1 F → ℕ
  total_spend s = sum_by (λ ss. ss.spend_tokens) (values s.sessions)

  abbrev pub total_retry : Pass1 F → ℕ
  total_retry s = sum_by (λ ss. ss.retry_tokens) (values s.sessions)

  abbrev pub total_cold_restart : Pass1 F → ℕ
  total_cold_restart s = sum_by (λ ss. ss.cold_restart_tokens) (values s.sessions)

  abbrev pub total_long : Pass1 F → ℕ
  total_long s = sum_by (λ ss. if is_long ss then 1 else 0) (values s.sessions)

  abbrev pub total_bloat : Pass1 F → ℕ
  total_bloat s = sum_by (λ ss. if is_bloated F ss then 1 else 0) (values s.sessions)

  abbrev pub ratio : ℕ → ℕ → F
  ratio a b = safe_div (of_nat a) (of_nat b)

  -- `parse_time` is time.Parse under RFC 3339, `none` its error.
  module _ (parse_time : Text → Option ℕ) (pricing : PricingService F) where
    unfoldable pub pass1_step : Pass1 F → StoredEvent → Pass1 F
    pass1_step s ev =
        let cost =
          cost_of pricing ev.model ev.input_tokens ev.output_tokens ev.cache_read_tokens
            ev.cache_creation_tokens in
        record {
          sessions =
              upsert new_session ev.session_id (add_turn (event_time parse_time ev.ts) ev)
                s.sessions;
          session_order = note_key ev.session_id s.sessions s.session_order;
          by_activity = upsert 0 ev.activity (λ t. t + spend ev) s.by_activity;
          by_activity_cost =
              upsert (of_nat 0) ev.activity (λ c. d.add c cost.usd) s.by_activity_cost;
          by_model = upsert 0 ev.model (λ t. t + spend ev) s.by_model;
          by_model_cost = upsert (of_nat 0) ev.model (λ c. d.add c cost.usd) s.by_model_cost;
          model_order = note_key ev.model s.by_model s.model_order;
          total_events = s.total_events + 1;
          total_input_tokens = s.total_input_tokens + ev.input_tokens;
          total_output_tokens = s.total_output_tokens + ev.output_tokens;
          total_cache_read_tokens = s.total_cache_read_tokens + ev.cache_read_tokens;
          total_cache_creation_tokens = s.total_cache_creation_tokens + ev.cache_creation_tokens;
          total_cost_usd = d.add s.total_cost_usd cost.usd;
          cost_estimated = s.cost_estimated || cost.estimated;
          cost_unpriced_tokens =
              if cost.estimated
              then s.cost_unpriced_tokens + cost.unpriced_tokens
              else s.cost_unpriced_tokens;
        }

    unfoldable pub pass1 : List StoredEvent → Pass1 F
    pass1 = foldl pass1_step start
