-- ===== src/DeepAnalysis/Sessions.antt =====
-- internal/deepanalysis/session_analyzer.go, and SessionStat and DeepAnalysis of session_stat.go.
pub mod Groups
pub mod Stats
pub mod Top
use codeburn_watcher.Prelude.{
  ℕ, ◌+◌, ◌-◌, ◌*◌, ◌/◌, Bool, true, false, not, ◌&&◌, Option, none, some, List, [], ◌∷◌, ◌++◌, map,
  foldl, Text, text_eq, nat_eq, Assoc, upsert, take, drop, if◌then◌else◌, ltb, leb, nat_beq, ◌==◌,
  length, sum_by, select,
}
use codeburn_watcher.Prelude.Int.{ℤ, pos, sub_ℕ}
use codeburn_watcher.Prelude.Float.{Float64, of_nat}
use codeburn_watcher.Prelude.Sort.{sort_by}
use codeburn_watcher.Shared.{
  Source, Activity, exploration, coding, testing, activity_eq, StoredEvent, all_tokens,
}
use codeburn_watcher.Analytics.Price.{PricingService, cost_of}

pub record SessionStat (F : Type 0) : Type 0 where
  pub session_id : Text
  pub project : Text
  pub source : Source
  pub turns : ℕ
  pub spend_tokens : ℕ
  pub cost_usd : F
  pub error_turns : ℕ
  pub fix_iterations : ℕ
  pub avg_context_tokens : ℕ
  pub context_growth : F
  pub cold_restart_turns : ℕ
  pub cold_restart_tokens : ℕ
  pub duration_min : ℤ
  pub dominant : Activity

-- The lists that DeepAnalyze fills; it leaves ToolStats, the sixth, empty.
pub record DeepAnalysis (F : Type 0) : Type 0 where
  pub expensive_sessions : List (SessionStat F)
  pub fix_loop_sessions : List (SessionStat F)
  pub context_heavy_sessions : List (SessionStat F)
  pub bloat_trend_sessions : List (SessionStat F)
  pub cold_restart_sessions : List (SessionStat F)

-- Five minutes, in nanoseconds.
abbrev pub cold_restart_gap : ℕ
cold_restart_gap = 300_000_000_000

abbrev pub bloat_min_turns : ℕ
bloat_min_turns = 10

abbrev pub top_n : ℕ
top_n = 8

-- The events of a session, in their order, with the project and the source of the first.
pub record SessionAccum : Type 0 where
  pub project : Text
  pub source : Source
  pub turns : List StoredEvent
  pub act_counts : Assoc Activity ℕ

abbrev pub new_accum : StoredEvent → SessionAccum
new_accum ev = record { project = ev.project; source = ev.source; turns = []; act_counts = [] }

abbrev pub add_event : StoredEvent → SessionAccum → SessionAccum
add_event ev acc = record {
  project = acc.project;
  source = acc.source;
  turns = acc.turns ++ (ev ∷ []);
  act_counts = upsert 0 ev.activity (λ n. n + 1) acc.act_counts;
}

-- The sessions in the order of their first events, which `order` keeps in the source.
unfoldable pub group_events : List StoredEvent → Assoc Text SessionAccum
group_events = foldl (λ m ev. upsert (new_accum ev) ev.session_id (add_event ev) m) []

-- The variables of the loop of buildStat. A time is the number of nanoseconds since Go's zero time.
pub record StatLoop (F : Type 0) : Type 0 where
  pub spend_tok : ℕ
  pub err_turns : ℕ
  pub cold_restart_tok : ℕ
  pub cold_restart_turns : ℕ
  pub total_cost : F
  pub prev_activity : Option Activity
  pub fix_iter : ℕ
  pub ts_slice : List (ℕ × ℕ)
  pub prev_time : ℕ

abbrev pub is_fix : Option Activity → Activity → Bool
is_fix (some testing) coding = true
is_fix _ _ = false

-- !prevTime.IsZero() && t.Sub(prevTime) > coldRestartGap
abbrev pub is_cold : ℕ → Option ℕ → Bool
is_cold prev none = false
is_cold prev (some t) = not (prev == 0) && ltb (prev + cold_restart_gap) t

abbrev time_after : ℕ → Option ℕ → ℕ
time_after prev none = prev
time_after prev (some t) = t

abbrev slice_after : List (ℕ × ℕ) → Option ℕ → ℕ → List (ℕ × ℕ)
slice_after l none tok = l
slice_after l (some t) tok = l ++ ((t, tok) ∷ [])

-- The activity with the highest count. A loop over a Go map meets the entries in any order, so equal
-- counts may give any of their activities; here it is the first one that the session has.
unfoldable pub dominant_of : Assoc Activity ℕ → Activity
dominant_of counts = (foldl (λ s e. if ltb s.1 e.1 then e else s) (exploration, 0) counts).0

-- `parse_time` is time.Parse under RFC 3339, `none` its error, and `minutes` is Duration.Minutes.
module _ {F : Type 0} ⦃d : Float64 F⦄ (parse_time : Text → Option ℕ) (minutes : ℤ → F)
    (pricing : PricingService F) where
  abbrev pub start_loop : StatLoop F
  start_loop = record {
    spend_tok = 0;
    err_turns = 0;
    cold_restart_tok = 0;
    cold_restart_turns = 0;
    total_cost = of_nat 0;
    prev_activity = none;
    fix_iter = 0;
    ts_slice = [];
    prev_time = 0;
  }

  unfoldable pub stat_step : StatLoop F → StoredEvent → StatLoop F
  stat_step s ev =
      let tok = all_tokens ev in
      let t = parse_time ev.ts in
      let cold = is_cold s.prev_time t in
      let cost =
        cost_of pricing ev.model ev.input_tokens ev.output_tokens ev.cache_read_tokens
          ev.cache_creation_tokens in
      record {
        spend_tok = s.spend_tok + tok;
        err_turns = if ev.is_error then s.err_turns + 1 else s.err_turns;
        cold_restart_tok = if cold then s.cold_restart_tok + tok else s.cold_restart_tok;
        cold_restart_turns = if cold then s.cold_restart_turns + 1 else s.cold_restart_turns;
        total_cost = d.add s.total_cost cost.usd;
        prev_activity = some ev.activity;
        fix_iter = if is_fix s.prev_activity ev.activity then s.fix_iter + 1 else s.fix_iter;
        ts_slice = slice_after s.ts_slice t tok;
        prev_time = time_after s.prev_time t;
      }

  unfoldable pub growth_of : List (ℕ × ℕ) → F
  growth_of slice =
      let n = length slice in
      let mid = n / 2 in
      let early = d.div (of_nat (sum_by (λ e. e.1) (take mid slice))) (of_nat mid) in
      let late = d.div (of_nat (sum_by (λ e. e.1) (drop mid slice))) (of_nat (n - mid)) in
      if leb bloat_min_turns n
      then (if d.lt (of_nat 0) early then d.div late early else of_nat 0)
      else of_nat 0

  abbrev last_ts : ℕ → List (ℕ × ℕ) → ℕ
  last_ts t [] = t
  last_ts t (e ∷ l) = last_ts e.0 l

  unfoldable pub duration_of : List (ℕ × ℕ) → ℤ
  duration_of (first ∷ second ∷ l) = d.trunc (minutes (sub_ℕ (last_ts second.0 l) first.0))
  duration_of _ = pos 0

  unfoldable pub build_stat : Text → SessionAccum → SessionStat F
  build_stat sid acc =
      let s = foldl stat_step start_loop acc.turns in
      let n = length acc.turns in
      record {
        session_id = sid;
        project = acc.project;
        source = acc.source;
        turns = n;
        spend_tokens = s.spend_tok;
        cost_usd = s.total_cost;
        error_turns = s.err_turns;
        fix_iterations = s.fix_iter;
        avg_context_tokens = if ltb 0 n then s.spend_tok / n else 0;
        context_growth = growth_of s.ts_slice;
        cold_restart_turns = s.cold_restart_turns;
        cold_restart_tokens = s.cold_restart_tok;
        duration_min = duration_of s.ts_slice;
        dominant = dominant_of acc.act_counts;
      }

  -- The loop over the sessions.
  unfoldable pub stats_of : Assoc Text SessionAccum → List (SessionStat F)
  stats_of [] = []
  stats_of ((sid, acc) ∷ rest) =
      let others = stats_of rest in
      if nat_beq (length acc.turns) 0 then others else build_stat sid acc ∷ others

  abbrev pub compute_session_stats : List StoredEvent → List (SessionStat F)
  compute_session_stats events = stats_of (group_events events)

-- The function `top` of DeepAnalyze.
unfoldable pub top :
    {F : Type 0}
    → List (SessionStat F)
    → (SessionStat F → Bool)
    → (SessionStat F → SessionStat F → Bool)
    → List (SessionStat F)
top src filter less = take top_n (sort_by less (select filter src))

module _ {F : Type 0} ⦃d : Float64 F⦄ where
  abbrev pub by : (SessionStat F → ℕ) → SessionStat F → SessionStat F → Bool
  by f a b = ltb (f b) (f a)

  unfoldable pub deep_analyze_of : List (SessionStat F) → DeepAnalysis F
  deep_analyze_of stats = record {
    expensive_sessions = top stats (λ st. true) (by (λ st. st.spend_tokens));
    fix_loop_sessions = top stats (λ st. leb 2 st.fix_iterations) (by (λ st. st.fix_iterations));
    context_heavy_sessions = top stats (λ st. leb 10 st.turns) (by (λ st. st.avg_context_tokens));
    bloat_trend_sessions =
        top stats (λ st. d.le (d.lit 2 1) st.context_growth)
          (λ a b. d.lt b.context_growth a.context_growth);
    cold_restart_sessions =
        top stats (λ st. ltb 0 st.cold_restart_turns) (by (λ st. st.cold_restart_tokens));
  }

  abbrev pub deep_analyze :
      (Text → Option ℕ) → (ℤ → F) → PricingService F → List StoredEvent → DeepAnalysis F
  deep_analyze parse_time minutes pricing events =
      deep_analyze_of (compute_session_stats parse_time minutes pricing events)
