-- ===== src/DeepAnalysis/Sessions/Stats.antt =====
-- The statistics of the sessions against the events, and their bounds.
use mathlib.Core.List.{append-nil, append_assoc}
use native.Mathlib.Nat.{div-mul-le_self}
use codeburn_watcher.Prelude.{
  ℕ, ◌+◌, ◌*◌, ◌≤◌, ◌≡◌, refl, ap, ◌∙◌, Option, none, some, List, [], ◌∷◌, ◌++◌, map, foldl, keys,
  distinct, arith, Text, text_eq, Assoc, values, if◌then◌else◌, length, length-append, sum_by,
  sum_by-append, All,
}
use codeburn_watcher.Prelude.Int.{ℤ}
use codeburn_watcher.Prelude.Float.{Float64}
use codeburn_watcher.Shared.{Activity, testing, StoredEvent, all_tokens}
use codeburn_watcher.Analytics.Price.{PricingService}
use codeburn_watcher.DeepAnalysis.Sessions.Groups.{
  events_of, HasTurns, group_events-HasTurns, keys-group_events, group_events-events_of,
}
use codeburn_watcher.DeepAnalysis.Sessions.{
  SessionStat, SessionAccum, group_events, StatLoop, is_fix, start_loop, stat_step, build_stat,
  stats_of, compute_session_stats,
}

-- What holds of the statistics of every session.
pub record IsBounded {F : Type 0} (st : SessionStat F) : Type 0 where
  pub errors_le : st.error_turns ≤ st.turns
  pub fixes_le : 2 * st.fix_iterations ≤ st.turns
  pub cold_le : st.cold_restart_turns ≤ st.turns
  pub cold_tokens_le : st.cold_restart_tokens ≤ st.spend_tokens
  pub context_le : st.avg_context_tokens * st.turns ≤ st.spend_tokens

-- A test that may still begin a fix.
abbrev pending : Option Activity → ℕ
pending (some testing) = 1
pending _ = 0

pub record IsLoop {F : Type 0} (s : StatLoop F) (l : List StoredEvent) : Type 0 where
  pub errors : s.err_turns ≤ length l
  pub fixes : 2 * s.fix_iter + pending s.prev_activity ≤ length l
  pub cold : s.cold_restart_turns ≤ length l
  pub cold_tokens : s.cold_restart_tok ≤ s.spend_tok
  pub spent : s.spend_tok ≡ sum_by all_tokens l

fix_step :
    (prev : Option Activity) (a : Activity) (fixes n : ℕ)
    → 2 * fixes + pending prev ≤ n
    → 2 * (if is_fix prev a then fixes + 1 else fixes) + pending (some a) ≤ n + 1
fix_step none a fixes n h = ground arith
fix_step (some p) a fixes n h = ground arith

module _ {F : Type 0} ⦃d : Float64 F⦄ (parse_time : Text → Option ℕ) (minutes : ℤ → F)
    (pricing : PricingService F) where
  stat_step-IsLoop :
      (s : StatLoop F) (l : List StoredEvent) (ev : StoredEvent)
      → IsLoop s l
      → IsLoop (stat_step parse_time minutes pricing s ev) (l ++ (ev ∷ []))
  unfolding stat_step
  stat_step-IsLoop s l ev h =
      let n = length-append l (ev ∷ []) in
      let tok = sum_by-append all_tokens l (ev ∷ []) in
      record {
        errors = ground (arith, h.errors, n);
        fixes =
            omega (arith, fix_step s.prev_activity ev.activity s.fix_iter (length l) h.fixes, n);
        cold = ground (arith, h.cold, n);
        cold_tokens = ground (arith, h.cold_tokens);
        spent = omega (arith, h.spent, tok);
      }

  foldl-IsLoop :
      (l : List StoredEvent) (s : StatLoop F) (before : List StoredEvent)
      → IsLoop s before
      → IsLoop (foldl (stat_step parse_time minutes pricing) s l) (before ++ l)
  foldl-IsLoop [] s before h = rw append-nil h
  foldl-IsLoop (ev ∷ l) s before h = rw (← append_assoc before (ev ∷ []) l) (
      foldl-IsLoop l (stat_step parse_time minutes pricing s ev) (before ++ (ev ∷ []))
        (stat_step-IsLoop s before ev h))

  build_stat-IsBounded :
      (sid : Text) (acc : SessionAccum) → IsBounded (build_stat parse_time minutes pricing sid acc)
  unfolding build_stat
  build_stat-IsBounded sid acc =
      let s =
        foldl (stat_step parse_time minutes pricing) (start_loop parse_time minutes pricing)
          acc.turns in
      let h = foldl-IsLoop acc.turns (start_loop parse_time minutes pricing) [] (record {
        errors = omega arith;
        fixes = omega arith;
        cold = omega arith;
        cold_tokens = omega arith;
        spent = refl;
      }) in
      record {
        errors_le = h.errors;
        fixes_le = omega (arith, h.fixes);
        cold_le = h.cold;
        cold_tokens_le = h.cold_tokens;
        context_le = ground (arith, div-mul-le_self s.spend_tok (length acc.turns));
      }

  build_stat-spend :
      (sid : Text) (acc : SessionAccum)
      → (build_stat parse_time minutes pricing sid acc).spend_tokens ≡ sum_by all_tokens acc.turns
  unfolding build_stat
  build_stat-spend sid acc =
      (foldl-IsLoop acc.turns (start_loop parse_time minutes pricing) [] (record {
        errors = omega arith;
        fixes = omega arith;
        cold = omega arith;
        cold_tokens = omega arith;
        spent = refl;
      })).spent

  -- A statistic counts the turns and the tokens of the events of its session.
  pub record IsSessionStat (events : List StoredEvent) (st : SessionStat F) : Type 0 where
    pub turns_eq : st.turns ≡ length (events_of st.session_id events)
    pub spend_eq : st.spend_tokens ≡ sum_by all_tokens (events_of st.session_id events)
    pub bounded : IsBounded st

  -- The statistics of all sessions, in the order of their first events.
  pub record AreStats (events : List StoredEvent) (stats : List (SessionStat F)) : Type 0 where
    pub sessions_eq : map (λ st. st.session_id) stats ≡ distinct (map (λ ev. ev.session_id) events)
    pub each : All (IsSessionStat events) stats

  stats_of_lem :
      (events : List StoredEvent) (m : Assoc Text SessionAccum)
      → All HasTurns (values m)
      → All (λ e. e.1.turns ≡ events_of e.0 events) m
      → let stats = stats_of parse_time minutes pricing m in
        (map (λ st. st.session_id) stats ≡ keys m) × All (IsSessionStat events) stats
  unfolding stats_of build_stat
  stats_of_lem events [] full turns = (refl, tt)
  stats_of_lem events ((sid, acc) ∷ m) full turns =
      let (ids, each) = stats_of_lem events m full.1 turns.1 in
      let stat : IsSessionStat events (build_stat parse_time minutes pricing sid acc) = record {
        turns_eq = ap length turns.0;
        spend_eq = build_stat-spend sid acc ∙ ap (sum_by all_tokens) turns.0;
        bounded = build_stat-IsBounded sid acc;
      } in
      rw full.0 (ap (λ ks. sid ∷ ks) ids, (stat, each))

  -- One statistic for each session, in the order of their first events: its turns are the number of the
  -- events of the session and its tokens all tokens of these; and the turns with errors and those
  -- after a cold restart are no more than the turns, a fix takes two turns of its own, the tokens
  -- after cold restarts are no more than the session's, and neither is the average context times the
  -- turns.
  pub compute_session_stats-AreStats :
      (events : List StoredEvent)
      → AreStats events (compute_session_stats parse_time minutes pricing events)
  compute_session_stats-AreStats events =
      let (ids, each) =
        stats_of_lem events (group_events events) (group_events-HasTurns events)
          (group_events-events_of events) in
      record { sessions_eq = ids ∙ keys-group_events events; each = each }
