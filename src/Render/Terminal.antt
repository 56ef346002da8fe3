-- ===== src/Render/Terminal.antt =====
-- infrastructure/render/terminal.go: the reports of the terminal. `none` is the panic of a bar.
use codeburn_watcher.Prelude.{
  ℕ, suc, ◌+◌, Bool, true, false, Option, none, some, List, [], ◌∷◌, ◌++◌, map, Text, codes, ltb,
  if◌then◌else◌, lookup, length, nat_beq, take, select, not,
}
use codeburn_watcher.Prelude.Int.{pos}
use codeburn_watcher.Prelude.Float.{Float64}
use codeburn_watcher.Shared.{Activity, activities, activity_eq}
use codeburn_watcher.Analytics.Metrics.{Metrics, ActivityBreakdown}
use codeburn_watcher.Insights.Recommendation.{EnrichedRecommendation}
use codeburn_watcher.Insights.Trend.{TrendRow, ProjectMover}
use codeburn_watcher.Reconciliation.{ReconciliationResult, ReconcileRow}
use codeburn_watcher.DeepAnalysis.Sessions.{DeepAnalysis, SessionStat}
use codeburn_watcher.DeepAnalysis.Tools.{ToolStat}
use codeburn_watcher.Team.Export.{Rollup}
use codeburn_watcher.Render.Names.{
  activity_name, metric_key_name, trend_verdict_name, reconcile_verdict_name,
}
use codeburn_watcher.Render.Format.{Printing, fmt_tokens, fmt_cost, fmt_pct, bar, table}
use codeburn_watcher.Render.Html.{concat_map, not_empty}

infixl 5 ◌>>=◌
abbrev pub ◌>>=◌ : {A B : Type 0} → Option A → (A → Option B) → Option B
none >>= f = none
some a >>= f = f a

-- A block with a title, if there is something to show.
abbrev pub block : Bool → Text → Text → Text
block false title body = []
block true title body = title ++ body

module _ {F : Type 0} ⦃d : Float64 F⦄ (p : Printing F) where
  abbrev pub title : ℕ → Text
  title days =
      codes "\n╔══════════════════════════════════════╗\n║   Token Monitor — Last "
      ++ (p.int (pos days) ++ codes " days        ║\n╚══════════════════════════════════════╝\n\n")

  abbrev pub totals : Metrics F → Text
  totals m =
      codes "  Events:   "
      ++ (fmt_tokens p m.events
          ++ (codes "   Sessions: "
              ++ (p.int (pos m.sessions)
                  ++ (codes "   Cost: "
                      ++ (fmt_cost p m.cost_usd
                          ++ (codes "\n  Tokens:   "
                              ++ (fmt_tokens p m.spend_tokens ++ codes "\n\n")))))))

  abbrev pub key_ratios : Metrics F → Text → Text → Text
  key_ratios m cache_bar rework_bar =
      codes "  ── Key Ratios ──────────────────────────\n  Cache Hit    "
      ++ (fmt_pct p m.cache_hit_ratio
          ++ (codes "  "
              ++ (cache_bar
                  ++ (codes "\n  Rework       "
                      ++ (fmt_pct p m.rework_ratio
                          ++ (codes "  "
                              ++ (rework_bar
                                  ++ (codes "\n  Think/Code   "
                                      ++ (fmt_pct p m.think_to_code_ratio
                                          ++ (codes "\n  Context Bloat "
                                              ++ (fmt_pct p m.context_bloat_share
                                                  ++ (codes "\n  Cold Restart  "
                                                      ++ (fmt_pct p m.cold_restart_share
                                                          ++ codes "\n\n")))))))))))))

  abbrev pub activity_line : Activity → ActivityBreakdown F → Text → Text
  activity_line act ab share_bar =
      codes "  "
      ++ (p.left 14 (activity_name act)
          ++ (codes " " ++ (fmt_tokens p ab.tokens ++ (codes "  " ++ (share_bar ++ codes "\n")))))

  abbrev pub shown_line : Activity → Option (ActivityBreakdown F) → Option Text
  shown_line act none = some []
  shown_line act (some ab) =
      if ltb 0 ab.tokens then (bar ab.share 15 >>= λ b. some (activity_line act ab b)) else some []

  -- The loop over the activities.
  unfoldable pub activity_lines : Metrics F → List Activity → Option Text
  activity_lines m [] = some []
  activity_lines m (act ∷ acts) = do
    line ← shown_line act (lookup act m.by_activity)
    rest ← activity_lines m acts
    some (line ++ rest)

  abbrev pub activity_block : Metrics F → Option Text
  activity_block m =
      if not_empty m.by_activity
      then (activity_lines m activities >>= λ l.
          some (codes "  ── Activity Breakdown ──────────────────\n" ++ (l ++ codes "\n")))
      else some []

  unfoldable pub recommendation_lines : ℕ → List (EnrichedRecommendation F) → Text
  recommendation_lines i [] = []
  recommendation_lines i (r ∷ rs) =
      codes "  "
      ++ (p.int (pos (i + 1))
          ++ (codes ". ["
              ++ (metric_key_name r.key
                  ++ (codes "] "
                      ++ (r.label
                          ++ (codes "\n     Potential savings: "
                              ++ (fmt_cost p (r.evidence).savings_usd
                                  ++ (codes "/mo\n" ++ recommendation_lines (suc i) rs))))))))

  abbrev pub mover_line : ProjectMover → Text
  mover_line m =
      codes "  "
      ++ (p.left 20 m.project
          ++ (codes " "
              ++ (trend_verdict_name m.verdict
                  ++ (codes "  " ++ (p.signed_int m.delta ++ codes " tokens\n")))))

  -- RenderReport; it takes the trends, and does not read them.
  unfoldable pub render_report :
      Metrics F
      → List (EnrichedRecommendation F)
      → List (TrendRow F)
      → List ProjectMover
      → ℕ
      → Option Text
  render_report m recs trends movers days = do
    cache_bar ← bar m.cache_hit_ratio 20
    rework_bar ← bar m.rework_ratio 20
    breakdown ← activity_block m
    some (
        title days
        ++ (totals m
            ++ (key_ratios m cache_bar rework_bar
                ++ (breakdown
                    ++ (block (not_empty recs)
                          (codes "  ── Recommendations ─────────────────────\n")
                          (recommendation_lines 0 (take 5 recs) ++ codes "\n")
                        ++ block (not_empty movers)
                            (codes "  ── Rising Projects ─────────────────────\n")
                            (concat_map mover_line movers ++ codes "\n"))))))

  abbrev pub trend_cells : TrendRow F → List Text
  trend_cells t =
      t.label
      ∷ fmt_pct p t.previous
      ∷ fmt_pct p t.current
      ∷ t.fmt_delta
      ∷ trend_verdict_name t.verdict
      ∷ []

  abbrev pub heading : Text → ℕ → Text → Text
  heading name days rest =
      codes "\n  ── " ++ (name ++ (codes " (last " ++ (p.int (pos days) ++ rest)))

  unfoldable pub render_trend : List (TrendRow F) → ℕ → Text
  render_trend trends days =
      heading (codes "Trend") days (codes " days) ─────────────────\n")
      ++ table p.string_width
          (codes "Metric" ∷ codes "Early" ∷ codes "Late" ∷ codes "Change" ∷ codes "Verdict" ∷ [])
          (map trend_cells trends) (20 ∷ 10 ∷ 10 ∷ 10 ∷ 12 ∷ [])

  unfoldable pub enriched_lines : ℕ → List (EnrichedRecommendation F) → Text
  enriched_lines i [] = []
  enriched_lines i (r ∷ rs) =
      codes "  "
      ++ (p.int_padded 2 (pos (i + 1))
          ++ (codes ". ["
              ++ (p.left 20 (metric_key_name r.key)
                  ++ (codes "] "
                      ++ (p.left 30 r.label
                          ++ (codes "  "
                              ++ (fmt_cost p (r.evidence).savings_usd
                                  ++ (codes "/mo\n" ++ enriched_lines (suc i) rs))))))))

  unfoldable pub render_enriched_recs : List (EnrichedRecommendation F) → Text
  render_enriched_recs recs =
      codes "\n  ── All Recommendations ─────────────────\n" ++ enriched_lines 0 recs

  abbrev pub rollup_cells : Rollup F → List Text
  rollup_cells r =
      r.label
      ∷ p.int (pos (length r.members))
      ∷ fmt_tokens p (r.metrics).spend_tokens
      ∷ fmt_cost p (r.metrics).cost_usd
      ∷ (r.persona).label
      ∷ []

  unfoldable pub render_team_report : List (Rollup F) → ℕ → Text
  render_team_report rollups days =
      heading (codes "Team Report") days (codes " days) ───────────\n")
      ++ table p.string_width
          (codes "Group" ∷ codes "Members" ∷ codes "Tokens" ∷ codes "Cost" ∷ codes "Persona" ∷ [])
          (map rollup_cells rollups) (18 ∷ 8 ∷ 10 ∷ 12 ∷ 14 ∷ [])

  abbrev pub expensive_line : SessionStat F → Text
  expensive_line s =
      codes "    "
      ++ (p.left 20 s.project
          ++ (codes "  "
              ++ (fmt_tokens p s.spend_tokens
                  ++ (codes "  " ++ (p.int (pos s.turns) ++ codes " turns\n")))))

  abbrev pub fix_line : SessionStat F → Text
  fix_line s =
      codes "    "
      ++ (p.left 20 s.project
          ++ (codes "  " ++ (p.int (pos s.fix_iterations) ++ codes " fix iterations\n")))

  abbrev pub tool_cells : ToolStat F → List Text
  tool_cells t =
      t.tool ∷ p.int (pos t.turns) ∷ p.int (pos t.error_turns) ∷ fmt_pct p t.error_rate ∷ []

  -- RenderAnalysis, with the tool statistics of the analysis; it does not read its metrics and
  -- recommendations.
  unfoldable pub render_analysis : DeepAnalysis F → List (ToolStat F) → ℕ → Text
  render_analysis deep tool_stats days =
      heading (codes "Deep Analysis") days (codes " days) ─────────\n\n")
      ++ (block (not_empty deep.expensive_sessions) (codes "  Top Sessions by Cost:\n")
            (concat_map expensive_line deep.expensive_sessions ++ codes "\n")
          ++ (block (not_empty deep.fix_loop_sessions)
                (codes "  Fix-Loop Sessions (≥2 testing→coding):\n")
                (concat_map fix_line deep.fix_loop_sessions ++ codes "\n")
              ++ block (not_empty tool_stats) (codes "  Top Tool Error Rates:\n") (
                  table p.string_width
                    (codes "Tool" ∷ codes "Turns" ∷ codes "Errors" ∷ codes "ErrorRate" ∷ [])
                    (map tool_cells (select (λ t. not (nat_beq t.error_turns 0)) tool_stats))
                    (20 ∷ 8 ∷ 8 ∷ 12 ∷ []))))

  abbrev pub reconcile_cells : ReconcileRow F → List Text
  reconcile_cells row =
      row.model
      ∷ fmt_tokens p row.local_tokens
      ∷ fmt_tokens p row.api_tokens
      ∷ fmt_pct p row.coverage
      ∷ reconcile_verdict_name row.verdict
      ∷ []

  unfoldable pub render_reconcile : Text → ReconciliationResult F → ℕ → Text
  render_reconcile provider result days =
      codes "\n  ── Reconciliation: "
      ++ (provider
          ++ (codes " (last "
              ++ (p.int (pos days)
                  ++ (codes " days) ── "
                      ++ ((if result.breach then codes "✗ BREACH" else codes "✓ OK")
                          ++ (codes "\n\n"
                              ++ table p.string_width
                                  (codes "Model"
                                    ∷ codes "Local"
                                    ∷ codes "API"
                                    ∷ codes "Coverage"
                                    ∷ codes "Verdict"
                                    ∷ [])
                                  (map reconcile_cells result.rows)
                                  (28 ∷ 10 ∷ 10 ∷ 12 ∷ 20 ∷ [])))))))
