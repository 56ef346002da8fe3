-- ===== src/Render/Html.antt =====
-- infrastructure/render/html.go: the dashboards.
use codeburn_watcher.Prelude.{
  ℕ, suc, ◌+◌, Bool, true, false, Option, none, some, List, [], ◌∷◌, ◌++◌, Text, codes, ltb,
  if◌then◌else◌, lookup, length,
}
use codeburn_watcher.Prelude.Int.{ℤ, pos, ltb_ℤ}
use codeburn_watcher.Prelude.Float.{Float64}
use codeburn_watcher.Shared.{Activity, activities, activity_eq}
use codeburn_watcher.Analytics.Metrics.{Metrics, ActivityBreakdown}
use codeburn_watcher.Insights.Recommendation.{EnrichedRecommendation}
use codeburn_watcher.Insights.Trend.{
  ProjectMover, TrendRow, TrendVerdict, trend_up, trend_down, trend_flat,
}
use codeburn_watcher.Team.Export.{Rollup}
use codeburn_watcher.Render.{esc}
use codeburn_watcher.Render.Names.{activity_name, metric_key_name, trend_verdict_name}
use codeburn_watcher.Render.Format.{Printing, fmt_tokens, fmt_cost, fmt_pct}

unfoldable pub html_head : Text
html_head =
    codes
      "<!DOCTYPE html>\n<html lang=\"en\">\n<head>\n<meta charset=\"UTF-8\">\n<meta name=\"viewport\" content=\"width=device-width,initial-scale=1\">\n<title>Token Monitor</title>\n<style>\n"
    ++ (codes
          "body{background:#0d1117;color:#c9d1d9;font-family:monospace;margin:2rem}\nh1,h2{color:#58a6ff}\ntable{border-collapse:collapse;width:100%;margin:1rem 0}\nth{background:#161b22;text-align:left;padding:8px 12px;border-bottom:1px solid #30363d}\ntd{padding:6px 12px;border-bottom:1px solid #21262d}\n"
        ++ codes
            ".ok{color:#3fb950}.warn{color:#d29922}.breach{color:#f85149}\n.bar{display:inline-block;background:#238636;height:8px;border-radius:2px}\n</style>\n</head>\n<body>\n")

abbrev pub html_foot : Text
html_foot = codes "</body></html>"

-- What each round of a loop writes, one after the other.
abbrev pub concat_map {ℓ} : {A : Type ℓ} → (A → Text) → List A → Text
concat_map f [] = []
concat_map f (x ∷ xs) = f x ++ concat_map f xs

-- A block that is written if there is something to show.
abbrev pub section : Bool → Text → Text → Text
section false title body = []
section true title body = title ++ (body ++ codes "</table>\n")

abbrev pub not_empty {ℓ} : {A : Type ℓ} → List A → Bool
not_empty [] = false
not_empty (x ∷ xs) = true

abbrev pub trend_class : TrendVerdict → Text
trend_class trend_up = codes "ok"
trend_class trend_down = codes "warn"
trend_class trend_flat = codes "ok"

-- The titles of the blocks, with the head of their table.
abbrev pub ratio_title : Text
ratio_title =
    codes "<h2>Key Ratios</h2>\n<table><tr><th>Metric</th><th>Value</th><th>Bar</th></tr>\n"

abbrev pub activity_title : Text
activity_title =
    codes
      "<h2>Activity Breakdown</h2>\n<table><tr><th>Activity</th><th>Tokens</th><th>Share</th></tr>\n"

abbrev pub recommendation_title : Text
recommendation_title =
    codes
      "<h2>Recommendations</h2>\n<table><tr><th>#</th><th>Finding</th><th>Label</th><th>Savings/mo</th></tr>\n"

abbrev pub trend_title : Text
trend_title =
    codes
      "<h2>Trends</h2>\n<table><tr><th>Metric</th><th>Previous</th><th>Current</th><th>Delta</th><th>Verdict</th></tr>\n"

module _ {F : Type 0} ⦃d : Float64 F⦄ (p : Printing F) where
  abbrev pub overview : Metrics F → Text
  overview m =
      codes "<h2>Overview</h2>\n<table><tr>"
      ++ (codes "<th>Events</th><th>Sessions</th><th>Tokens</th><th>Cost</th></tr><tr>"
          ++ (codes "<td>"
              ++ (esc (fmt_tokens p m.events)
                  ++ (codes "</td><td>"
                      ++ (p.int (pos m.sessions)
                          ++ (codes "</td><td>"
                              ++ (esc (fmt_tokens p m.spend_tokens)
                                  ++ (codes "</td><td>"
                                      ++ (esc (fmt_cost p m.cost_usd)
                                          ++ codes "</td></tr></table>\n")))))))))

  abbrev pub ratios : Metrics F → List (Text × F)
  ratios m =
      (codes "Cache Hit", m.cache_hit_ratio)
      ∷ (codes "Rework", m.rework_ratio)
      ∷ (codes "Think/Code", m.think_to_code_ratio)
      ∷ (codes "Context Bloat", m.context_bloat_share)
      ∷ (codes "Cold Restart", m.cold_restart_share)
      ∷ (codes "Premium Waste", m.premium_waste_share)
      ∷ (codes "Retry Share", m.retry_share)
      ∷ []

  -- barW
  abbrev pub bar_width : F → ℤ
  bar_width val =
      let w = d.trunc (d.mul val (d.lit 100 1)) in if ltb_ℤ (pos 100) w then pos 100 else w

  abbrev pub ratio_row : Text × F → Text
  ratio_row (label, val) =
      codes "<tr><td>"
      ++ (esc label
          ++ (codes "</td><td>"
              ++ (p.fixed 1 (d.mul val (d.lit 100 1))
                  ++ (codes "%</td><td><span class=\"bar\" style=\"width:"
                      ++ (p.int (bar_width val) ++ codes "px\"></span></td></tr>\n")))))

  abbrev pub activity_cells : ActivityBreakdown F → Activity → Text
  activity_cells ab act =
      codes "<tr><td>"
      ++ (esc (activity_name act)
          ++ (codes "</td><td>"
              ++ (esc (fmt_tokens p ab.tokens)
                  ++ (codes "</td><td>"
                      ++ (p.fixed 1 (d.mul ab.share (d.lit 100 1)) ++ codes "%</td></tr>\n")))))

  abbrev pub shown_activity : Option (ActivityBreakdown F) → Activity → Text
  shown_activity none act = []
  shown_activity (some ab) act = if ltb 0 ab.tokens then activity_cells ab act else []

  abbrev pub activity_row : Metrics F → Activity → Text
  activity_row m act = shown_activity (lookup act m.by_activity) act

  -- The rows of the recommendations, from index `i` on.
  unfoldable pub recommendation_rows : ℕ → List (EnrichedRecommendation F) → Text
  recommendation_rows i [] = []
  recommendation_rows i (r ∷ rs) =
      codes "<tr><td>"
      ++ (p.int (pos (i + 1))
          ++ (codes "</td><td><code>"
              ++ (esc (metric_key_name r.key)
                  ++ (codes "</code></td><td>"
                      ++ (esc r.label
                          ++ (codes "</td><td>"
                              ++ (esc (fmt_cost p (r.evidence).savings_usd)
                                  ++ (codes "</td></tr>\n" ++ recommendation_rows (suc i) rs))))))))

  abbrev pub trend_html : TrendRow F → Text
  trend_html t =
      codes "<tr><td>"
      ++ (esc t.label
          ++ (codes "</td><td>"
              ++ (esc t.fmt_current
                  ++ (codes "</td><td>"
                      ++ (esc (fmt_pct p t.current)
                          ++ (codes "</td><td>"
                              ++ (esc t.fmt_delta
                                  ++ (codes "</td><td class=\""
                                      ++ (trend_class t.verdict
                                          ++ (codes "\">"
                                              ++ (esc (trend_verdict_name t.verdict)
                                                  ++ codes "</td></tr>\n")))))))))))

  abbrev pub activity_section : Metrics F → Text
  activity_section m =
      section (not_empty m.by_activity) activity_title (concat_map (activity_row m) activities)

  abbrev pub recommendation_section : List (EnrichedRecommendation F) → Text
  recommendation_section recs =
      section (not_empty recs) recommendation_title (recommendation_rows 0 recs)

  abbrev pub trend_section : List (TrendRow F) → Text
  trend_section trends = section (not_empty trends) trend_title (concat_map trend_html trends)

  -- RenderHtml; it takes the movers, and does not read them.
  unfoldable pub render_html :
      Metrics F → List (EnrichedRecommendation F) → List (TrendRow F) → List ProjectMover → ℕ → Text
  render_html m recs trends movers days =
      html_head
      ++ (codes "<h1>Token Monitor — Last "
          ++ (p.int (pos days)
              ++ (codes " days</h1>\n"
                  ++ (overview m
                      ++ (ratio_title
                          ++ (concat_map ratio_row (ratios m)
                              ++ (codes "</table>\n"
                                  ++ (activity_section m
                                      ++ (recommendation_section recs
                                          ++ (trend_section trends ++ html_foot))))))))))

  abbrev pub rollup_row : Rollup F → Text
  rollup_row r =
      codes "<tr><td>"
      ++ (esc r.label
          ++ (codes "</td><td>"
              ++ (p.int (pos (length r.members))
                  ++ (codes "</td><td>"
                      ++ (esc (fmt_tokens p (r.metrics).spend_tokens)
                          ++ (codes "</td><td>"
                              ++ (esc (fmt_cost p (r.metrics).cost_usd)
                                  ++ (codes "</td><td>"
                                      ++ (esc (r.persona).label ++ codes "</td></tr>\n")))))))))

  unfoldable pub render_team_html : List (Rollup F) → ℕ → Text
  render_team_html rollups days =
      html_head
      ++ (codes "<h1>Team Report — Last "
          ++ (p.int (pos days)
              ++ (codes " days</h1>\n"
                  ++ (codes
                        "<table><tr><th>Group</th><th>Members</th><th>Tokens</th><th>Cost</th><th>Persona</th></tr>\n"
                      ++ (concat_map rollup_row rollups ++ (codes "</table>\n" ++ html_foot))))))
