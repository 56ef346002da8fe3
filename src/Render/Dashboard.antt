-- ===== src/Render/Dashboard.antt =====
-- The tags of the main dashboard, which no text of the data changes.
use codeburn_watcher.Prelude.{
  Option, none, some, List, [], ◌∷◌, ◌++◌, Text, codes, length, lookup, ltb, if◌then◌else◌,
}
use codeburn_watcher.Prelude.Int.{ℤ}
use codeburn_watcher.Prelude.Float.{Float64}
use codeburn_watcher.Shared.{activities, activity_eq}
use codeburn_watcher.Analytics.Metrics.{Metrics, ActivityBreakdown}
use codeburn_watcher.Insights.Recommendation.{EnrichedRecommendation}
use codeburn_watcher.Insights.Trend.{TrendRow}
use codeburn_watcher.Render.Format.{Printing}
use codeburn_watcher.Render.Tags.{tags}
use codeburn_watcher.Render.Html.{html_head, not_empty, ratios}
use codeburn_watcher.Render.Pages.{cell, repeated, flat}
use codeburn_watcher.Render.Marks.{
  tr, activity_tags, recommendation_tags, trend_tags, section_tags, titled, at_most_100, Marks,
}

module _ {F : Type 0} ⦃d : Float64 F⦄ (p : Printing F) where
  -- The bar of a ratio has its width in a tag: the percentage without its fraction, at most 100.
  abbrev shown_width : F → ℤ
  shown_width val = at_most_100 (d.trunc (d.mul val (d.lit 100 1)))

  abbrev ratio_tags : Text × F → List Text
  ratio_tags (label, val) = tr (
      cell
      ++ (cell
          ++ (codes "td"
              ∷ (codes "span class=\"bar\" style=\"width:"
                  ++ (p.int (shown_width val) ++ codes "px\""))
              ∷ codes "/span"
              ∷ codes "/td"
              ∷ [])))

  abbrev shown_tags : Option (ActivityBreakdown F) → List Text
  shown_tags none = []
  shown_tags (some ab) = if ltb 0 ab.tokens then activity_tags else []

  -- The tags of a page: they depend on the widths of the bars, on which activities have tokens, on the
  -- number of recommendations, and on the verdicts of the trends.
  abbrev pub page_tags : Metrics F → List (EnrichedRecommendation F) → List (TrendRow F) → List Text
  page_tags m recs trends =
      tags html_head
      ++ ((codes "h1" ∷ codes "/h1" ∷ [])
          ++ ((titled 4 ++ (tr (repeated 4 cell) ++ (codes "/table" ∷ [])))
              ++ (titled 3
                  ++ (flat ratio_tags (ratios p m)
                      ++ ((codes "/table" ∷ [])
                          ++ (section_tags (not_empty m.by_activity) (titled 3)
                                (flat (λ act. shown_tags (lookup act m.by_activity)) activities)
                              ++ (section_tags (not_empty recs) (titled 4)
                                    (repeated (length recs) recommendation_tags)
                                  ++ (section_tags (not_empty trends) (titled 5)
                                        (flat (λ (t : TrendRow F). trend_tags t.verdict) trends)
                                      ++ (codes "/body" ∷ codes "/html" ∷ [])))))))))
