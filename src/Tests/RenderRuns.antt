-- ===== src/Tests/RenderRuns.antt =====
-- The theorems on infrastructure/render at a concrete input.
use codeburn_watcher.Prelude.{length, length-append, arith, [], ◌∷◌, ◌≡◌, refl, false, codes}
use codeburn_watcher.Render.{esc, esc_from, rune_tail, has_tail}
use codeburn_watcher.Render.Format.{Printing}
use codeburn_watcher.Render.Tables.{IsWidth, HasLines, table-HasLines}
use codeburn_watcher.Prelude.Float.{Micro, micro_float}
use codeburn_watcher.Prelude.Int.{pos}
use codeburn_watcher.Insights.Finding.{rework}
use codeburn_watcher.Insights.Trend.{ProjectMover, TrendRow, trend_down, trend_up}
use codeburn_watcher.Insights.Recommendation.{EnrichedRecommendation}
use codeburn_watcher.Render.Escaped.{IsEscaped, esc-unescape}

esc-unescape_example : IsEscaped (60 ∷ (255 ∷ (195 ∷ (169 ∷ []))))
esc-unescape_example = esc-unescape (60 ∷ (255 ∷ (195 ∷ (169 ∷ []))))

-- A byte that is not UTF-8 is replaced.
esc_invalid : esc (60 ∷ (255 ∷ (195 ∷ (169 ∷ (195 ∷ []))))) ≡ codes "&#60;�é�"
unfolding esc esc_from rune_tail has_tail
esc_invalid = refl

esc_tag : esc (codes "<a&b>") ≡ codes "&#60;a&#38;b&#62;"
unfolding esc esc_from rune_tail has_tail
esc_tag = refl

abbrev printing : Printing Micro
printing = record {
  int = λ z. codes "1";
  signed_int = λ z. codes "+1";
  fixed = λ n x. codes "1.0";
  int_padded = λ n z. codes " 1";
  left = λ n t. t;
  string_width = length;
}

-- A recommendation and a trend whose texts try to add tags.
abbrev tagged_rec : EnrichedRecommendation Micro
tagged_rec = record {
  key = rework;
  label = codes "<script>";
  priority = 1;
  target = record { metric = rework; goal = pos 0; message = []; personal = false };
  evidence = record {
    current_value = pos 0;
    goal_value = pos 0;
    savings_usd = pos 0;
    metric_label = [];
    savings_label = [];
  };
}

abbrev tagged_trend : TrendRow Micro
tagged_trend = record {
  key = rework;
  label = codes "</table>";
  current = pos 0;
  previous = pos 0;
  delta = pos 0;
  verdict = trend_down;
  fmt_current = [];
  fmt_delta = codes "\">";
}

abbrev tagged_mover : ProjectMover
tagged_mover = record {
  project = codes "<b>";
  current = 1;
  previous = 0;
  delta = pos 1;
  verdict = trend_up;
}

length-IsWidth : IsWidth length
length-IsWidth = record {
  width-nil = refl;
  width-blank = λ s t. omega (arith, length-append s (32 ∷ t));
}

table-HasLines_example :
    HasLines length
      (codes "Tool" ∷ codes "Turns" ∷ [])
      ((codes "bash" ∷ codes "3" ∷ []) ∷ [])
      (20 ∷ 8 ∷ [])
table-HasLines_example =
    table-HasLines length length-IsWidth (codes "Tool" ∷ codes "Turns" ∷ [])
      ((codes "bash" ∷ codes "3" ∷ []) ∷ []) (20 ∷ 8 ∷ [])
      ((refl, (refl, tt)), ((refl, (refl, tt)), tt))
