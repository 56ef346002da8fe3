-- ===== src/Render/Marks.antt =====
-- The tags of the parts of the main dashboard.
use codeburn_watcher.Prelude.{
  ℕ, ◌≡◌, refl, sym, ap, ◌∙◌, Bool, true, false, List, [], ◌∷◌, ◌++◌, Text, codes, leb, arith,
  if◌then◌else◌,
}
use codeburn_watcher.Prelude.Int.{ℤ, pos, negsuc, ltb_ℤ}
use codeburn_watcher.Shared.{activity_eq}
use codeburn_watcher.Insights.Trend.{TrendVerdict, trend_down}
use codeburn_watcher.Render.Tags.{tags, tags_from}
use codeburn_watcher.Render.Html.{
  activity_title, recommendation_title, trend_title, ratio_title, html_foot, section,
}
use codeburn_watcher.Render.Pages.{cell, repeated}
use mathlib.Core.List.{append_assoc}

abbrev pub tr : List Text → List Text
tr ts = codes "tr" ∷ (ts ++ (codes "/tr" ∷ []))

abbrev pub activity_tags : List Text
activity_tags = tr (cell ++ (cell ++ cell))

abbrev pub recommendation_tags : List Text
recommendation_tags =
    tr (cell ++ ((codes "td" ∷ codes "code" ∷ codes "/code" ∷ codes "/td" ∷ []) ++ (cell ++ cell)))

-- The class of the last cell of a trend: a fall is a warning.
abbrev pub verdict_class : TrendVerdict → Text
verdict_class trend_down = codes "warn"
verdict_class _ = codes "ok"

abbrev pub trend_tags : TrendVerdict → List Text
trend_tags v = tr (
    cell
    ++ (cell
        ++ (cell
            ++ (cell
                ++ ((codes "td class=\"" ++ (verdict_class v ++ codes "\"")) ∷ codes "/td" ∷ [])))))

-- The tags of a block's title and rows, if it is shown.
abbrev pub section_tags : Bool → List Text → List Text → List Text
section_tags false title rows = []
section_tags true title rows = title ++ (rows ++ (codes "/table" ∷ []))

abbrev pub titled : ℕ → List Text
titled n =
    codes "h2" ∷ (codes "/h2" ∷ (codes "table" ∷ tr (repeated n (codes "th" ∷ codes "/th" ∷ []))))

abbrev pub at_most_100 : ℤ → ℤ
at_most_100 (pos n) = pos (if leb n 100 then n else 100)
at_most_100 (negsuc n) = negsuc n

pub at_most_100_lem : (w : ℤ) → (if ltb_ℤ (pos 100) w then pos 100 else w) ≡ at_most_100 w
at_most_100_lem (pos n) = ground arith
at_most_100_lem (negsuc n) = ground arith

-- A part of a page with its tags.
abbrev pub Marks : Text → List Text → Type 0
Marks x ts = (t : Text) → tags (x ++ t) ≡ ts ++ tags t

pub Marks-append :
    (x y : Text) (ts us : List Text) → Marks x ts → Marks y us → Marks (x ++ y) (ts ++ us)
Marks-append x y ts us h k t =
    ap tags (append_assoc x y t)
    ∙ h (y ++ t)
    ∙ ap (λ vs. ts ++ vs) (k t)
    ∙ sym (append_assoc ts us (tags t))

pub end_marks : tags html_foot ≡ codes "/body" ∷ codes "/html" ∷ []
unfolding tags_from
end_marks = refl

pub ratio_title-Marks : Marks ratio_title (titled 3)
unfolding tags_from
ratio_title-Marks t = refl

pub activity_title-Marks : Marks activity_title (titled 3)
unfolding tags_from
activity_title-Marks t = refl

pub recommendation_title-Marks : Marks recommendation_title (titled 4)
unfolding tags_from
recommendation_title-Marks t = refl

pub trend_title-Marks : Marks trend_title (titled 5)
unfolding tags_from
trend_title-Marks t = refl

pub table-Marks : Marks (codes "</table>\n") (codes "/table" ∷ [])
unfolding tags_from
table-Marks t = refl

pub Marks-section :
    (b : Bool) (title body : Text) (head rows : List Text)
    → Marks title head
    → Marks body rows
    → Marks (section b title body) (section_tags b head rows)
Marks-section false title body head rows h k t = refl
Marks-section true title body head rows h k t =
    Marks-append title (body ++ codes "</table>\n") head (rows ++ (codes "/table" ∷ [])) h
      (Marks-append body (codes "</table>\n") rows (codes "/table" ∷ []) k table-Marks) t
