-- ===== src/Render/Pages.antt =====
-- The tags of the dashboards, which no text of the data changes.
use codeburn_watcher.Prelude.{
  ℕ, zero, suc, ◌≡◌, refl, sym, ap, ◌∙◌, false, List, [], ◌∷◌, ◌++◌, Text, codes, any, length,
}
use codeburn_watcher.Prelude.Int.{ℤ, pos}
use codeburn_watcher.Prelude.Float.{Float64}
use codeburn_watcher.Team.Export.{Rollup}
use codeburn_watcher.Render.Escaped.{is_special}
use codeburn_watcher.Render.Format.{Printing}
use codeburn_watcher.Render.Tags.{
  reader_after, tags_from-append, tags, tags_from, outside, plain-outside, esc-outside,
}
use codeburn_watcher.Render.Html.{html_head, html_foot, concat_map, rollup_row, render_team_html}
use mathlib.Core.List.{append_assoc}

-- The verbs %d and %.nf write no special characters.
pub record IsPrinting {F : Type 0} (p : Printing F) : Type 0 where
  pub int-plain : (z : ℤ) → any is_special (p.int z) ≡ false
  pub fixed-plain : (n : ℕ) (x : F) → any is_special (p.fixed n x) ≡ false

abbrev pub cell : List Text
cell = codes "td" ∷ codes "/td" ∷ []

abbrev rollup_tags : List Text
rollup_tags =
    (codes "tr" ∷ []) ++ (cell ++ (cell ++ (cell ++ (cell ++ (cell ++ (codes "/tr" ∷ []))))))

abbrev pub repeated : ℕ → List Text → List Text
repeated zero ts = []
repeated (suc n) ts = ts ++ repeated n ts

html_head-outside : reader_after outside html_head ≡ outside
unfolding reader_after html_head
html_head-outside = refl

pub tags-html_head :
    (t : Text) → tags_from outside (html_head ++ t) ≡ tags html_head ++ tags_from outside t
tags-html_head t =
    tags_from-append outside html_head t
    ∙ ap (λ r. tags html_head ++ tags_from r t) html_head-outside

abbrev team_heading : List Text
team_heading =
    (codes "table" ∷ codes "tr" ∷ [])
    ++ (repeated 5 (codes "th" ∷ codes "/th" ∷ []) ++ (codes "/tr" ∷ []))

pub foot_marks :
    tags (codes "</table>\n" ++ html_foot) ≡ codes "/table" ∷ codes "/body" ∷ codes "/html" ∷ []
unfolding tags_from
foot_marks = refl

abbrev pub team_tags : ℕ → List Text
team_tags n =
    tags html_head
    ++ (codes "h1"
        ∷ (codes "/h1"
            ∷ (team_heading
                ++ (repeated n rollup_tags
                    ++ (codes "/table" ∷ codes "/body" ∷ codes "/html" ∷ [])))))

-- Rows, each with the tags of its element.
abbrev pub flat {ℓ} : {A : Type ℓ} → (A → List Text) → List A → List Text
flat g [] = []
flat g (x ∷ xs) = g x ++ flat g xs

pub tags-concat_map {ℓ} :
    {A : Type ℓ} (f : A → Text) (g : A → List Text)
    → ((x : A) (t : Text) → tags (f x ++ t) ≡ g x ++ tags t)
    → (xs : List A) (t : Text) → tags (concat_map f xs ++ t) ≡ flat g xs ++ tags t
tags-concat_map f g h [] t = refl
tags-concat_map f g h (x ∷ xs) t =
    ap tags (append_assoc (f x) (concat_map f xs) t)
    ∙ h x (concat_map f xs ++ t)
    ∙ ap (λ ts. g x ++ ts) (tags-concat_map f g h xs t)
    ∙ sym (append_assoc (g x) (flat g xs) (tags t))

pub flat-const {ℓ} :
    {A : Type ℓ} (ts : List Text) (xs : List A) → flat (λ _. ts) xs ≡ repeated (length xs) ts
flat-const ts [] = refl
flat-const ts (x ∷ xs) = ap (λ us. ts ++ us) (flat-const ts xs)

module _ {F : Type 0} ⦃d : Float64 F⦄ (p : Printing F) (laws : IsPrinting p) where
  pub int-outside : (z : ℤ) (t : Text) → tags_from outside (p.int z ++ t) ≡ tags_from outside t
  int-outside z t = plain-outside (p.int z) t (laws.int-plain z)

  tags-rollup_row : (r : Rollup F) (t : Text) → tags (rollup_row p r ++ t) ≡ rollup_tags ++ tags t
  unfolding tags_from
  tags-rollup_row r t = simp (append_assoc, esc-outside, int-outside)

  -- The tags of the team's page with `n` rollups.
  team_marks :
      (t : Text)
      → tags (
          codes
            "<table><tr><th>Group</th><th>Members</th><th>Tokens</th><th>Cost</th><th>Persona</th></tr>\n"
          ++ t)
        ≡ team_heading ++ tags t
  unfolding tags_from
  team_marks t = refl

  title_marks :
      (days : ℕ) (t : Text)
      → tags (codes "<h1>Team Report — Last " ++ (p.int (pos days) ++ (codes " days</h1>\n" ++ t)))
        ≡ codes "h1" ∷ (codes "/h1" ∷ tags t)
  unfolding tags_from
  title_marks days t = simp int-outside

  -- The page of the team's report has the tags of its frame and of one row for each rollup, whatever the
  -- names, the personas and the numbers in them are.
  pub render_team_html-tags :
      (rollups : List (Rollup F)) (days : ℕ)
      → tags (render_team_html p rollups days) ≡ team_tags (length rollups)
  unfolding render_team_html
  render_team_html-tags rollups days =
      let rows = concat_map (rollup_row p) rollups in
      tags-html_head _
      ∙ ap (λ ts. tags html_head ++ ts)
          (title_marks days _
            ∙ ap (λ ts. codes "h1" ∷ (codes "/h1" ∷ ts))
                (team_marks (rows ++ (codes "</table>\n" ++ html_foot))
                  ∙ ap (λ ts. team_heading ++ ts)
                      (tags-concat_map (rollup_row p) (λ _. rollup_tags) tags-rollup_row rollups
                          (codes "</table>\n" ++ html_foot)
                        ∙ rw (flat-const rollup_tags rollups)
                            (ap (λ ts. repeated (length rollups) rollup_tags ++ ts) foot_marks))))
