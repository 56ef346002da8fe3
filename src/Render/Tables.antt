-- ===== src/Render/Tables.antt =====
-- The lines of a table, and their widths.
use codeburn_watcher.Prelude.{
  ℕ, zero, suc, ◌+◌, ◌-◌, ◌≡◌, refl, ap, ◌∙◌, List, [], ◌∷◌, ◌++◌, map, Text, codes, arith, leb,
  if◌then◌else◌, All, Lacks, Lacks-append, split_at, split_at-append, Bool-cases, inl, inr,
}
use mathlib.Core.List.{append_assoc}
use codeburn_watcher.Render.Format.{replicate, pad_right, row_text, rows_text, rule, table}

-- The width of a text as go-runewidth measures it: nothing is 0 wide, and a blank stands by itself, 1 wide.
pub record IsWidth (width : Text → ℕ) : Type 0 where
  pub width-nil : width [] ≡ 0
  pub width-blank : (s t : Text) → width (s ++ (32 ∷ t)) ≡ width s + (1 + width t)

-- The larger of two numbers.
abbrev larger : ℕ → ℕ → ℕ
larger a b = if leb a b then b else a

-- The width of a row: of each cell its own or that of its column, the larger one, and two blanks.
abbrev pub row_width : (Text → ℕ) → List ℕ → List Text → ℕ
row_width width cols [] = 0
row_width width [] (c ∷ cs) = larger (width c) 12 + (2 + row_width width [] cs)
row_width width (w ∷ cols) (c ∷ cs) = larger (width c) w + (2 + row_width width cols cs)

module _ (width : Text → ℕ) where
  -- The lines of a table, and the width of each row.
  pub record HasLines (header : List Text) (rows : List (List Text)) (cols : List ℕ) : Type 0 where
    pub lines :
        split_at 10 (table width header rows cols)
        ≡ rule width
          ∷ (row_text width cols header
              ∷ (rule width ∷ (map (row_text width cols) rows ++ ([] ∷ []))))
    pub widths :
        All (λ row. width (row_text width cols row) ≡ row_width width cols row) (header ∷ rows)

module _ (width : Text → ℕ) (laws : IsWidth width) where
  width-blanks :
      (n : ℕ) (s t : Text)
      → width (s ++ (replicate n (codes " ") ++ (32 ∷ t))) ≡ width s + (n + (1 + width t))
  width-blanks zero s t = omega (arith, laws.width-blank s t)
  width-blanks (suc n) s t =
      laws.width-blank s (replicate n (codes " ") ++ (32 ∷ t))
      ∙ ap (λ k. width s + (1 + k)) (width-blanks n [] t)
      ∙ omega (arith, laws.width-nil)

  width-pad_right :
      (c : Text) (w : ℕ) (t : Text)
      → width (pad_right width c w ++ (32 ∷ t)) ≡ larger (width c) w + (1 + width t)
  unfolding pad_right
  width-pad_right c w t = elim (Bool-cases (leb w (width c))) [
    | inl h ↦ rw h (laws.width-blank c t ∙ ground arith)
    | inr h ↦ rw h (
        ap width (append_assoc c (replicate (w - width c) (codes " ")) (32 ∷ t))
        ∙ width-blanks (w - width c) c t
        ∙ ground arith)
  ]

  width-row_text :
      (cols : List ℕ) (cs : List Text) → width (row_text width cols cs) ≡ row_width width cols cs
  unfolding row_text
  width-row_text cols [] = laws.width-nil
  width-row_text [] (c ∷ cs) =
      width-pad_right c 12 (32 ∷ row_text width [] cs)
      ∙ omega
          (arith, laws.width-blank [] (row_text width [] cs), laws.width-nil, width-row_text [] cs)
  width-row_text (w ∷ cols) (c ∷ cs) =
      width-pad_right c w (32 ∷ row_text width cols cs)
      ∙ omega (
        arith,
        laws.width-blank [] (row_text width cols cs),
        laws.width-nil,
        width-row_text cols cs,
      )

  -- The lines of the rows.
  Lacks-replicate : (n : ℕ) (s : Text) → Lacks 10 s → Lacks 10 (replicate n s)
  Lacks-replicate zero s h = refl
  Lacks-replicate (suc n) s h = Lacks-append 10 s (replicate n s) h (Lacks-replicate n s h)

  Lacks-pad_right : (c : Text) (w : ℕ) → Lacks 10 c → Lacks 10 (pad_right width c w)
  unfolding pad_right
  Lacks-pad_right c w h = elim (Bool-cases (leb w (width c))) [
    | inl p ↦ rw p h
    | inr p ↦ rw p (
        Lacks-append 10 c (replicate (w - width c) (codes " ")) h
          (Lacks-replicate (w - width c) (codes " ") refl))
  ]

  Lacks-row_text :
      (cols : List ℕ) (cs : List Text) → All (Lacks 10) cs → Lacks 10 (row_text width cols cs)
  unfolding row_text
  Lacks-row_text cols [] h = refl
  Lacks-row_text [] (c ∷ cs) h =
      Lacks-append 10 (pad_right width c 12) (codes "  " ++ row_text width [] cs)
        (Lacks-pad_right c 12 h.0) (Lacks-row_text [] cs h.1)
  Lacks-row_text (w ∷ cols) (c ∷ cs) h =
      Lacks-append 10 (pad_right width c w) (codes "  " ++ row_text width cols cs)
        (Lacks-pad_right c w h.0) (Lacks-row_text cols cs h.1)

  split-rows_text :
      (cols : List ℕ) (rows : List (List Text))
      → All (All (Lacks 10)) rows
      → split_at 10 (rows_text width cols rows) ≡ map (row_text width cols) rows ++ ([] ∷ [])
  unfolding rows_text split_at
  split-rows_text cols [] h = refl
  split-rows_text cols (row ∷ rows) h =
      split_at-append 10 (row_text width cols row) (rows_text width cols rows)
        (Lacks-row_text cols row h.0)
      ∙ ap (λ ls. row_text width cols row ∷ ls) (split-rows_text cols rows h.1)

  All-widths :
      (cols : List ℕ) (rows : List (List Text))
      → All (λ row. width (row_text width cols row) ≡ row_width width cols row) rows
  All-widths cols [] = tt
  All-widths cols (row ∷ rows) = (width-row_text cols row, All-widths cols rows)

  -- If no cell has a line feed, the lines of a table are a rule, the header, the rule again and the rows,
  -- in their order, with an empty line at the end; and a row is as wide as all its cells, each padded to
  -- its column (12, where it has none) and followed by two blanks, where a cell that is wider than its
  -- column is not cut.
  pub table-HasLines :
      (header : List Text) (rows : List (List Text)) (cols : List ℕ)
      → All (All (Lacks 10)) (header ∷ rows)
      → HasLines width header rows cols
  unfolding table
  table-HasLines header rows cols h =
      let line = Lacks-replicate 80 (codes "─") refl in
      record {
        lines =
            split_at-append 10 (rule width) _ line
            ∙ ap (λ ls. rule width ∷ ls)
                (split_at-append 10 (row_text width cols header) _ (Lacks-row_text cols header h.0)
                  ∙ ap (λ ls. row_text width cols header ∷ ls)
                      (split_at-append 10 (rule width) (rows_text width cols rows) line
                        ∙ ap (λ ls. rule width ∷ ls) (split-rows_text cols rows h.1)));
        widths = All-widths cols (header ∷ rows);
      }
