-- ===== src/Render/Format.antt =====
-- infrastructure/render/format.go: numbers, bars and tables as text.
use codeburn_watcher.Prelude.{
  ℕ, zero, suc, ◌-◌, Option, none, some, List, [], ◌∷◌, ◌++◌, Text, codes, leb, if◌then◌else◌,
}
use codeburn_watcher.Prelude.Int.{ℤ, pos, negsuc, ◌-ℤ◌}
use codeburn_watcher.Prelude.Float.{Float64, of_nat}

-- The verbs of fmt: `int` is %d, `signed_int` %+d, `fixed n` %.nf, `int_padded n` %nd and `left n` %-ns;
-- `string_width` is that of go-runewidth.
pub record Printing (F : Type 0) : Type 0 where
  pub int : ℤ → Text
  pub signed_int : ℤ → Text
  pub fixed : ℕ → F → Text
  pub int_padded : ℕ → ℤ → Text
  pub left : ℕ → Text → Text
  pub string_width : Text → ℕ

abbrev pub replicate : ℕ → Text → Text
replicate zero s = []
replicate (suc n) s = s ++ replicate n s

-- strings.Repeat panics on a negative count.
abbrev pub repeat_text : Text → ℤ → Option Text
repeat_text s (pos n) = some (replicate n s)
repeat_text s (negsuc n) = none

module _ {F : Type 0} ⦃d : Float64 F⦄ (p : Printing F) where
  unfoldable pub fmt_tokens : ℕ → Text
  fmt_tokens n =
      if leb 1_000_000 n
      then p.fixed 1 (d.div (of_nat n) (d.lit 1_000_000 1)) ++ codes "M"
      else if leb 1_000 n
      then p.fixed 1 (d.div (of_nat n) (d.lit 1_000 1)) ++ codes "K"
      else p.int (pos n)

  unfoldable pub fmt_cost : F → Text
  fmt_cost usd = codes "$" ++ p.fixed 4 usd

  unfoldable pub fmt_pct : F → Text
  fmt_pct ratio = p.fixed 1 (d.mul ratio (d.lit 100 1)) ++ codes "%"

  unfoldable pub fmt_trend_value : F → Text
  fmt_trend_value ratio =
      let pct = d.mul (d.sub ratio (d.lit 1 1)) (d.lit 100 1) in
      if d.lt (of_nat 0) pct
      then codes "+" ++ (p.fixed 1 pct ++ codes "%")
      else p.fixed 1 pct ++ codes "%"

-- The ratio after the two tests of Bar.
abbrev pub clamp : {F : Type 0} ⦃d : Float64 F⦄ → F → F
clamp ⦃d⦄ r =
    let low = if d.lt r (of_nat 0) then of_nat 0 else r in
    if d.lt (of_nat 1) low then of_nat 1 else low

-- The two parts of a bar.
abbrev pub bar_parts : Option Text → Option Text → Option Text
bar_parts none rest = none
bar_parts (some filled) none = none
bar_parts (some filled) (some rest) = some (codes "[" ++ (filled ++ (rest ++ codes "]")))

-- `none` is the panic of strings.Repeat.
unfoldable pub bar : {F : Type 0} ⦃d : Float64 F⦄ → F → ℕ → Option Text
bar ⦃d⦄ r w =
    let filled = d.trunc (d.mul (clamp r) (of_nat w)) in
    bar_parts (repeat_text (codes "█") filled) (repeat_text (codes "░") (pos w -ℤ filled))

module _ (string_width : Text → ℕ) where
  unfoldable pub pad_right : Text → ℕ → Text
  pad_right s w =
      let sw = string_width s in if leb w sw then s else s ++ replicate (w - sw) (codes " ")

  -- The loop over the cells of a row, with the widths that are left: 12 where there is none.
  unfoldable pub row_text : List ℕ → List Text → Text
  row_text cols [] = []
  row_text [] (c ∷ cs) = pad_right c 12 ++ (codes "  " ++ row_text [] cs)
  row_text (w ∷ cols) (c ∷ cs) = pad_right c w ++ (codes "  " ++ row_text cols cs)

  unfoldable pub rows_text : List ℕ → List (List Text) → Text
  rows_text cols [] = []
  rows_text cols (row ∷ rows) = row_text cols row ++ (codes "\n" ++ rows_text cols rows)

  abbrev pub rule : Text
  rule = replicate 80 (codes "─")

  unfoldable pub table : List Text → List (List Text) → List ℕ → Text
  table header rows cols =
      rule
      ++ (codes "\n"
          ++ (row_text cols header
              ++ (codes "\n" ++ (rule ++ (codes "\n" ++ rows_text cols rows)))))
