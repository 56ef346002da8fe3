-- ===== src/Render.antt =====
-- infrastructure/render: here the escaping of texts in html.go; its formats, pages and reports are
-- in the modules below.
pub mod Escaped
pub mod Names
pub mod Format
pub mod Html
pub mod Tags
pub mod Pages
pub mod Marks
pub mod Dashboard
pub mod Tables
pub mod Bars
pub mod Terminal
use codeburn_watcher.Prelude.{
  ℕ, zero, suc, Bool, true, false, ◌&&◌, Option, none, some, List, [], ◌∷◌, ◌++◌, Text, codes,
  if◌then◌else◌, nat_beq, leb, ltb,
}

abbrev pub is_within : ℕ → ℕ → ℕ → Bool
is_within lo hi c = leb lo c && leb c hi

-- The text goes on with `n` bytes of a rune, the first of them from `lo` to `hi`.
unfoldable pub has_tail : ℕ → ℕ → ℕ → Text → Bool
has_tail zero lo hi s = true
has_tail (suc n) lo hi [] = false
has_tail (suc n) lo hi (c ∷ s) = is_within lo hi c && has_tail n 128 191 s

abbrev pub tail_of : ℕ → ℕ → ℕ → Text → Option ℕ
tail_of n lo hi s = if has_tail n lo hi s then some n else none

-- The range loop over a string: how many bytes follow the first one of a rune in UTF-8, or `none` if no
-- rune stands here, when the loop takes the byte alone for U+FFFD.
unfoldable pub rune_tail : ℕ → Text → Option ℕ
rune_tail c s =
    if ltb c 128
    then some 0
    else if is_within 194 223 c
    then tail_of 1 128 191 s
    else if nat_beq c 224
    then tail_of 2 160 191 s
    else if nat_beq c 237
    then tail_of 2 128 159 s
    else if is_within 225 239 c
    then tail_of 2 128 191 s
    else if nat_beq c 240
    then tail_of 3 144 191 s
    else if is_within 241 243 c
    then tail_of 3 128 191 s
    else if nat_beq c 244
    then tail_of 3 128 143 s
    else none

-- The cases of the switch, on the first byte of a rune.
abbrev pub escape_byte : ℕ → Text
escape_byte c =
    if nat_beq c b'&'
    then codes "&#38;"
    else if nat_beq c b'<'
    then codes "&#60;"
    else if nat_beq c b'>'
    then codes "&#62;"
    else if nat_beq c 34
    then codes "&#34;"
    else if nat_beq c 39
    then codes "&#39;"
    else c ∷ []

-- The loop, with the bytes of the current rune that are still to be written.
unfoldable pub esc_from : ℕ → Text → Text
esc_from k [] = []
esc_from (suc k) (c ∷ s) = c ∷ esc_from k s
esc_from zero (c ∷ s) = elim (rune_tail c s) [
  | none ↦ 239 ∷ (191 ∷ (189 ∷ esc_from zero s))
  | some n ↦ escape_byte c ++ esc_from n s
]

unfoldable pub esc : Text → Text
esc s = esc_from zero s
