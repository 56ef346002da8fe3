-- ===== src/Render/Tags.antt =====
-- The tags of a page: what stands between angle brackets.
use codeburn_watcher.Prelude.{
  ℕ, ◌≡◌, refl, sym, ap, ◌∙◌, false, List, [], ◌∷◌, ◌++◌, Text, nat_beq, arith, if◌then◌else◌, any,
}
use mathlib.Core.List.{append_assoc, append-nil}
use codeburn_watcher.Render.{esc}
use codeburn_watcher.Render.Escaped.{is_special, esc-unescape}

-- A reader of the page: outside of a tag, or in one of which it has read a part.
pub data Reader : Type 0 where
  outside : Reader
  inside : Text → Reader

-- The reader after a byte, with the tag that this byte closes.
abbrev pub read : Reader → ℕ → Reader × List Text
read outside c = if nat_beq c b'<' then (inside [], []) else (outside, [])
read (inside t) c = if nat_beq c b'>' then (outside, t ∷ []) else (inside (t ++ (c ∷ [])), [])

-- The tags that are closed while a text is read.
unfoldable pub tags_from : Reader → Text → List Text
tags_from r [] = []
tags_from r (c ∷ s) = let (r', closed) = read r c in closed ++ tags_from r' s

abbrev pub tags : Text → List Text
tags s = tags_from outside s

-- A text without special characters closes no tag, and adds to a tag that is being read.
pub plain-outside :
    (s t : Text) → any is_special s ≡ false → tags_from outside (s ++ t) ≡ tags_from outside t
unfolding tags_from
plain-outside [] t h = refl
plain-outside (c ∷ s) t h =
    let other : nat_beq c b'<' ≡ false = ground arith in
    let rest : any is_special s ≡ false = ground arith in rw other (plain-outside s t rest)

pub plain-inside :
    (u s t : Text)
    → any is_special s ≡ false
    → tags_from (inside u) (s ++ t) ≡ tags_from (inside (u ++ s)) t
unfolding tags_from
plain-inside u [] t h = ap (λ v. tags_from (inside v) t) (sym (append-nil u))
plain-inside u (c ∷ s) t h =
    let other : nat_beq c b'>' ≡ false = ground arith in
    let rest : any is_special s ≡ false = ground arith in
    rw other (
      plain-inside (u ++ (c ∷ [])) s t rest
      ∙ ap (λ v. tags_from (inside v) t) (append_assoc u (c ∷ []) s))

-- An escaped text closes no tag.
pub esc-outside : (s t : Text) → tags_from outside (esc s ++ t) ≡ tags_from outside t
esc-outside s t = plain-outside (esc s) t (esc-unescape s).safe

-- Reading goes on where the first text ends.
unfoldable pub reader_after : Reader → Text → Reader
reader_after r [] = r
reader_after r (c ∷ s) = reader_after (read r c).0 s

pub tags_from-append :
    (r : Reader) (s t : Text)
    → tags_from r (s ++ t) ≡ tags_from r s ++ tags_from (reader_after r s) t
unfolding tags_from reader_after
tags_from-append r [] t = refl
tags_from-append r (c ∷ s) t =
    ap (λ ts. (read r c).1 ++ ts) (tags_from-append (read r c).0 s t)
    ∙ sym (
        append_assoc (read r c).1 (tags_from (read r c).0 s)
          (tags_from (reader_after (read r c).0 s) t))
