-- ===== src/Render/Escaped.antt =====
-- What a browser reads of an escaped text.
use codeburn_watcher.Prelude.{
  leb, ◌&&◌, ℕ, ◌+◌, ◌-◌, ◌*◌, ◌≡◌, refl, ap, ◌∙◌, Bool, false, ◌||◌, [], ◌∷◌, ◌++◌, arith, Text,
  if◌then◌else◌, nat_beq, nat_eq, any, any-append, Bool-cases, inl, inr, Option-cases, sym, ◌⊎◌,
  ◌≢◌, zero, suc, true, Option, none, some,
}
use codeburn_watcher.Render.{escape_byte, esc, esc_from, has_tail, tail_of, rune_tail}

none≢some : {A : Type 0} {a : A} → ◌≢◌ {A = Option A} none (some a)
none≢some h = cc

false≢true : false ≢ true
false≢true h = cc

-- &#dd; with two decimal digits.
abbrev is_digit : ℕ → Bool
is_digit c = leb b'0' c && leb c b'9'

abbrev is_reference : ℕ → ℕ → ℕ → ℕ → ℕ → Bool
is_reference a h d e z =
    nat_beq a b'&' && nat_beq h b'#' && is_digit d && is_digit e && nat_beq z b';'

-- A character reference of two digits stands for the character of that number, all else for itself.
abbrev pub unescape : Text → Text
unescape [] = []
unescape (a ∷ []) = a ∷ []
unescape (a ∷ (h ∷ [])) = a ∷ (h ∷ [])
unescape (a ∷ (h ∷ (d ∷ []))) = a ∷ (h ∷ (d ∷ []))
unescape (a ∷ (h ∷ (d ∷ (e ∷ [])))) = a ∷ (h ∷ (d ∷ (e ∷ [])))
unescape (a ∷ (h ∷ (d ∷ (e ∷ (z ∷ s))))) =
    let read = ((d - b'0') * 10 + (e - b'0')) ∷ unescape s in
    let skip = a ∷ unescape (h ∷ (d ∷ (e ∷ (z ∷ s)))) in
    if is_reference a h d e z then read else skip

unescape_other : (c : ℕ) (s : Text) → nat_beq c b'&' ≡ false → unescape (c ∷ s) ≡ c ∷ unescape s
unescape_other c [] p = refl
unescape_other c (h ∷ []) p = refl
unescape_other c (h ∷ (d ∷ [])) p = refl
unescape_other c (h ∷ (d ∷ (e ∷ []))) p = refl
unescape_other c (h ∷ (d ∷ (e ∷ (z ∷ s)))) p = rw p refl

unescape-escape_byte : (c : ℕ) (s : Text) → unescape (escape_byte c ++ s) ≡ c ∷ unescape s
unescape-escape_byte c s = elim (Bool-cases (nat_beq c b'&')) [
  | inl p ↦ rw ((nat_eq.beq_iff c b'&').0 p) refl
  | inr p ↦ elim (Bool-cases (nat_beq c b'<')) [
    | inl q ↦ rw ((nat_eq.beq_iff c b'<').0 q) refl
    | inr q ↦ elim (Bool-cases (nat_beq c b'>')) [
      | inl r ↦ rw ((nat_eq.beq_iff c b'>').0 r) refl
      | inr r ↦ elim (Bool-cases (nat_beq c 34)) [
        | inl t ↦ rw ((nat_eq.beq_iff c 34).0 t) refl
        | inr t ↦ elim (Bool-cases (nat_beq c 39)) [
          | inl u ↦ rw ((nat_eq.beq_iff c 39).0 u) refl
          | inr u ↦ rw (p, q, r, t, u) (unescape_other c s p)
        ]
      ]
    ]
  ]
]

-- The characters that end a text or an attribute.
abbrev pub is_special : ℕ → Bool
is_special c = nat_beq c b'<' || nat_beq c b'>' || nat_beq c 34 || nat_beq c 39

escape_byte-special : (c : ℕ) → any is_special (escape_byte c) ≡ false
escape_byte-special c = ground arith

-- The text starts with `n` bytes that are not ASCII.
unfoldable is_high : ℕ → Text → Bool
is_high zero s = true
is_high (suc n) [] = false
is_high (suc n) (c ∷ s) = leb 128 c && is_high n s

has_tail-high :
    (n lo hi : ℕ) (s : Text) → leb 128 lo ≡ true → has_tail n lo hi s ≡ true → is_high n s ≡ true
unfolding has_tail is_high
has_tail-high zero lo hi s h t = refl
has_tail-high (suc n) lo hi [] h t = t
has_tail-high (suc n) lo hi (c ∷ s) h t = ground (arith, has_tail-high n 128 191 s refl)

tail_of-high :
    (n lo hi : ℕ) (s : Text) (m : ℕ)
    → leb 128 lo ≡ true
    → tail_of n lo hi s ≡ some m
    → is_high m s ≡ true
tail_of-high n lo hi s m h t = elim (Bool-cases (has_tail n lo hi s)) [
  | inl p ↦ let same : n ≡ m = cc (rw p at t) in rw (← same) (has_tail-high n lo hi s h p)
  | inr p ↦ absurd (none≢some (rw p at t))
]

rune_tail-high : (c : ℕ) (s : Text) {n : ℕ} → rune_tail c s ≡ some n → is_high n s ≡ true
unfolding rune_tail is_high
rune_tail-high c s {n} h = ground (
  arith,
  tail_of-high 1 128 191 s n refl,
  tail_of-high 2 160 191 s n refl,
  tail_of-high 2 128 159 s n refl,
  tail_of-high 2 128 191 s n refl,
  tail_of-high 3 144 191 s n refl,
  tail_of-high 3 128 191 s n refl,
  tail_of-high 3 128 143 s n refl,
)

-- The text that the loop reads: with U+FFFD for each byte that is not part of a rune.
unfoldable pub replaced_from : ℕ → Text → Text
replaced_from k [] = []
replaced_from (suc k) (c ∷ s) = c ∷ replaced_from k s
replaced_from zero (c ∷ s) = elim (rune_tail c s) [
  | none ↦ 239 ∷ (191 ∷ (189 ∷ replaced_from zero s))
  | some n ↦ c ∷ replaced_from n s
]

abbrev pub replaced : Text → Text
replaced = replaced_from zero

-- The text is one of runes.
unfoldable pub is_utf8_from : ℕ → Text → Bool
is_utf8_from k [] = true
is_utf8_from (suc k) (c ∷ s) = is_utf8_from k s
is_utf8_from zero (c ∷ s) = elim (rune_tail c s) [ none ↦ false | some n ↦ is_utf8_from n s ]

abbrev pub is_utf8 : Text → Bool
is_utf8 = is_utf8_from zero

-- The rounds of the three loops at the start of a rune.
module _ (c : ℕ) (s : Text) where
  no_rune :
      rune_tail c s ≡ none
      → (esc_from zero (c ∷ s) ≡ 239 ∷ (191 ∷ (189 ∷ esc_from zero s)))
        × (replaced_from zero (c ∷ s) ≡ 239 ∷ (191 ∷ (189 ∷ replaced_from zero s)))
        × (is_utf8_from zero (c ∷ s) ≡ false)
  unfolding esc_from replaced_from is_utf8_from
  no_rune p = rw (p, esc_from, replaced_from, is_utf8_from) (refl, refl, refl)

  some_rune :
      {n : ℕ}
      → rune_tail c s ≡ some n
      → (esc_from zero (c ∷ s) ≡ escape_byte c ++ esc_from n s)
        × (replaced_from zero (c ∷ s) ≡ c ∷ replaced_from n s)
        × (is_utf8_from zero (c ∷ s) ≡ is_utf8_from n s)
  unfolding esc_from replaced_from is_utf8_from
  some_rune p = rw (p, esc_from, replaced_from, is_utf8_from) (refl, refl, refl)

replaced-valid : (k : ℕ) (s : Text) → is_utf8_from k s ≡ true → replaced_from k s ≡ s
unfolding replaced_from is_utf8_from
replaced-valid k [] h = refl
replaced-valid (suc k) (c ∷ s) h = ap (λ t. c ∷ t) (replaced-valid k s h)
replaced-valid zero (c ∷ s) h = elim (Option-cases (rune_tail c s)) [
  | inl p ↦ absurd (false≢true (sym (no_rune c s p).2 ∙ h))
  | inr (n, p) ↦
      let (esc_eq, replaced_eq, valid_eq) = some_rune c s p in
      replaced_eq ∙ ap (λ t. c ∷ t) (replaced-valid n s (sym valid_eq ∙ h))
]

other_mark : (t : Text) → unescape (239 ∷ (191 ∷ (189 ∷ t))) ≡ 239 ∷ (191 ∷ (189 ∷ unescape t))
other_mark t =
    unescape_other 239 (191 ∷ (189 ∷ t)) refl
    ∙ ap (λ u. 239 ∷ u)
        (unescape_other 191 (189 ∷ t) refl ∙ ap (λ u. 191 ∷ u) (unescape_other 189 t refl))

esc_from_lem :
    (k : ℕ) (s : Text)
    → is_high k s ≡ true
    → (any is_special (esc_from k s) ≡ false) × (unescape (esc_from k s) ≡ replaced_from k s)
unfolding esc_from replaced_from is_high
esc_from_lem k [] h = (refl, refl)
esc_from_lem (suc k) (c ∷ s) h =
    let high : leb 128 c ≡ true = ground arith in
    let (safe, same) = esc_from_lem k s (ground arith) in
    (
      ground (arith, high, safe),
      unescape_other c (esc_from k s) (ground (arith, high)) ∙ ap (λ t. c ∷ t) same,
    )
esc_from_lem zero (c ∷ s) h = elim (Option-cases (rune_tail c s)) [
  | inl p ↦
      let (safe, same) = esc_from_lem zero s refl in
      let (esc_eq, replaced_eq, valid_eq) = no_rune c s p in
      (
        ap (any is_special) esc_eq ∙ safe,
        ap unescape esc_eq
            ∙ other_mark (esc_from zero s)
            ∙ ap (λ t. 239 ∷ (191 ∷ (189 ∷ t))) same
            ∙ sym replaced_eq,
      )
  | inr (n, p) ↦
      let (safe, same) = esc_from_lem n s (rune_tail-high c s p) in
      let (esc_eq, replaced_eq, valid_eq) = some_rune c s p in
      (
        ap (any is_special) esc_eq
            ∙ any-append is_special (escape_byte c) (esc_from n s)
            ∙ rw (escape_byte-special c, safe) refl,
        ap unescape esc_eq
            ∙ unescape-escape_byte c (esc_from n s)
            ∙ ap (λ t. c ∷ t) same
            ∙ sym replaced_eq,
      )
]

-- What holds of an escaped text.
pub record IsEscaped (s : Text) : Type 0 where
  pub safe : any is_special (esc s) ≡ false
  pub read_eq : unescape (esc s) ≡ replaced s
  pub same : (is_utf8 s ≡ false) ⊎ (unescape (esc s) ≡ s)

-- An escaped text holds no angle bracket and no quotation mark; with its character references read it is the
-- text with U+FFFD in the place of each byte that belongs to no rune, and so the text itself if it
-- is UTF-8.
pub esc-unescape : (s : Text) → IsEscaped s
unfolding esc is_high
esc-unescape s =
    let (safe, read) = esc_from_lem zero s refl in
    record {
      safe = safe;
      read_eq = read;
      same = elim (Bool-cases (is_utf8 s)) [
        | inl p ↦ inr (read ∙ replaced-valid zero s p)
        | inr p ↦ inl p
      ];
    }
