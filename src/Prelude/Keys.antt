-- ===== src/Prelude/Keys.antt =====
-- Equality as an interface, and texts as lists of bytes.
use Prim.Native.Nat.{ℕ, ◌+◌, ◌/◌, ◌%◌}
use Prim.Native.Char.{code}
use Prim.Native.String.{String}
use mathlib.Core.Path.{◌≡◌, refl}
use mathlib.Core.Logic.{◌↔◌}
use mathlib.Core.Bool.{Bool, true, false, ◌&&◌, ◌||◌}
use mathlib.Core.List.{List, [], ◌∷◌, ◌++◌, map, reverse}
use native.Mathlib.Omega.{arith}
use codeburn_watcher.Prelude.Tests.{ltb, leb, nat_beq, nat_beq_iff, if◌then◌else◌}

pub record KeyEq {ℓ} (A : Type ℓ) : Type ℓ where
  pub beq : A → A → Bool
  pub beq_iff : (k j : A) → (beq k j ≡ true) ↔ (k ≡ j)

infix 50 ◌==◌
abbrev pub ◌==◌ {ℓ} : {K : Type ℓ} ⦃eq : KeyEq K⦄ → K → K → Bool
◌==◌ ⦃eq⦄ = eq.beq

pub ==_refl {ℓ} : {A : Type ℓ} ⦃e : KeyEq A⦄ (a : A) → (a == a) ≡ true
==_refl ⦃e⦄ a = (e.beq_iff a a).1 refl

instance abbrev pub nat_eq : KeyEq ℕ
nat_eq = record { beq = nat_beq; beq_iff = nat_beq_iff }

-- The bytes of a Go string.
abbrev pub Text : Type 0
Text = List ℕ

-- The bytes of a character in UTF-8, which those of the rest follow.
abbrev utf8 : ℕ → Text → Text
utf8 c s =
    if ltb c 128
    then c ∷ s
    else if ltb c 2048
    then (192 + c / 64) ∷ ((128 + c % 64) ∷ s)
    else if ltb c 65536
    then (224 + c / 4096) ∷ ((128 + (c / 64) % 64) ∷ ((128 + c % 64) ∷ s))
    else (240 + c / 262144)
      ∷ ((128 + (c / 4096) % 64) ∷ ((128 + (c / 64) % 64) ∷ ((128 + c % 64) ∷ s)))

-- The bytes of a text literal.
abbrev pub codes : String → Text
codes String.[] = []
codes (String.◌∷◌ c s) = utf8 (code c) (codes s)

abbrev pub text_beq : Text → Text → Bool
text_beq [] [] = true
text_beq [] (d ∷ t) = false
text_beq (c ∷ s) [] = false
text_beq (c ∷ s) (d ∷ t) = nat_beq c d && text_beq s t

pub text_beq_iff : (s t : Text) → (text_beq s t ≡ true) ↔ (s ≡ t)
text_beq_iff [] [] = (λ _. refl, λ _. refl)
text_beq_iff [] (d ∷ t) = (λ h. cc, λ h. cc)
text_beq_iff (c ∷ s) [] = (λ h. cc, λ h. cc)
text_beq_iff (c ∷ s) (d ∷ t) = ground (arith, text_beq_iff s t)

instance abbrev pub text_eq : KeyEq Text
text_eq = record { beq = text_beq; beq_iff = text_beq_iff }

-- Go's `<` on strings: the order of the bytes.
abbrev pub text_lt : Text → Text → Bool
text_lt s [] = false
text_lt [] (d ∷ t) = true
text_lt (c ∷ s) (d ∷ t) = ltb c d || (nat_beq c d && text_lt s t)

-- strings.HasPrefix, its arguments swapped.
abbrev pub has_prefix : Text → Text → Bool
has_prefix [] s = true
has_prefix (c ∷ p) [] = false
has_prefix (c ∷ p) (d ∷ s) = nat_beq c d && has_prefix p s

-- strings.HasSuffix, its arguments swapped.
abbrev pub has_suffix : Text → Text → Bool
has_suffix p s = has_prefix (reverse p) (reverse s)

-- strings.Split at a separator of one byte.
abbrev pub prepend_byte : ℕ → List Text → List Text
prepend_byte c [] = (c ∷ []) ∷ []
prepend_byte c (s ∷ ss) = (c ∷ s) ∷ ss

unfoldable pub split_at : ℕ → Text → List Text
split_at b [] = [] ∷ []
split_at b (c ∷ s) =
    let rest = split_at b s in if nat_beq c b then [] ∷ rest else prepend_byte c rest

-- strings.Contains, its arguments swapped.
abbrev pub contains : Text → Text → Bool
contains p [] = has_prefix p []
contains p (c ∷ s) = has_prefix p (c ∷ s) || contains p s

-- strings.ToLower, on ASCII.
abbrev pub lower_byte : ℕ → ℕ
lower_byte c = if leb b'A' c && leb c b'Z' then c + 32 else c

abbrev pub to_lower : Text → Text
to_lower = map lower_byte

-- The white space of ASCII: tab, line feed, vertical tab, form feed, carriage return, blank.
abbrev pub is_space : ℕ → Bool
is_space c = (leb 9 c && leb c 13) || nat_beq c 32

abbrev pub trim_left : Text → Text
trim_left [] = []
trim_left (c ∷ s) = let rest = trim_left s in if is_space c then rest else c ∷ s

-- strings.TrimSpace, on ASCII.
abbrev pub trim_space : Text → Text
trim_space s = reverse (trim_left (reverse (trim_left s)))

-- strings.Join
abbrev pub join : Text → List Text → Text
join sep [] = []
join sep (s ∷ []) = s
join sep (s ∷ t ∷ ts) = s ++ (sep ++ join sep (t ∷ ts))
