-- ===== src/Prelude/Lines.antt =====
-- Splitting a text into the texts that were joined, and trimming a text that has no white space around it.
use Prim.Native.Nat.{ℕ}
use mathlib.Core.Path.{◌≡◌, refl, sym, ap, ◌∙◌}
use mathlib.Core.Logic.{◌≢◌, inl, inr}
use mathlib.Core.Bool.{false}
use mathlib.Core.List.{List, [], ◌∷◌, ◌++◌, reverse, reverse-append, reverse-cons, reverse-reverse}
use native.Mathlib.Omega.{arith}
use codeburn_watcher.Prelude.Tests.{nat_beq, Bool-cases}
use codeburn_watcher.Prelude.Lists.{any, any-append, All}
use codeburn_watcher.Prelude.Keys.{
  Text, text_eq, nat_eq, ◌==◌, split_at, join, trim_space, trim_left, is_space,
}

-- The text holds no such byte.
abbrev pub Lacks : ℕ → Text → Type 0
Lacks b s = any (λ c. nat_beq c b) s ≡ false

-- The text is not empty and does not start with white space; nor end with it.
abbrev pub Starts : Text → Type 0
Starts [] = ⊥
Starts (c ∷ s) = is_space c ≡ false

abbrev pub Ends : Text → Type 0
Ends s = Starts (reverse s)

-- Splitting undoes joining.
pub split_at-append :
    (b : ℕ) (s r : Text) → Lacks b s → split_at b (s ++ (b ∷ r)) ≡ s ∷ split_at b r
unfolding split_at
split_at-append b [] r h = ground arith
split_at-append b (c ∷ s) r h =
    let other : nat_beq c b ≡ false = ground arith in
    let rest : Lacks b s = ground arith in rw (other, split_at-append b s r rest) refl

split_at-Lacks : (b : ℕ) (s : Text) → Lacks b s → split_at b s ≡ s ∷ []
unfolding split_at
split_at-Lacks b [] h = refl
split_at-Lacks b (c ∷ s) h =
    let other : nat_beq c b ≡ false = ground arith in
    let rest : Lacks b s = ground arith in rw (other, split_at-Lacks b s rest) refl

pub split_at-join :
    (b : ℕ) (s : Text) (ss : List Text)
    → All (Lacks b) (s ∷ ss)
    → split_at b (join (b ∷ []) (s ∷ ss)) ≡ s ∷ ss
split_at-join b s [] h = split_at-Lacks b s h.0
split_at-join b s (t ∷ ts) h =
    split_at-append b s (join (b ∷ []) (t ∷ ts)) h.0 ∙ ap (λ l. s ∷ l) (split_at-join b t ts h.1)

-- Trimming.
pub trim_left-Starts : (s : Text) → Starts s → trim_left s ≡ s
trim_left-Starts [] h = refl
trim_left-Starts (c ∷ s) h = rw h refl

pub Starts-append : (s t : Text) → Starts s → Starts (s ++ t)
Starts-append [] t h = absurd h
Starts-append (c ∷ s) t h = h

pub Ends-append : (s t : Text) → Ends t → Ends (s ++ t)
Ends-append s t h = rw reverse-append (Starts-append (reverse t) (reverse s) h)

pub trim_space-Starts : (s : Text) → Starts s → Ends s → trim_space s ≡ s
trim_space-Starts s h k =
    rw (trim_left-Starts s h, trim_left-Starts (reverse s) k) (reverse-reverse s)

trim_left-snoc : (s : Text) (c : ℕ) → is_space c ≡ false → trim_left (s ++ (c ∷ [])) ≢ []
trim_left-snoc [] c h = rw h (λ q. cc)
trim_left-snoc (d ∷ s) c h = elim (Bool-cases (is_space d)) [
  | inl p ↦ rw p (trim_left-snoc s c h)
  | inr p ↦ rw p (λ q. cc)
]

trim_space-ne-nil : (c : ℕ) (s : Text) → is_space c ≡ false → trim_space (c ∷ s) ≢ []
trim_space-ne-nil c s h = λ q.
    let kept : trim_left (c ∷ s) ≡ c ∷ s = rw h refl in
    let turned : reverse (trim_left (reverse (c ∷ s))) ≡ [] =
      ap (λ t. reverse (trim_left (reverse t))) (sym kept) ∙ q in
    trim_left-snoc (reverse s) c h (
      ap trim_left (sym (reverse-cons c s))
      ∙ sym (reverse-reverse (trim_left (reverse (c ∷ s))))
      ∙ ap reverse turned)

-- A line that starts with no white space is not blank.
pub not_blank : (c : ℕ) (s : Text) → is_space c ≡ false → (trim_space (c ∷ s) == []) ≡ false
not_blank c s h = elim (Bool-cases (trim_space (c ∷ s) == [])) [
  | inl p ↦ absurd (trim_space-ne-nil c s h ((text_eq.beq_iff (trim_space (c ∷ s)) []).0 p))
  | inr p ↦ p
]

pub Starts-ne-nil : (s : Text) → Starts s → (s == []) ≡ false
Starts-ne-nil [] h = absurd h
Starts-ne-nil (c ∷ s) h = refl

pub Lacks-append : (b : ℕ) (s t : Text) → Lacks b s → Lacks b t → Lacks b (s ++ t)
Lacks-append b s t h k = ground (arith, any-append (λ c. nat_beq c b) s t)
