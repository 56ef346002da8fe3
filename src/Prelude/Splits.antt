-- ===== src/Prelude/Splits.antt =====
-- Lines of a text and what they contain: splitting at a byte, joining again, and trimming at the end.
use Prim.Native.Nat.{ℕ}
use mathlib.Core.Path.{◌≡◌, refl, sym, ap, ◌∙◌}
use mathlib.Core.Logic.{inl, inr}
use mathlib.Core.Bool.{true, false}
use mathlib.Core.List.{List, [], ◌∷◌, ◌++◌, append_assoc, append-nil}
use native.Mathlib.Omega.{arith}
use codeburn_watcher.Prelude.Tests.{nat_beq, nat_beq_iff, if◌then◌else◌, Bool-cases}
use codeburn_watcher.Prelude.Lists.{All}
use codeburn_watcher.Prelude.Keys.{Text, has_prefix, contains, split_at, prepend_byte, join}

-- strings.TrimRight with a cutset of one byte.
abbrev cut_byte : ℕ → ℕ → Text → Text
cut_byte b c [] = if nat_beq c b then [] else c ∷ []
cut_byte b c (d ∷ s) = c ∷ (d ∷ s)

unfoldable pub trim_right : ℕ → Text → Text
trim_right b [] = []
trim_right b (c ∷ s) = cut_byte b c (trim_right b s)

cut_byte-append : (b c : ℕ) (s : Text) → (r : Text) × (c ∷ s ≡ cut_byte b c s ++ r)
cut_byte-append b c [] = elim (Bool-cases (nat_beq c b)) [
  | inl p ↦ (c ∷ [], rw p refl)
  | inr p ↦ ([], rw p refl)
]
cut_byte-append b c (d ∷ s) = ([], sym (append-nil (c ∷ (d ∷ s))))

-- What is cut off stood at the end.
pub trim_right-append : (b : ℕ) (s : Text) → (r : Text) × (s ≡ trim_right b s ++ r)
unfolding trim_right
trim_right-append b [] = ([], refl)
trim_right-append b (c ∷ s) =
    let (r, e) = trim_right-append b s in
    let (q, f) = cut_byte-append b c (trim_right b s) in
    (
      q ++ r,
      ap (λ t. c ∷ t) e ∙ ap (λ t. t ++ r) f ∙ append_assoc (cut_byte b c (trim_right b s)) q r,
    )

has_prefix-append : (p x y : Text) → has_prefix p x ≡ true → has_prefix p (x ++ y) ≡ true
has_prefix-append [] x y h = refl
has_prefix-append (c ∷ p) [] y h = cc
has_prefix-append (c ∷ p) (d ∷ x) y h = ground (arith, has_prefix-append p x y)

pub contains-append_right : (p x y : Text) → contains p y ≡ true → contains p (x ++ y) ≡ true
contains-append_right p [] y h = h
contains-append_right p (c ∷ x) y h = ground (arith, contains-append_right p x y h)

contains_self : (p : Text) (y : Text) → has_prefix p y ≡ true → contains p y ≡ true
contains_self p [] h = h
contains_self p (c ∷ y) h = rw h refl

pub has_prefix_self : (p : Text) → has_prefix p p ≡ true
has_prefix_self [] = refl
has_prefix_self (c ∷ p) = ground (arith, has_prefix_self p)

pub contains_refl : (p : Text) → contains p p ≡ true
contains_refl p = contains_self p p (has_prefix_self p)

pub contains-append_left : (p x y : Text) → contains p x ≡ true → contains p (x ++ y) ≡ true
contains-append_left p [] [] h = h
contains-append_left p [] (c ∷ y) h = rw (has_prefix-append p [] (c ∷ y) h) refl
contains-append_left p (c ∷ x) y h =
    ground (arith, has_prefix-append p (c ∷ x) y, contains-append_left p x y)

-- A text that lacks a word lacks it in each of its parts.
pub not_contains-append :
    (p x y : Text) → contains p (x ++ y) ≡ false → (contains p x ≡ false) × (contains p y ≡ false)
not_contains-append p x y h =
    ground (arith, contains-append_left p x y, contains-append_right p x y)

not_contains-join :
    (p sep : Text) (ls : List Text)
    → contains p (join sep ls) ≡ false
    → All (λ l. contains p l ≡ false) ls
not_contains-join p sep [] h = tt
not_contains-join p sep (l ∷ []) h = (h, tt)
not_contains-join p sep (l ∷ m ∷ ls) h =
    let (first, rest) = not_contains-append p l (sep ++ join sep (m ∷ ls)) h in
    (first, not_contains-join p sep (m ∷ ls) (not_contains-append p sep _ rest).1)

join-prepend_byte :
    (b c : ℕ) (ls : List Text) → join (b ∷ []) (prepend_byte c ls) ≡ c ∷ join (b ∷ []) ls
join-prepend_byte b c [] = refl
join-prepend_byte b c (l ∷ []) = refl
join-prepend_byte b c (l ∷ m ∷ ls) = refl

split_at_cons : (b : ℕ) (s : Text) → (l : Text) × (ls : List Text) × (split_at b s ≡ l ∷ ls)
unfolding split_at
split_at_cons b [] = ([], [], refl)
split_at_cons b (c ∷ s) =
    let (l, ls, e) = split_at_cons b s in
    elim (Bool-cases (nat_beq c b)) [
      | inl p ↦ ([], split_at b s, rw p refl)
      | inr p ↦ (c ∷ l, ls, rw (p, e) refl)
    ]

-- Joining undoes splitting.
pub join-split_at : (b : ℕ) (s : Text) → join (b ∷ []) (split_at b s) ≡ s
unfolding split_at
join-split_at b [] = refl
join-split_at b (c ∷ s) =
    let (l, ls, e) = split_at_cons b s in
    elim (Bool-cases (nat_beq c b)) [
      | inl p ↦
          let ih : join (b ∷ []) (l ∷ ls) ≡ s = ap (join (b ∷ [])) (sym e) ∙ join-split_at b s in
          let same : c ≡ b = (nat_beq_iff c b).0 p in
          rw (p, e) (ap (λ t. b ∷ t) ih ∙ ap (λ k. k ∷ s) (sym same))
      | inr p ↦ rw p (join-prepend_byte b c (split_at b s) ∙ ap (λ t. c ∷ t) (join-split_at b s))
    ]

-- No line of a text that lacks a word has it.
pub not_contains-split_at :
    (p : Text) (b : ℕ) (s : Text)
    → contains p s ≡ false
    → All (λ l. contains p l ≡ false) (split_at b s)
not_contains-split_at p b s h =
    not_contains-join p (b ∷ []) (split_at b s) (ap (contains p) (join-split_at b s) ∙ h)

-- Splitting at a byte that stands between two texts.
pub split_at-between :
    (b : ℕ) (s r : Text) → split_at b (s ++ (b ∷ r)) ≡ split_at b s ++ split_at b r
unfolding split_at
split_at-between b [] r = rw ((nat_beq_iff b b).1 refl) refl
split_at-between b (c ∷ s) r =
    let (l, ls, e) = split_at_cons b s in
    elim (Bool-cases (nat_beq c b)) [
      | inl p ↦ rw p (ap (λ k. [] ∷ k) (split_at-between b s r))
      | inr p ↦ rw p (ap (prepend_byte c) (split_at-between b s r) ∙ rw e refl)
    ]

pub join_snoc :
    (b : ℕ) (l : Text) (ls : List Text)
    → join (b ∷ []) ((l ∷ ls) ++ ([] ∷ [])) ≡ join (b ∷ []) (l ∷ ls) ++ (b ∷ [])
join_snoc b l [] = refl
join_snoc b l (m ∷ ls) =
    ap (λ t. l ++ (b ∷ t)) (join_snoc b m ls)
    ∙ sym (append_assoc l (b ∷ join (b ∷ []) (m ∷ ls)) (b ∷ []))

-- A text with a separator at its end, put together from its lines.
pub join-split_at_snoc :
    (b : ℕ) (s : Text) → join (b ∷ []) (split_at b s ++ ([] ∷ [])) ≡ s ++ (b ∷ [])
join-split_at_snoc b s =
    let (l, ls, e) = split_at_cons b s in
    ap (λ k. join (b ∷ []) (k ++ ([] ∷ []))) e
    ∙ join_snoc b l ls
    ∙ ap (λ k. join (b ∷ []) k ++ (b ∷ [])) (sym e)
    ∙ ap (λ t. t ++ (b ∷ [])) (join-split_at b s)
