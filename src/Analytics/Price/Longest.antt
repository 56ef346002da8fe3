-- ===== src/Analytics/Price/Longest.antt =====
-- CostOf takes the first entry that matches; the order of the table makes it the longest match.
use mathlib.Core.Path.{subst}
use mathlib.Core.Bool.{false≢true}
use native.Mathlib.Nat.{le_refl}
use codeburn_watcher.Prelude.{
  sym, ◌∙◌, ℕ, ◌+◌, ◌≤◌, ◌≡◌, refl, Bool, true, false, not, ◌&&◌, none, some, List, [], ◌∷◌, arith,
  Text, has_prefix, to_lower, length, All, any, Bool-cases, inl, inr, ◌⊎◌, Option-cases,
}
use codeburn_watcher.Prelude.Float.{Float64, of_nat}
use codeburn_watcher.Analytics.Price.{
  ModelPrice, Cost, matches, match_price, prices, usd_of, cost_of, new_pricing_service,
}

-- Of two prefixes of one text, the one that does not start the other is the longer one.
prefix_chain :
    (p q s : Text)
    → has_prefix p s ≡ true
    → has_prefix q s ≡ true
    → has_prefix p q ≡ false
    → length q ≤ length p
prefix_chain [] q s hp hq h = cc
prefix_chain (c ∷ p) [] s hp hq h = omega arith
prefix_chain (c ∷ p) (x ∷ q) [] hp hq h = cc
prefix_chain (c ∷ p) (x ∷ q) (y ∷ s) hp hq h = ground (arith, prefix_chain p q s)

module _ {F : Type 0} where
  -- No entry's prefix starts the prefix of a later entry.
  abbrev is_shadow_free : List (ModelPrice F) → Bool
  is_shadow_free [] = true
  is_shadow_free (p ∷ ps) =
      not (any (λ q. has_prefix (to_lower p.prefix) (to_lower q.prefix)) ps) && is_shadow_free ps

  -- No matching entry of the list has a longer prefix than `p`.
  abbrev pub IsLongest : Text → ModelPrice F → List (ModelPrice F) → Type 0
  IsLongest m p =
      All (λ q. matches m q ≡ true → length (to_lower q.prefix) ≤ length (to_lower p.prefix))

  first-IsLongest :
      (m : Text) (p : ModelPrice F) (ps : List (ModelPrice F))
      → matches m p ≡ true
      → any (λ q. has_prefix (to_lower p.prefix) (to_lower q.prefix)) ps ≡ false
      → IsLongest m p ps
  first-IsLongest m p [] h free = tt
  first-IsLongest m p (q ∷ ps) h free = (
    λ hq. prefix_chain (to_lower p.prefix) (to_lower q.prefix) m h hq (ground arith),
    first-IsLongest m p ps h (ground arith),
  )

  match_price-IsLongest :
      (m : Text) (p : ModelPrice F) (ps : List (ModelPrice F))
      → is_shadow_free ps ≡ true
      → match_price m ps ≡ some p
      → (matches m p ≡ true) × IsLongest m p ps
  unfolding match_price
  match_price-IsLongest m p [] free e = cc
  match_price-IsLongest m p (q ∷ ps) free e = elim (Bool-cases (matches m q)) [
    | inl hit ↦
        let same : q ≡ p = ground (arith, hit, e) in
        subst (λ r. (matches m r ≡ true) × IsLongest m r (q ∷ ps)) same
          (hit, (λ _. le_refl _, first-IsLongest m q ps hit (ground arith)))
    | inr miss ↦
        let (hit, rest) = match_price-IsLongest m p ps (ground arith) (rw miss at e) in
        (hit, (λ h. absurd (false≢true (sym miss ∙ h)), rest))
  ]

  match_price-none :
      (m : Text) (ps : List (ModelPrice F))
      → match_price m ps ≡ none
      → All (λ q. matches m q ≡ false) ps
  unfolding match_price
  match_price-none m [] e = tt
  match_price-none m (q ∷ ps) e = elim (Bool-cases (matches m q)) [
    | inl hit ↦ ground (arith, hit, e)
    | inr miss ↦ (miss, match_price-none m ps (rw miss at e))
  ]

module _ {F : Type 0} ⦃d : Float64 F⦄ where
  abbrev pub priced : ModelPrice F → ℕ → ℕ → ℕ → ℕ → Cost F
  priced p i o r w = record { usd = usd_of p i o r w; estimated = false; unpriced_tokens = 0 }

  abbrev pub unpriced : ℕ → ℕ → ℕ → ℕ → Cost F
  unpriced i o r w = record { usd = of_nat 0; estimated = true; unpriced_tokens = i + o + r + w }

  -- With the program's table an event is priced by an entry whose prefix starts the model's name in
  -- lower case and is the longest such prefix of the table; or no entry matches, and the cost is an
  -- estimate of nothing with all tokens of the event counted as unpriced.
  pub cost_of-prices :
      (model : Text) (i o r w : ℕ)
      → ((p : ModelPrice F) × (matches (to_lower model) p ≡ true)
          × IsLongest (to_lower model) p prices
          × (cost_of new_pricing_service model i o r w ≡ priced p i o r w))
        ⊎ (All (λ q. matches {F = F} (to_lower model) q ≡ false) prices
            × (cost_of new_pricing_service model i o r w ≡ unpriced i o r w))
  unfolding cost_of
  cost_of-prices model i o r w = elim (Option-cases (match_price {F = F} (to_lower model) prices)) [
    | inl e ↦ inr (match_price-none (to_lower model) prices e, rw (e, cost_of))
    | inr (p, e) ↦
        let (hit, longest) = match_price-IsLongest (to_lower model) p prices refl e in
        inl (p, hit, longest, rw (e, cost_of))
  ]
