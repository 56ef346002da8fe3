-- ===== src/Insights/Recommendation/Ranking.antt =====
-- The order and the content of the list that Enrich returns.
use mathlib.Core.List.{Perm}
use mathlib.Core.List.Perm
use codeburn_watcher.Prelude.{ℕ, suc, zero, ◌≡◌, refl, ap, List, [], ◌∷◌, map, All, length, Text}
use codeburn_watcher.Prelude.Float.{Float64, IsIeee}
use codeburn_watcher.Prelude.Sort.{sort_by, sort_by-perm, sort_by-All, sort_by-IsSorted, IsSorted}
use codeburn_watcher.Analytics.Metrics.{Metrics}
use codeburn_watcher.Insights.Finding.{MetricKey, cache_miss, active_findings}
use codeburn_watcher.Insights.Recommendation.{
  EnrichedRecommendation, BlendedRates, blended_rates, enrich_key, saves_more, number_from, enrich,
}

-- The numbers i + 1, i + 2, ..., one for each of `n` places.
abbrev pub ranks : ℕ → ℕ → List ℕ
ranks i zero = []
ranks i (suc n) = suc i ∷ ranks (suc i) n

module _ {F : Type 0} ⦃d : Float64 F⦄ (fixed : ℕ → F → Text) where
  -- But for its priority the recommendation is what enrich makes of its key.
  abbrev pub IsEnriched : Metrics F → ℕ → EnrichedRecommendation F → Type 0
  IsEnriched m days r = record r { priority = 0 } ≡ enrich_key fixed r.key m (blended_rates m) days

  pub record IsRanked (m : Metrics F) (days : ℕ) (recs : List (EnrichedRecommendation F))
      : Type 0 where
    pub sorted : IsSorted (saves_more fixed) recs
    pub numbered : map (λ r. r.priority) recs ≡ ranks 0 (length recs)
    pub keys_perm : Perm (map (λ r. r.key) recs) (active_findings m)
    pub enriched : All (IsEnriched m days) recs

  number-numbered :
      (i : ℕ) (l : List (EnrichedRecommendation F))
      → map (λ r. r.priority) (number_from fixed i l) ≡ ranks i (length (number_from fixed i l))
  unfolding number_from
  number-numbered i [] = refl
  number-numbered i (r ∷ l) = ap (◌∷◌ (suc i)) (number-numbered (suc i) l)

  number-keys :
      (i : ℕ) (l : List (EnrichedRecommendation F))
      → map (λ r. r.key) (number_from fixed i l) ≡ map (λ r. r.key) l
  unfolding number_from
  number-keys i [] = refl
  number-keys i (r ∷ l) = ap (◌∷◌ r.key) (number-keys (suc i) l)

  number-IsSorted :
      (i : ℕ) (l : List (EnrichedRecommendation F))
      → IsSorted (saves_more fixed) l
      → IsSorted (saves_more fixed) (number_from fixed i l)
  unfolding number_from
  number-IsSorted i [] s = tt
  number-IsSorted i (r ∷ []) s = (tt, tt)
  number-IsSorted i (r ∷ q ∷ l) s = (s.0, number-IsSorted (suc i) (q ∷ l) s.1)

  number-IsEnriched :
      (i : ℕ) (m : Metrics F) (days : ℕ) (l : List (EnrichedRecommendation F))
      → All (IsEnriched m days) l
      → All (IsEnriched m days) (number_from fixed i l)
  unfolding number_from
  number-IsEnriched i m days [] h = tt
  number-IsEnriched i m days (r ∷ l) h = (h.0, number-IsEnriched (suc i) m days l h.1)

  enrich_key-key :
      (m : Metrics F) (b : BlendedRates F) (days : ℕ) (k : MetricKey)
      → (enrich_key fixed k m b days).key ≡ k
  unfolding enrich_key
  enrich_key-key m b days cache_miss = refl
  enrich_key-key m b days _ = refl

  enrich_key-IsEnriched :
      (m : Metrics F) (days : ℕ) (k : MetricKey)
      → IsEnriched m days (enrich_key fixed k m (blended_rates m) days)
  unfolding enrich_key
  enrich_key-IsEnriched m days cache_miss = refl
  enrich_key-IsEnriched m days _ = refl

  found-keys :
      (m : Metrics F) (b : BlendedRates F) (days : ℕ) (l : List MetricKey)
      → map (λ r. r.key) (map (λ k. enrich_key fixed k m b days) l) ≡ l
  found-keys m b days [] = refl
  found-keys m b days (k ∷ l) = rw (enrich_key-key, found-keys m b days l)

  found-IsEnriched :
      (m : Metrics F) (days : ℕ) (l : List MetricKey)
      → All (IsEnriched m days) (map (λ k. enrich_key fixed k m (blended_rates m) days) l)
  found-IsEnriched m days [] = tt
  found-IsEnriched m days (k ∷ l) = (enrich_key-IsEnriched m days k, found-IsEnriched m days l)

  -- In arithmetic with an asymmetric `<`, Enrich returns a recommendation for each active finding,
  -- just as enrich makes it but for the priority; none saves more than the one before it; and the
  -- priorities are 1, 2, and so on in the order of the list.
  pub enrich-IsRanked :
      IsIeee F → (m : Metrics F) (days : ℕ) → IsRanked m days (enrich fixed m days).0
  unfolding enrich
  enrich-IsRanked ieee m days =
      let found = map (λ key. enrich_key fixed key m (blended_rates m) days) (active_findings m) in
      let sorted = sort_by (saves_more fixed) found in
      record {
        sorted = number-IsSorted 0 sorted (
            sort_by-IsSorted (saves_more fixed)
              (λ a b. ieee.lt_asymm b.evidence.savings_usd a.evidence.savings_usd) found);
        numbered = number-numbered 0 sorted;
        keys_perm = rw number-keys (
            rw (found-keys m (blended_rates m) days (active_findings m)) at
              (Perm.map (λ r. r.key) (sort_by-perm (saves_more fixed) found)));
        enriched = number-IsEnriched 0 m days sorted (
            sort_by-All (saves_more fixed) (IsEnriched m days) found
              (found-IsEnriched m days (active_findings m)));
      }
