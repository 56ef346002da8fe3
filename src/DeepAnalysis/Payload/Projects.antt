-- ===== src/DeepAnalysis/Payload/Projects.antt =====
-- The projects of the payload against the events.
use codeburn_watcher.Prelude.{
  ℕ, ◌+◌, ◌≡◌, refl, List, [], ◌∷◌, map, foldl, arith, Text, text_eq, Assoc, upsert, sum-upsert,
  values, sum_by, All, Bool-cases, inl, inr,
}
use codeburn_watcher.Prelude.Float.{Float64, of_nat}
use codeburn_watcher.Prelude.Sort.{insert_by, sort_by, IsSorted, sort_by-IsSorted, sort_by-All}
use codeburn_watcher.Shared.{StoredEvent, all_tokens}
use codeburn_watcher.Analytics.Metrics.{Metrics}
use codeburn_watcher.Insights.Recommendation.{EnrichedRecommendation}
use codeburn_watcher.DeepAnalysis.Payload.{
  LlmProjectStat, ProjAccum, new_project, add_to_project, group_projects, project_stat, spends_more,
  build_payload,
}

foldl-tokens :
    (events : List StoredEvent) (m : Assoc Text ProjAccum)
    → sum_by
        (λ a. a.tokens)
        (values (foldl (λ m ev. upsert new_project ev.project (add_to_project ev) m) m events))
      ≡ sum_by (λ a. a.tokens) (values m) + sum_by all_tokens events
foldl-tokens [] m = omega arith
foldl-tokens (ev ∷ events) m = omega (
  arith,
  foldl-tokens events (upsert new_project ev.project (add_to_project ev) m),
  sum-upsert (λ a. a.tokens) (all_tokens ev) new_project ev.project (add_to_project ev) m refl
      (λ a. refl),
)

module _ (F : Type 0) ⦃d : Float64 F⦄ where
  abbrev stats_of : Assoc Text ProjAccum → List (LlmProjectStat F)
  stats_of m = map project_stat m

  stats-tokens :
      (m : Assoc Text ProjAccum)
      → sum_by (λ t. t.spend_tokens) (stats_of m) ≡ sum_by (λ a. a.tokens) (values m)
  stats-tokens [] = refl
  stats-tokens (e ∷ m) = omega (arith, stats-tokens m)

  stats-cost : (m : Assoc Text ProjAccum) → All (λ t. t.cost_usd ≡ of_nat 0) (stats_of m)
  stats-cost [] = tt
  stats-cost (e ∷ m) = (refl, stats-cost m)

module _ {F : Type 0} ⦃d : Float64 F⦄ where
  insert_by-tokens :
      (st : LlmProjectStat F) (l : List (LlmProjectStat F))
      → sum_by (λ t. t.spend_tokens) (insert_by spends_more st l)
        ≡ st.spend_tokens + sum_by (λ t. t.spend_tokens) l
  unfolding insert_by
  insert_by-tokens st [] = refl
  insert_by-tokens st (t ∷ l) = elim (Bool-cases (spends_more t st)) [
    | inl p ↦ rw p (omega (arith, insert_by-tokens st l))
    | inr p ↦ rw p refl
  ]

  sort_by-tokens :
      (l : List (LlmProjectStat F))
      → sum_by (λ t. t.spend_tokens) (sort_by spends_more l) ≡ sum_by (λ t. t.spend_tokens) l
  unfolding sort_by
  sort_by-tokens [] = refl
  sort_by-tokens (t ∷ l) =
      omega (arith, insert_by-tokens t (sort_by spends_more l), sort_by-tokens l)

  -- The projects of a payload.
  pub record AreProjects (events : List StoredEvent) (l : List (LlmProjectStat F)) : Type 0 where
    pub tokens_eq : sum_by (λ t. t.spend_tokens) l ≡ sum_by all_tokens events
    pub sorted : IsSorted spends_more l
    pub cost_eq : All (λ t. t.cost_usd ≡ of_nat 0) l

  -- The projects of the payload hold all tokens of the events, none spends more than the one before it,
  -- and each is given the cost zero.
  pub build_payload-AreProjects :
      (events : List StoredEvent) (m : Metrics F) (recs : List (EnrichedRecommendation F))
      (days : ℕ)
      → AreProjects events (build_payload events m recs days).projects
  unfolding build_payload group_projects
  build_payload-AreProjects events m recs days =
      let groups = group_projects events in
      let stats : List (LlmProjectStat F) = map project_stat groups in
      record {
        tokens_eq =
            omega (arith, sort_by-tokens stats, stats-tokens F groups, foldl-tokens events []);
        sorted = sort_by-IsSorted spends_more (λ a b h. ground (arith, h)) stats;
        cost_eq = sort_by-All spends_more _ stats (stats-cost F groups);
      }
