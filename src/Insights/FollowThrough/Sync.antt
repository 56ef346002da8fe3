-- ===== src/Insights/FollowThrough/Sync.antt =====
-- What a run of Sync returns.
use mathlib.Core.List.{Mem, mem-cons, not-mem-nil}
use mathlib.Core.Logic.Or
use mathlib.Core.Bool.{Bool-set}
use mathlib.Core.List.Perm
use mathlib.Core.Path.{subst}
use codeburn_watcher.Prelude.{
  ℕ, ◌≡◌, ◌≢◌, refl, sym, true, List, [], ◌∷◌, arith, map, All, any, Text, ◌==◌, lookup, Assoc,
  ==_refl,
}
use codeburn_watcher.Prelude.Results.{ok, >>=-eq-ok}
use codeburn_watcher.Prelude.Float.{Float64, IsIeee}
use codeburn_watcher.Analytics.Metrics.{Metrics}
use codeburn_watcher.Insights.Finding.{MetricKey, key_eq, active_findings}
use codeburn_watcher.Insights.Recommendation.{EnrichedRecommendation, enrich}
use codeburn_watcher.Insights.Recommendation.Ranking.{enrich-IsRanked}
use codeburn_watcher.Insights.FollowThrough.{
  resolved, FollowThroughRecord, FollowThroughRepository, sync_key, sync, index_records,
}
use codeburn_watcher.Insights.FollowThrough.Status.{
  IsFollowed, sync_key-IsFollowed, sync_key-ne-resolved,
}

mem-any : (k : MetricKey) (l : List MetricKey) → Mem k l → any (λ j. j == k) l ≡ true
mem-any k [] h = absurd (not-mem-nil h)
mem-any k (j ∷ l) h =
    Or.elim (Bool-set _ _) (mem-cons.0 h) (λ e. rw (← e, ==_refl k))
      (λ t. ground (arith, mem-any k l t))

module _ {F : Type 0} ⦃d : Float64 F⦄ where
  -- The records that follow the recommendations, given what the repository had stored.
  pub record IsSynced {E : Type 0} (repo : FollowThroughRepository E F) (now : ℕ)
      (recs : List (EnrichedRecommendation F)) (m : Metrics F)
      (updated : List (FollowThroughRecord F)) : Type 0 where
    pub stored : List (FollowThroughRecord F)
    pub loaded : repo.load_records ≡ ok stored
    pub written : repo.upsert_records updated ≡ ok tt
    pub keys_eq : map (λ r. r.key) updated ≡ map (λ r. r.key) recs
    pub followed : All (λ r. IsFollowed now m (lookup r.key (index_records stored)) r) updated

  module _ (now : ℕ) (m : Metrics F) (stored : Assoc MetricKey (FollowThroughRecord F)) where
    abbrev follow : EnrichedRecommendation F → FollowThroughRecord F
    follow rec = sync_key now stored m rec.key

    follow-keys :
        (recs : List (EnrichedRecommendation F))
        → map (λ r. r.key) (map follow recs) ≡ map (λ r. r.key) recs
    follow-keys [] = refl
    follow-keys (rec ∷ recs) = rw ((sync_key-IsFollowed now stored m rec.key).0, follow-keys recs)

    follow-IsFollowed :
        (recs : List (EnrichedRecommendation F))
        → All (λ r. IsFollowed now m (lookup r.key stored) r) (map follow recs)
    follow-IsFollowed [] = tt
    follow-IsFollowed (rec ∷ recs) =
        let (same, h) = sync_key-IsFollowed now stored m rec.key in
        (
          subst (λ k. IsFollowed now m (lookup k stored) (follow rec)) (sym same) h,
          follow-IsFollowed recs,
        )

    follow-ne-resolved :
        (recs : List (EnrichedRecommendation F))
        → All (λ rec. any (λ k. k == rec.key) (active_findings m) ≡ true) recs
        → All (λ r. r.status ≢ resolved) (map follow recs)
    follow-ne-resolved [] h = tt
    follow-ne-resolved (rec ∷ recs) h =
        (sync_key-ne-resolved now stored m rec.key h.0, follow-ne-resolved recs h.1)

  -- A run of Sync that returns without an error has loaded the stored records and written what it
  -- returns: one record for each recommendation, in their order. A record whose key was not stored
  -- starts at the current value with the time `now` and the status `improving`; else it keeps the stored
  -- baseline, and its status is that of the current value against this baseline.
  pub sync-IsSynced :
      {E : Type 0} (repo : FollowThroughRepository E F) (now : ℕ)
      (recs : List (EnrichedRecommendation F)) (m : Metrics F)
      {updated : List (FollowThroughRecord F)}
      → sync repo now recs m ≡ ok updated
      → IsSynced repo now recs m updated
  unfolding sync
  sync-IsSynced repo now recs m {updated} e =
      let (stored, loaded, rest) = >>=-eq-ok repo.load_records _ e in
      let (u, written, same) = >>=-eq-ok (repo.upsert_records _) _ rest in
      let eq : map (follow now m (index_records stored)) recs ≡ updated = cc in
      record {
        stored = stored;
        loaded = loaded;
        written = rw (← eq) written;
        keys_eq = rw (← eq) (follow-keys now m (index_records stored) recs);
        followed = rw (← eq) (follow-IsFollowed now m (index_records stored) recs);
      }

  All-of_mem :
      (P : MetricKey → Type 0) (recs : List (EnrichedRecommendation F))
      → ((k : MetricKey) → Mem k (map (λ rec. rec.key) recs) → P k)
      → All (λ rec. P rec.key) recs
  All-of_mem P [] h = tt
  All-of_mem P (rec ∷ recs) h = (
    h rec.key (mem-cons.1 (Or.inl refl)),
    All-of_mem P recs (λ k mem. h k (mem-cons.1 (Or.inr mem))),
  )

  -- The recommendations of Enrich for some metrics, synced with the same metrics, never give a record
  -- the status `resolved`: every such recommendation has an active finding.
  pub sync-enrich :
      {E : Type 0} (fixed : ℕ → F → Text) (ieee : IsIeee F) (repo : FollowThroughRepository E F)
      (now days : ℕ) (m : Metrics F) {updated : List (FollowThroughRecord F)}
      → sync repo now (enrich fixed m days).0 m ≡ ok updated
      → All (λ r. r.status ≢ resolved) updated
  unfolding sync
  sync-enrich fixed ieee repo now days m {updated} e =
      let (stored, loaded, rest) = >>=-eq-ok repo.load_records _ e in
      let (u, written, same) = >>=-eq-ok (repo.upsert_records _) _ rest in
      let recs = (enrich fixed m days).0 in
      let eq : map (follow now m (index_records stored)) recs ≡ updated = cc in
      let active =
        All-of_mem (λ k. any (λ j. j == k) (active_findings m) ≡ true) recs
          (λ k mem.
            mem-any k (active_findings m)
              ((Perm.mem_iff (enrich-IsRanked fixed ieee m days).keys_perm).0 mem)) in
      rw (← eq) (follow-ne-resolved now m (index_records stored) recs active)
