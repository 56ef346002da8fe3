-- ===== src/Insights/FollowThrough/Status.antt =====
-- The status of a follow-through record against the finding that it follows.
use codeburn_watcher.Prelude.{
  ℕ, ◌≡◌, ◌≢◌, refl, true, false, not, arith, any, ◌==◌, Option-cases, inl, inr, Option, none, some,
  lookup, Assoc,
}
use codeburn_watcher.Prelude.Float.{Float64}
use codeburn_watcher.Analytics.Metrics.{Metrics}
use codeburn_watcher.Insights.Finding.{
  MetricKey, cache_miss, rework, think_overcode, bloat, cold_restart, premium_waste, retry_loop,
  high_cost, key_eq, active_of, active_findings,
}
use codeburn_watcher.Insights.FollowThrough.{
  improving, resolved, FollowThroughRecord, metric_value, resolved_in, is_resolved, status_of,
  sync_key,
}

module _ {F : Type 0} ⦃d : Float64 F⦄ where
  -- For each of the eight findings, the value that Sync reads off the metrics is resolved exactly if
  -- ActiveFindings does not list the finding for these metrics.
  pub is_resolved_iff :
      (key : MetricKey) (m : Metrics F)
      → is_resolved key (metric_value key m) ≡ not (any (λ k. k == key) (active_findings m))
  unfolding resolved_in metric_value active_of
  is_resolved_iff cache_miss m = ground arith
  is_resolved_iff rework m = ground arith
  is_resolved_iff think_overcode m = ground arith
  is_resolved_iff bloat m = ground arith
  is_resolved_iff cold_restart m = ground arith
  is_resolved_iff premium_waste m = ground arith
  is_resolved_iff retry_loop m = ground arith
  is_resolved_iff high_cost m = ground arith

  -- The record that Sync makes for the key of `r`, from the stored record of that key, if any.
  abbrev pub IsFollowed :
      ℕ → Metrics F → Option (FollowThroughRecord F) → FollowThroughRecord F → Type 0
  IsFollowed now m none r =
      (r.baseline_value ≡ metric_value r.key m)
      × (r.baseline_ts ≡ now)
      × (r.current_value ≡ metric_value r.key m)
      × (r.status ≡ improving)
  IsFollowed now m (some old) r =
      (r.baseline_value ≡ old.baseline_value)
      × (r.baseline_ts ≡ old.baseline_ts)
      × (r.current_value ≡ metric_value r.key m)
      × (r.status ≡ status_of r.key old.baseline_value (metric_value r.key m))

  pub sync_key-IsFollowed :
      (now : ℕ) (stored : Assoc MetricKey (FollowThroughRecord F)) (m : Metrics F) (key : MetricKey)
      → let r = sync_key now stored m key in (r.key ≡ key) × IsFollowed now m (lookup key stored) r
  unfolding sync_key
  sync_key-IsFollowed now stored m key = elim (Option-cases (lookup key stored)) [
    | inl e ↦ rw (e, sync_key) (refl, (refl, refl, refl, refl))
    | inr (old, e) ↦ rw (e, sync_key) (refl, (refl, refl, refl, refl))
  ]

  -- A key of an active finding is never given the status `resolved`.
  pub sync_key-ne-resolved :
      (now : ℕ) (stored : Assoc MetricKey (FollowThroughRecord F)) (m : Metrics F) (key : MetricKey)
      → any (λ k. k == key) (active_findings m) ≡ true
      → (sync_key now stored m key).status ≢ resolved
  unfolding sync_key
  sync_key-ne-resolved now stored m key h =
      let open_ : is_resolved key (metric_value key m) ≡ false = rw (is_resolved_iff, h) in
      elim (Option-cases (lookup key stored)) [
        | inl e ↦ rw (e, sync_key) (λ p. cc)
        | inr (old, e) ↦ rw (e, sync_key) (rw open_ (ground arith))
      ]
