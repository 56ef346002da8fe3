-- ===== src/Team/Merger.antt =====
-- internal/team/export_merger.go: dedupe, merge and rollup of the exports of a team.
mod Firsts
pub mod Latest
pub mod Rollups
use codeburn_watcher.Prelude.{
  ℕ, ◌+◌, Bool, true, false, not, ◌||◌, Option, none, some, List, [], ◌∷◌, ◌++◌, map, foldl, Text,
  codes, text_eq, text_lt, Assoc, keys, lookup, get_or, insert, if◌then◌else◌, nat_beq, ltb, length,
  sum_by, any, select, ◌==◌,
}
use codeburn_watcher.Prelude.Float.{Float64, of_nat}
use codeburn_watcher.Prelude.Sort.{sort_by}
use codeburn_watcher.Shared.{Activity, thinking, exploration, activities, activity_eq}
use codeburn_watcher.Analytics.Metrics.{ActivityBreakdown, Metrics, zero_metrics}
use codeburn_watcher.Insights.Persona.{assign}
use codeburn_watcher.Team.Export.{SignedExport, zero_export, Rollup, TeamConfig}

-- The two variables of the loop of Dedupe.
pub record Dedupe (F : Type 0) : Type 0 where
  pub latest : Assoc Text (SignedExport F)
  pub order : List Text

module _ {F : Type 0} ⦃d : Float64 F⦄ where
  -- !seen || e.GeneratedAt > prev.GeneratedAt
  abbrev pub is_newer : Option (SignedExport F) → SignedExport F → Bool
  is_newer none e = true
  is_newer (some prev) e = text_lt prev.generated_at e.generated_at

  abbrev pub is_seen : Option (SignedExport F) → Bool
  is_seen none = false
  is_seen (some prev) = true

  unfoldable pub dedupe_step : Dedupe F → SignedExport F → Dedupe F
  dedupe_step s e =
      let prev = lookup e.username s.latest in
      record {
        latest = if is_newer prev e then insert e.username e s.latest else s.latest;
        order = if is_seen prev then s.order else s.order ++ (e.username ∷ []);
      }

  unfoldable pub dedupe : List (SignedExport F) → List (SignedExport F)
  dedupe exports =
      let s = foldl dedupe_step (record { latest = []; order = [] }) exports in
      map (λ u. get_or zero_export u s.latest) s.order

  -- The sum of a field of the exports' overall metrics, added up from the left, and its plain average.
  abbrev sum_field : (Metrics F → F) → List (SignedExport F) → F
  sum_field f exports = foldl (λ t e. d.add t (f e.payload.overall)) (of_nat 0) exports

  abbrev mean_field : (Metrics F → F) → List (SignedExport F) → F
  mean_field f exports = d.div (sum_field f exports) (of_nat (length exports))

  unfoldable pub merge_metrics : List (SignedExport F) → Metrics F
  merge_metrics exports =
      let zero : Metrics F = zero_metrics in
      if nat_beq (length exports) 0 then zero else record zero {
        events = sum_by (λ e. e.payload.overall.events) exports;
        sessions = sum_by (λ e. e.payload.overall.sessions) exports;
        spend_tokens = sum_by (λ e. e.payload.overall.spend_tokens) exports;
        cost_usd = sum_field (λ m. m.cost_usd) exports;
        cache_hit_ratio = mean_field (λ m. m.cache_hit_ratio) exports;
        rework_ratio = mean_field (λ m. m.rework_ratio) exports;
        think_to_code_ratio = mean_field (λ m. m.think_to_code_ratio) exports;
        context_bloat_share = mean_field (λ m. m.context_bloat_share) exports;
        cold_restart_share = mean_field (λ m. m.cold_restart_share) exports;
        premium_waste_share = mean_field (λ m. m.premium_waste_share) exports;
        retry_share = mean_field (λ m. m.retry_share) exports;
      }

  -- One round of the loop of DominantActivity, on the best activity and its tokens.
  unfoldable pub dominant_step :
      Assoc Activity (ActivityBreakdown F) → Activity × ℕ → Activity → Activity × ℕ
  dominant_step by_activity (best, n) act = elim (lookup act by_activity) [
    | none ↦ (best, n)
    | some b ↦ if ltb n b.tokens then (act, b.tokens) else (best, n)
  ]

  unfoldable pub dominant_activity : Metrics F → Activity
  dominant_activity m =
      if nat_beq (length m.by_activity) 0
      then exploration
      else (foldl (dominant_step m.by_activity) (thinking, 0) activities).0

  abbrev pub rollup_of : Text → Text → List Text → List (SignedExport F) → Rollup F
  rollup_of label axis members exports =
      let metrics = merge_metrics exports in
      record {
        label = label;
        axis = axis;
        members = members;
        metrics = metrics;
        persona = assign metrics;
        dominant = dominant_activity metrics;
      }

  -- The exports whose user is one of `members`.
  abbrev pub exports_of : List Text → List (SignedExport F) → List (SignedExport F)
  exports_of members = select (λ e. any (λ u. e.username == u) members)

  -- The loop over the sorted group names.
  unfoldable pub group_rollups : List (SignedExport F) → TeamConfig → List Text → List (Rollup F)
  group_rollups exports config [] = []
  group_rollups exports config (g ∷ gs) =
      let members = get_or [] g config.members in
      let group_exports = exports_of members exports in
      let rest = group_rollups exports config gs in
      if nat_beq (length group_exports) 0
      then rest
      else rollup_of g (codes "group") members group_exports ∷ rest

  unfoldable pub rollup : List (SignedExport F) → TeamConfig → List (Rollup F)
  rollup exports config =
      group_rollups exports config (sort_by text_lt (keys config.members))
      ++ (rollup_of (codes "all") (codes "all") (map (λ e. e.username) exports) exports ∷ [])
