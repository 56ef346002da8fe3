-- ===== src/Reconciliation/Verdicts.antt =====
-- The verdicts of a reconciliation against the two totals of each model.
use codeburn_watcher.Prelude.{
  ℕ, ◌≡◌, refl, Bool, true, false, Option, none, some, List, [], ◌∷◌, arith, Text, Assoc, lookup,
  any, map, All, if◌then◌else◌, text_eq, weight_at, get_or, get_or-tally, inl, inr, Option-cases,
  insert, Bool-cases, ◌==◌, sum_by, foldl, ◌∙◌, lookup-insert, total, total-tally,
}
use codeburn_watcher.Prelude.Float.{Float64, of_nat}
use codeburn_watcher.Shared.{StoredEvent, all_tokens}
use codeburn_watcher.Analytics.Metrics.{QueryWindow}
use codeburn_watcher.Reconciliation.{
  ProviderUsage, verdict_ok, local_exceeds_api, local_only, ReconcileRow, ReconciliationResult,
  api_by_model, to_local_totals, exceeds, compare_model, compare_all, compare_totals, total_tokens,
  safe_div,
}

abbrev pub is_exceeding : {F : Type 0} → ReconcileRow F → Bool
is_exceeding r = elim r.verdict [ local_exceeds_api ↦ true | _ ↦ false ]

-- The total of the last usage that names the model.
abbrev pub last_usage : Text → List ProviderUsage → Option ℕ
last_usage model [] = none
last_usage model (u ∷ us) = elim (last_usage model us) [
  | some n ↦ some n
  | none ↦ if model == u.model then some (total_tokens u) else none
]

module _ {F : Type 0} ⦃d : Float64 F⦄ where
  -- What a row says of its model, given the total of the provider, if any.
  abbrev pub IsJudged : Option ℕ → ReconcileRow F → Type 0
  IsJudged none r = (r.verdict ≡ local_only) × (r.api_tokens ≡ 0) × (r.coverage ≡ of_nat 0)
  IsJudged (some n) r =
      (r.verdict ≡ (if exceeds F r.local_tokens n then local_exceeds_api else verdict_ok))
      × (r.api_tokens ≡ n)
      × (r.coverage ≡ safe_div r.local_tokens n)

  -- A row is judged by the API total of its own model.
  abbrev IsRowOf : Assoc Text ℕ → ReconcileRow F → Type 0
  IsRowOf api r = IsJudged (lookup r.model api) r

module _ (F : Type 0) ⦃d : Float64 F⦄ where
  compare_model_lem :
      (api : Assoc Text ℕ) (model : Text) (n : ℕ)
      → let found = compare_model {F = F} api model n in
        IsJudged (lookup model api) found.0
        × (found.0.model ≡ model)
        × (found.0.local_tokens ≡ n)
        × (found.1 ≡ is_exceeding found.0)
  unfolding compare_model
  compare_model_lem api model n = elim (Option-cases (lookup model api)) [
    | inl e ↦ rw (e, compare_model) ((refl, refl, refl), refl, refl, refl)
    | inr (a, e) ↦
        rw (e, compare_model)
          (elim (Bool-cases (exceeds F n a)) [
            | inl x ↦ rw x ((rw x, refl, refl), refl, refl, refl)
            | inr x ↦ rw x ((rw x, refl, refl), refl, refl, refl)
          ])
  ]

  compare_all_lem :
      (api l : Assoc Text ℕ)
      → let found = compare_all {F = F} api l in
        (map (λ r. (r.model, r.local_tokens)) found.0 ≡ l)
        × All (IsRowOf api) found.0
        × (found.1 ≡ any is_exceeding found.0)
  unfolding compare_all
  compare_all_lem api [] = (refl, tt, refl)
  compare_all_lem api ((model, n) ∷ l) =
      let (judged, same_model, same_tokens, flag) = compare_model_lem api model n in
      let (pairs, rows, flags) = compare_all_lem api l in
      (rw (same_model, same_tokens, pairs), (rw same_model judged, rows), rw (flag, flags))

lookup-foldl :
    (model : Text) (us : List ProviderUsage) (m : Assoc Text ℕ)
    → lookup model (foldl (λ m u. insert u.model (total_tokens u) m) m us)
      ≡ elim (last_usage model us) [ some n ↦ some n | none ↦ lookup model m ]
lookup-foldl model [] m = refl
lookup-foldl model (u ∷ us) m = ground (
  arith,
  lookup-insert u.model (total_tokens u) m model,
  lookup-foldl model us (insert u.model (total_tokens u) m),
)

lookup-api_by_model :
    (model : Text) (us : List ProviderUsage) → lookup model (api_by_model us) ≡ last_usage model us
unfolding api_by_model lookup
lookup-api_by_model model us = ground (arith, lookup-foldl model us [])

map-sum :
    {F : Type 0} (rows : List (ReconcileRow F))
    → sum_by (λ r. r.local_tokens) rows ≡ total (map (λ r. (r.model, r.local_tokens)) rows)
map-sum [] = refl
map-sum (r ∷ rows) = omega (arith, map-sum rows)

-- A reconciliation of the local events with the provider's usages.
pub record IsReconciled {F : Type 0} ⦃d : Float64 F⦄ (events : List StoredEvent)
    (usages : List ProviderUsage) (r : ReconciliationResult F) : Type 0 where
  pub all_rows : sum_by (λ row. row.local_tokens) r.rows ≡ sum_by all_tokens events
  pub local_sums :
      (model : Text)
      → get_or 0 model (map (λ row. (row.model, row.local_tokens)) r.rows)
        ≡ weight_at (λ ev. ev.model) all_tokens model events
  pub judged : All (λ row. IsJudged (last_usage row.model usages) row) r.rows
  pub breach_eq : r.breach ≡ any is_exceeding r.rows

module _ (F : Type 0) ⦃d : Float64 F⦄ where
  judge_by_usage :
      (us : List ProviderUsage) (rows : List (ReconcileRow F))
      → All (IsRowOf (api_by_model us)) rows
      → All (λ row. IsJudged (last_usage row.model us) row) rows
  judge_by_usage us [] h = tt
  judge_by_usage us (r ∷ rows) h =
      (rw (lookup-api_by_model r.model us) at h.0, judge_by_usage us rows h.1)

  -- Compare, on the totals of the local events: the rows hold all local tokens; the rows of a model hold
  -- the tokens of its events; a row is `local_only` without API tokens if no usage names its model, and
  -- else it has the total of the last usage of its model, the coverage that safeDiv gives and the verdict
  -- `local_exceeds_api` if the local total exceeds the tolerance, `verdict_ok` if not; and the breach flag
  -- is set exactly if some row has the verdict `local_exceeds_api`.
  pub compare_totals-IsReconciled :
      (provider : Text) (window : QueryWindow) (events : List StoredEvent)
      (usages : List ProviderUsage)
      → IsReconciled {F = F} events usages
          (compare_totals provider window (to_local_totals events) usages)
  unfolding compare_totals to_local_totals
  compare_totals-IsReconciled provider window events usages =
      let local = to_local_totals events in
      let (pairs, rows, flag) = compare_all_lem F (api_by_model usages) local in
      record {
        all_rows =
            map-sum (compare_all {F = F} (api_by_model usages) local).0
            ∙ rw pairs (total-tally (λ ev. ev.model) all_tokens events);
        local_sums = λ model. rw pairs (get_or-tally (λ ev. ev.model) all_tokens model events);
        judged = judge_by_usage usages _ rows;
        breach_eq = flag;
      }
