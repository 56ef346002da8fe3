-- ===== src/Reconciliation.antt =====
-- internal/reconciliation: provider_usage.go, result.go and service.go, and toLocalTotals of
-- application/util.go. A map is the list of its entries in the order in which a loop meets them.
pub mod Verdicts
pub mod Providers
use codeburn_watcher.Prelude.{
  ℕ, ◌+◌, Bool, true, false, ◌||◌, Option, none, some, List, [], ◌∷◌, foldl, Text, text_eq, Assoc,
  lookup, insert, tally, get_or, has_key, if◌then◌else◌, nat_beq, map, any,
}
use codeburn_watcher.Prelude.Float.{Float64, of_nat}
use codeburn_watcher.Shared.{StoredEvent, all_tokens}
use codeburn_watcher.Analytics.Metrics.{QueryWindow}

pub record ProviderUsage : Type 0 where
  pub model : Text
  pub input_tokens : ℕ
  pub output_tokens : ℕ
  pub cache_read_tokens : ℕ
  pub cache_creation_tokens : ℕ

abbrev pub total_tokens : ProviderUsage → ℕ
total_tokens p = p.input_tokens + p.output_tokens + p.cache_read_tokens + p.cache_creation_tokens

pub data ReconcileVerdict : Type 0 where
  verdict_ok local_exceeds_api local_only : ReconcileVerdict

pub record ReconcileRow (F : Type 0) : Type 0 where
  pub model : Text
  pub local_tokens : ℕ
  pub api_tokens : ℕ
  pub coverage : F
  pub verdict : ReconcileVerdict

pub record ReconciliationResult (F : Type 0) : Type 0 where
  pub provider : Text
  pub window : QueryWindow
  pub rows : List (ReconcileRow F)
  pub breach : Bool

abbrev pub has_breach : {F : Type 0} → ReconciliationResult F → Bool
has_breach r = r.breach

-- apiByModel[u.Model] = u.TotalTokens(), for each usage in turn
unfoldable pub api_by_model : List ProviderUsage → Assoc Text ℕ
api_by_model = foldl (λ m u. insert u.model (total_tokens u) m) []

-- toLocalTotals
unfoldable pub to_local_totals : List StoredEvent → Assoc Text ℕ
to_local_totals = tally (λ ev. ev.model) all_tokens

abbrev pub reconcile_tolerance : {F : Type 0} ⦃d : Float64 F⦄ → F
reconcile_tolerance ⦃d⦄ = d.lit 105 100

-- float64(localTok) > float64(apiTok)*ReconcileTolerance
unfoldable pub exceeds : (F : Type 0) ⦃d : Float64 F⦄ → ℕ → ℕ → Bool
exceeds F ⦃d⦄ local_tok api_tok =
    d.lt (d.mul (of_nat api_tok) reconcile_tolerance) (of_nat local_tok)

module _ {F : Type 0} ⦃d : Float64 F⦄ where
  unfoldable pub safe_div : ℕ → ℕ → F
  safe_div num denom = if nat_beq denom 0 then of_nat 0 else d.div (of_nat num) (of_nat denom)

  row : Text → ℕ → ℕ → F → ReconcileVerdict → ReconcileRow F
  row model local_tok api_tok coverage verdict = record {
    model = model;
    local_tokens = local_tok;
    api_tokens = api_tok;
    coverage = coverage;
    verdict = verdict;
  }

  -- The row of one model, and whether it sets `breach`.
  unfoldable pub compare_model : Assoc Text ℕ → Text → ℕ → ReconcileRow F × Bool
  unfolding row
  compare_model api model local_tok = elim (lookup model api) [
    | none ↦ (row model local_tok 0 (of_nat 0) local_only, false)
    | some api_tok ↦
        let coverage = safe_div local_tok api_tok in
        if exceeds F local_tok api_tok
        then (row model local_tok api_tok coverage local_exceeds_api, true)
        else (row model local_tok api_tok coverage verdict_ok, false)
  ]

  -- The loop over the local totals.
  unfoldable pub compare_all : Assoc Text ℕ → Assoc Text ℕ → List (ReconcileRow F) × Bool
  compare_all api [] = ([], false)
  compare_all api ((model, local_tok) ∷ rest) =
      let first = compare_model api model local_tok in
      let others = compare_all api rest in (first.0 ∷ others.0, first.1 || others.1)

  -- `compare` is a name of the arithmetic: Compare is `compare_totals` here.
  unfoldable pub compare_totals :
      Text → QueryWindow → Assoc Text ℕ → List ProviderUsage → ReconciliationResult F
  compare_totals provider window local usages =
      let found = compare_all (api_by_model usages) local in
      record { provider = provider; window = window; rows = found.0; breach = found.1 }
