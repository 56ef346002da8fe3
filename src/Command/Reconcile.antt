-- ===== src/Command/Reconcile.antt =====
-- application/reconcile.go, with the table of infrastructure/providers/registry.go.
use codeburn_watcher.Prelude.{
  ℕ, Option, none, some, List, [], ◌++◌, Text, codes, text_eq, nat_eq, ◌==◌, if◌then◌else◌,
}
use codeburn_watcher.Prelude.Float.{Float64}
use codeburn_watcher.Prelude.Results.{Result}
use codeburn_watcher.Prelude.Runs.{Run, unfinished, fail, lift, reads, wrap, ◌>>=◌}
use codeburn_watcher.Analytics.Metrics.{QueryWindow}
use codeburn_watcher.Reconciliation.{ProviderUsage, to_local_totals, compare_totals}
use codeburn_watcher.Reconciliation.Providers.{
  Refusal, Response, Page, AnthropicRow, OpenAiRow, anthropic_usage, openai_usage,
}
use codeburn_watcher.Render.Terminal.{render_reconcile}
use codeburn_watcher.Command.Output.{print_text}
use codeburn_watcher.Command.Deps.{AppDeps, Process, query_filter}

-- The adapter of a provider.
pub data UsageAdapter : Type 0 where
  anthropic_adapter openai_adapter : UsageAdapter

pub record ProviderSpec : Type 0 where
  pub key_env : Text
  pub url_env : Text
  pub default_url : Text
  pub adapter : UsageAdapter

abbrev pub anthropic_spec : ProviderSpec
anthropic_spec = record {
  key_env = codes "ANTHROPIC_ADMIN_KEY";
  url_env = codes "TOKEN_MONITOR_ANTHROPIC_URL";
  default_url = codes "https://api.anthropic.com";
  adapter = anthropic_adapter;
}

abbrev pub openai_spec : ProviderSpec
openai_spec = record {
  key_env = codes "OPENAI_ADMIN_KEY";
  url_env = codes "TOKEN_MONITOR_OPENAI_URL";
  default_url = codes "https://api.openai.com";
  adapter = openai_adapter;
}

-- ProviderRegistry
abbrev pub provider_registry : Text → Option ProviderSpec
provider_registry name =
    if name == codes "anthropic"
    then some anthropic_spec
    else if name == codes "openai"
    then some openai_spec
    else none

-- The two APIs: a client with a key, the decoders of their pages, and the notation of a time (the day for
-- Anthropic, the seconds for OpenAI) some days ago.
pub record UsageApis : Type 0 where
  pub client : Text → Text → Result Refusal Response
  pub decode_anthropic : Text → Result Text (Page AnthropicRow)
  pub decode_openai : Text → Result Text (Page OpenAiRow)
  pub day_ago : ℕ → Text
  pub seconds_ago : ℕ → Text

pub record ReconcileCommand : Type 0 where
  pub provider : Text
  pub days : ℕ

-- FetchUsage of the adapter, from `days` ago to now.
unfoldable pub fetch_of :
    UsageApis → UsageAdapter → Text → Text → ℕ → ℕ → Option (Result Text (List ProviderUsage))
fetch_of apis anthropic_adapter base_url key days fuel =
    anthropic_usage (apis.client key) apis.decode_anthropic base_url (apis.day_ago days)
      (apis.day_ago 0) fuel
fetch_of apis openai_adapter base_url key days fuel =
    openai_usage (apis.client key) apis.decode_openai base_url (apis.seconds_ago days)
      (apis.seconds_ago 0) fuel

-- A fetch that still runs when the fuel is spent.
abbrev pub fetched : {S A : Type 0} → Option (Result Text A) → Run S A
fetched none s = (unfinished, s)
fetched (some r) s = lift r s

module _ {S F : Type 0} ⦃d : Float64 F⦄ (io : Process S F) (deps : AppDeps S F)
    (apis : UsageApis) where
  -- The part after the key is read.
  unfoldable pub reconcile_with : ProviderSpec → Text → ReconcileCommand → ℕ → Run S (Unit {0})
  reconcile_with spec key cmd fuel = do
    let chosen = io.getenv spec.url_env
    let base_url = if chosen == [] then spec.default_url else chosen
    let days = if cmd.days == 0 then 7 else cmd.days
    let window : QueryWindow = record { days = days; project_filter = []; source_filter = [] }
    usages ←
        wrap (codes "fetch " ++ (cmd.provider ++ codes " usage: "))
          (fetched (fetch_of apis spec.adapter base_url key days fuel))
    evs ← reads (deps.load_events (query_filter window))
    let result = compare_totals cmd.provider window (to_local_totals evs) usages
    print_text io (render_reconcile io.printing cmd.provider result days)

  -- The name is one that %q writes as it stands.
  unfoldable pub reconcile : ReconcileCommand → ℕ → Run S (Unit {0})
  reconcile cmd fuel = elim (provider_registry cmd.provider) [
    | none ↦
        fail (
          codes "unknown provider \""
          ++ (cmd.provider ++ codes "\" — supported: anthropic, openai"))
    | some spec ↦
        let key = io.getenv spec.key_env in
        let found = reconcile_with spec key cmd fuel in
        if key == [] then fail (codes "env " ++ (spec.key_env ++ codes " not set")) else found
  ]
