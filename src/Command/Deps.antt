-- ===== src/Command/Deps.antt =====
-- application/deps.go: what a handler works with, and the calls of Go's packages.
use codeburn_watcher.Prelude.{ℕ, Bool, Option, List, Text, map}
use codeburn_watcher.Prelude.Int.{ℤ}
use codeburn_watcher.Prelude.Float.{Float64}
use codeburn_watcher.Prelude.Results.{Result, ok}
use codeburn_watcher.Prelude.Actions.{Action, lift, ◌>>=◌, ◌>>◌}
use codeburn_watcher.Prelude.Runs.{Run}
use codeburn_watcher.Shared.{Source, StoredEvent}
use codeburn_watcher.Analytics.Price.{PricingService}
use codeburn_watcher.Analytics.Metrics.{Metrics, QueryWindow}
use codeburn_watcher.Insights.Recommendation.{EnrichedRecommendation}
use codeburn_watcher.Insights.FollowThrough.{FollowThroughRecord, index_records, sync_key}
use codeburn_watcher.Collection.Event.{CollectResult}
use codeburn_watcher.DeepAnalysis.Payload.{LlmAgent, LlmPayload}
use codeburn_watcher.Store.{QueryFilter}
use codeburn_watcher.Team.Export.{ExportPayload, SignedExport}
use codeburn_watcher.Trust.{Crypto, SigningIdentity, Keyring}
use codeburn_watcher.Deploy.Settings.{DeployConfig}
use codeburn_watcher.Render.Format.{Printing}
use codeburn_watcher.Disk.{ReadError}

-- The ports, and the services that have fields; the others are functions. `collect` is a CollectHandler
-- of the adapters and the writer.
pub record AppDeps (S F : Type 0) : Type 0 where
  pub load_events : QueryFilter → S → Result Text (List StoredEvent)
  pub collect : Option Source → Action S (List CollectResult)
  pub load_records : S → Result Text (List (FollowThroughRecord F))
  pub upsert_records : List (FollowThroughRecord F) → Action S (Unit {0})
  pub ensure_keypair : Text → Action S (Text × Text)
  pub load_keypair : Text → S → Result Text (Text × Text)
  pub load_keyring : Text → S → Result Text Keyring
  pub push : Text → Text → Text → Run S (Unit {0})
  pub fetch_config : Text → Run S Text
  pub load_config : S → Result Text DeployConfig
  pub save_config : DeployConfig → Action S (Unit {0})
  pub install : Text → Action S (Unit {0})
  pub remove : Action S (Unit {0})
  pub pricing : PricingService F
  pub agents : List LlmAgent
  pub identity : SigningIdentity
  pub username : Text

-- The process: the clock, the environment, the standard output and the files, and the encoders.
pub record Process (S F : Type 0) : Type 0 where
  pub crypto : Crypto
  pub printing : Printing F
  pub signed_fixed : ℕ → F → Text
  pub now : ℕ
  pub now_text : Text
  pub rfc3339 : Text → Option ℕ
  pub plain_time : Text → Option ℕ
  pub minutes : ℤ → F
  pub home : Result Text Text
  pub executable : Result Text Text
  pub join_path : Text → Text → Text
  pub getenv : Text → Text
  pub in_path : Text → Bool
  pub exec_agent : LlmAgent → Text → Action S ℕ
  pub stdout : Text → Action S (Unit {0})
  pub stderr : Text → S → S
  pub write_file : Text → Text → Action S (Unit {0})
  pub read_file : Text → S → Result ReadError Text
  pub encode_payload : ExportPayload F → Result Text Text
  pub marshal_export : SignedExport F → Result Text Text
  pub indent_export : SignedExport F → Result Text Text
  pub indent_llm : LlmPayload F → Result Text Text
  pub decode_export : Text → Result Text (SignedExport F)

-- FollowThroughService.Sync on the port, with the state that it leaves.
unfoldable pub sync_action :
    {S F : Type 0} ⦃d : Float64 F⦄
    → AppDeps S F
    → ℕ
    → List (EnrichedRecommendation F)
    → Metrics F
    → Action S (List (FollowThroughRecord F))
sync_action deps now recs m s =
    (do
      stored ← λ t. (deps.load_records t, t)
      let updated = map (λ rec. sync_key now (index_records stored) m rec.key) recs
      deps.upsert_records updated
      lift (ok updated))
      s

-- queryFilter
abbrev pub query_filter : QueryWindow → QueryFilter
query_filter w = record {
  days = w.days;
  project_filter = w.project_filter;
  source_filter = w.source_filter;
}
