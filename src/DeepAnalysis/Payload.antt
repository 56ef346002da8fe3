-- ===== src/DeepAnalysis/Payload.antt =====
-- internal/deepanalysis/llm_pipeline.go: the payload for a language model and the choice of its agent,
-- with the payload's records of session_stat.go. Command.Analyze has the prompt and the run.
pub mod Projects
use codeburn_watcher.Prelude.{
  ℕ, ◌+◌, Bool, true, false, Option, none, some, List, [], ◌∷◌, map, foldl, Text, text_eq, Assoc,
  upsert, insert, length, ltb, if◌then◌else◌,
}
use codeburn_watcher.Prelude.Float.{Float64, of_nat}
use codeburn_watcher.Prelude.Sort.{sort_by}
use codeburn_watcher.Shared.{Activity, StoredEvent, all_tokens}
use codeburn_watcher.Analytics.Metrics.{Metrics}
use codeburn_watcher.Insights.Finding.{MetricKey}
use codeburn_watcher.Insights.Recommendation.{EnrichedRecommendation}

pub record LlmOverall (F : Type 0) : Type 0 where
  pub events : ℕ
  pub sessions : ℕ
  pub spend_tokens : ℕ
  pub cost_usd : F
  pub cache_hit_ratio : F
  pub rework_ratio : F
  pub think_to_code_ratio : F

pub record LlmProjectStat (F : Type 0) : Type 0 where
  pub project : Text
  pub spend_tokens : ℕ
  pub cost_usd : F
  pub sessions : ℕ

pub record LlmAgent : Type 0 where
  pub name : Text
  pub cmd : Text
  pub args : List Text

-- The fields that BuildPayload sets; the lists of sessions and of tools stay nil.
pub record LlmPayload (F : Type 0) : Type 0 where
  pub window_days : ℕ
  pub overall : LlmOverall F
  pub projects : List (LlmProjectStat F)
  pub rule_based_findings : List MetricKey

-- The set of the sessions is a map to a value without content. Its costUsd is never set.
pub record ProjAccum : Type 0 where
  pub tokens : ℕ
  pub sessions : Assoc Text (Unit {0})

abbrev pub new_project : ProjAccum
new_project = record { tokens = 0; sessions = [] }

abbrev pub add_to_project : StoredEvent → ProjAccum → ProjAccum
add_to_project ev a = record {
  tokens = a.tokens + all_tokens ev;
  sessions = insert ev.session_id tt a.sessions;
}

unfoldable pub group_projects : List StoredEvent → Assoc Text ProjAccum
group_projects = foldl (λ m ev. upsert new_project ev.project (add_to_project ev) m) []

module _ {F : Type 0} ⦃d : Float64 F⦄ where
  abbrev pub project_stat : Text × ProjAccum → LlmProjectStat F
  project_stat (name, a) = record {
    project = name;
    spend_tokens = a.tokens;
    cost_usd = of_nat 0;
    sessions = length a.sessions;
  }

  abbrev pub spends_more : LlmProjectStat F → LlmProjectStat F → Bool
  spends_more a b = ltb b.spend_tokens a.spend_tokens

  unfoldable pub build_payload :
      List StoredEvent → Metrics F → List (EnrichedRecommendation F) → ℕ → LlmPayload F
  build_payload events m recs days = record {
    window_days = days;
    overall = record {
      events = m.events;
      sessions = m.sessions;
      spend_tokens = m.spend_tokens;
      cost_usd = m.cost_usd;
      cache_hit_ratio = m.cache_hit_ratio;
      rework_ratio = m.rework_ratio;
      think_to_code_ratio = m.think_to_code_ratio;
    };
    projects = sort_by spends_more (map project_stat (group_projects events));
    rule_based_findings = map (λ r. r.key) recs;
  }

-- DetectAgent; `in_path` is whether exec.LookPath finds a command.
unfoldable pub detect_agent : (Text → Bool) → List LlmAgent → Option LlmAgent
detect_agent in_path [] = none
detect_agent in_path (a ∷ agents) =
    let rest = detect_agent in_path agents in if in_path a.cmd then some a else rest
