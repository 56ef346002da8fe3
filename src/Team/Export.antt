-- ===== src/Team/Export.antt =====
-- internal/team/export.go, rollup.go and team_config.go: the records of the team's exports.
use codeburn_watcher.Prelude.{ℕ, List, [], Text, Assoc}
use codeburn_watcher.Prelude.Float.{Float64}
use codeburn_watcher.Shared.{Activity}
use codeburn_watcher.Analytics.Metrics.{Metrics, zero_metrics}
use codeburn_watcher.Insights.Persona.{Persona}
use codeburn_watcher.Insights.Trend.{TrendRow, ProjectMover}
use codeburn_watcher.Insights.Recommendation.{EnrichedRecommendation}
use codeburn_watcher.Insights.FollowThrough.{FollowThroughRecord}

pub record ExportPayload (F : Type 0) : Type 0 where
  pub days : ℕ
  pub overall : Metrics F
  pub by_project : Assoc Text (Metrics F)
  pub recommendations : List (EnrichedRecommendation F)
  pub trends : List (TrendRow F)
  pub project_movers : List ProjectMover
  pub follow_through : List (FollowThroughRecord F)
  pub persona : Persona

pub record SignedExport (F : Type 0) : Type 0 where
  pub version : ℕ
  pub username : Text
  pub generated_at : Text
  pub public_key : Text
  pub signature : Text
  pub payload : ExportPayload F

pub record Rollup (F : Type 0) : Type 0 where
  pub label : Text
  pub axis : Text
  pub members : List Text
  pub metrics : Metrics F
  pub persona : Persona
  pub dominant : Activity

pub record TeamConfig : Type 0 where
  pub username : Text
  pub push_url : Text
  pub members : Assoc Text (List Text)

abbrev zero_persona : Persona
zero_persona = record { id = []; label = []; description = []; general_recommendations = [] }

-- The zero value of an export.
abbrev pub zero_export : {F : Type 0} ⦃d : Float64 F⦄ → SignedExport F
zero_export = record {
  version = 0;
  username = [];
  generated_at = [];
  public_key = [];
  signature = [];
  payload = record {
    days = 0;
    overall = zero_metrics;
    by_project = [];
    recommendations = [];
    trends = [];
    project_movers = [];
    follow_through = [];
    persona = zero_persona;
  };
}
