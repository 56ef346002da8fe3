-- ===== src/Command/Analyze.antt =====
-- application/analyze.go, with BuildPrompt and Run of internal/deepanalysis/llm_pipeline.go.
use codeburn_watcher.Prelude.{Bool, ◌||◌, Option, none, some, [], ◌++◌, Text, codes, if◌then◌else◌}
use codeburn_watcher.Prelude.Float.{Float64}
use codeburn_watcher.Prelude.Results.{Result, ok, err}
use codeburn_watcher.Prelude.Runs.{Run, fail, exit, reads, run, ◌>>=◌}
use codeburn_watcher.Analytics.Metrics.{QueryWindow}
use codeburn_watcher.Analytics.Engine.Compute.{compute}
use codeburn_watcher.Insights.Recommendation.{enrich}
use codeburn_watcher.DeepAnalysis.Sessions.{deep_analyze}
use codeburn_watcher.DeepAnalysis.Tools.{compute_tool_stats}
use codeburn_watcher.DeepAnalysis.Payload.{LlmAgent, LlmPayload, build_payload, detect_agent}
use codeburn_watcher.Render.Terminal.{render_analysis}
use codeburn_watcher.Command.Deps.{AppDeps, Process, query_filter}
use codeburn_watcher.Command.Output.{print_text, write_json}

-- An error of the encoder leaves no bytes.
abbrev pub or_nothing : Result Text Text → Text
or_nothing (ok t) = t
or_nothing (err e) = []

pub record AnalyzeQuery : Type 0 where
  pub window : QueryWindow
  pub llm : Bool
  pub agent : Text
  pub json : Bool

module _ {S F : Type 0} ⦃d : Float64 F⦄ (io : Process S F) (deps : AppDeps S F) where
  unfoldable pub build_prompt : LlmPayload F → Text
  build_prompt payload =
      codes
        "You are an AI coding assistant advisor. Analyse the following aggregate token usage metrics and provide 3-5 specific, actionable recommendations.\n\nPrivacy note: this payload contains only aggregate statistics — no code, prompts, or personal data.\n\n```json\n"
      ++ (or_nothing (io.indent_llm payload) ++ codes "\n```\n")

  -- os.Exit of the code that Run returns.
  unfoldable pub ask_agent : Text → Option LlmAgent → Run S (Unit {0})
  ask_agent prompt none =
      fail (codes "no supported LLM agent found on PATH (claude, gemini, codex)")
  ask_agent prompt (some agent) = run (io.exec_agent agent prompt) >>= exit

  unfoldable pub send_payload : AnalyzeQuery → LlmPayload F → Run S (Unit {0})
  send_payload q payload =
      if q.json
      then write_json io (io.indent_llm payload) []
      else ask_agent (build_prompt payload) (detect_agent io.in_path deps.agents)

  -- The handler does not read the agent of its query.
  unfoldable pub analyze : AnalyzeQuery → Run S (Unit {0})
  analyze q = do
    evs ← reads (deps.load_events (query_filter q.window))
    let m = compute io.rfc3339 deps.pricing evs
    let deep = deep_analyze io.rfc3339 io.minutes deps.pricing evs
    let recs = (enrich (io.printing).fixed m (q.window).days).0
    if q.llm || q.json
        then send_payload q (build_payload evs m recs (q.window).days)
        else print_text io
            (render_analysis io.printing deep (compute_tool_stats evs) (q.window).days)
