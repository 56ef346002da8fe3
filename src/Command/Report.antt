-- ===== src/Command/Report.antt =====
-- application/report.go, push.go and html.go: the reports of a window.
use codeburn_watcher.Prelude.{Bool, [], Text, codes, text_eq, ◌==◌, if◌then◌else◌}
use codeburn_watcher.Prelude.Float.{Float64}
use codeburn_watcher.Prelude.Results.{ok}
use codeburn_watcher.Prelude.Runs.{ended_or_panic, Run, fail, lift, reads, run, wrap, ◌>>=◌}
use codeburn_watcher.Analytics.Metrics.{QueryWindow}
use codeburn_watcher.Analytics.Engine.Compute.{compute}
use codeburn_watcher.Insights.Recommendation.{enrich}
use codeburn_watcher.Insights.Trend.{compute_trends}
use codeburn_watcher.Insights.Persona.{assign}
use codeburn_watcher.Team.Export.{ExportPayload, SignedExport}
use codeburn_watcher.Team.Builder.{build, export_filename}
use codeburn_watcher.Team.Merger.{rollup}
use codeburn_watcher.Render.Terminal.{render_report}
use codeburn_watcher.Render.Html.{render_html, render_team_html}
use codeburn_watcher.Command.Deps.{AppDeps, Process, sync_action, query_filter}
use codeburn_watcher.Command.Output.{write_text, write_json, rendered}
use codeburn_watcher.Deploy.Settings.{no_deploy_config}

module _ {S F : Type 0} ⦃d : Float64 F⦄ (io : Process S F) (deps : AppDeps S F) where
  -- The part that ReportHandler and PushHandler share, up to the payload.
  unfoldable pub prepare : QueryWindow → Run S (ExportPayload F)
  prepare window = do
    evs ← reads (deps.load_events (query_filter window))
    let m = compute io.rfc3339 deps.pricing evs
    let recs = (enrich (io.printing).fixed m window.days).0
    let trends =
        compute_trends (io.printing).fixed io.signed_fixed io.rfc3339 io.plain_time deps.pricing
          io.now evs window.days
    follow_through ← run (sync_action deps io.now recs m)
    lift (
        ok (record {
          days = window.days;
          overall = m;
          by_project = [];
          recommendations = recs;
          trends = trends.0;
          project_movers = trends.1;
          follow_through = follow_through;
          persona = assign m;
        }))

  abbrev pub build_export : ExportPayload F → Run S (SignedExport F)
  build_export payload = wrap (codes "build export: ") (λ s. (
    ended_or_panic
        (build io.crypto io.encode_payload io.now_text deps.identity deps.username payload),
    s,
  ))

  unfoldable pub report : QueryWindow → Bool → Text → Run S (Unit {0})
  report window json out_file = do
    payload ← prepare window
    if json
        then (build_export payload >>= λ e. write_json io (io.indent_export e) out_file)
        else (rendered io (
              render_report io.printing payload.overall payload.recommendations payload.trends
                payload.project_movers window.days)
            >>= λ output. write_text io output out_file)

  -- The part of PushHandler after the payload.
  unfoldable pub push_export : SignedExport F → Run S (Unit {0})
  push_export e = do
    bytes ← wrap (codes "marshal export: ") (lift (io.marshal_export e))
    cfg ← wrap (codes "load deploy config: ") (reads deps.load_config)
    if cfg.push_url == []
        then fail (codes "push_url not configured — run 'token-monitor init --team <url>' first")
        else deps.push (export_filename deps.username e.generated_at) bytes cfg.push_url

  unfoldable pub push_command : QueryWindow → Run S (Unit {0})
  push_command window = do payload ← prepare window; e ← build_export payload; push_export e

  -- HtmlHandler; with --team it renders the rollup of no exports.
  unfoldable pub html : QueryWindow → Text → Bool → Run S (Unit {0})
  html window out_file team = do
    evs ← reads (deps.load_events (query_filter window))
    let m = compute io.rfc3339 deps.pricing evs
    let recs = (enrich (io.printing).fixed m window.days).0
    let trends =
        compute_trends (io.printing).fixed io.signed_fixed io.rfc3339 io.plain_time deps.pricing
          io.now evs window.days
    if team
        then write_text io (render_team_html io.printing (rollup [] no_deploy_config) window.days)
            out_file
        else write_text io (render_html io.printing m recs trends.0 trends.1 window.days) out_file
