-- ===== src/Command/Unwired.antt =====
-- What the dependencies that the command line wires cannot do.
use codeburn_watcher.Prelude.{
  ◌∷◌, text_eq, ◌≡◌, refl, ◌∙◌, true, false, [], Text, codes, inl, inr, Option-cases, ◌==◌,
}
use codeburn_watcher.Prelude.Float.{Float64}
use codeburn_watcher.Prelude.Results.{ok, err, Result-cases}
use codeburn_watcher.Prelude.Runs.{returned, failed}
use codeburn_watcher.Analytics.Metrics.{QueryWindow}
use codeburn_watcher.Trust.{SigningIdentity}
use codeburn_watcher.Deploy.Transport.{is_http}
use codeburn_watcher.Deploy.Unsent.{IsUnsent, composite-IsUnsent}
use codeburn_watcher.Deploy.Settings.{DeployConfig, load_config}
use codeburn_watcher.Command.Deps.{AppDeps, Process, query_filter}
use codeburn_watcher.Command.Report.{push_export, prepare, push_command}
use codeburn_watcher.Command.Analyze.{AnalyzeQuery, analyze, send_payload, ask_agent}
use codeburn_watcher.Team.Export.{ExportPayload, SignedExport}
use codeburn_watcher.Team.Builder.{build, export_filename}
use codeburn_watcher.DeepAnalysis.Payload.{detect_agent}
use codeburn_watcher.Command.Wire.{Machine, wired}

module _ {S F : Type 0} ⦃d : Float64 F⦄ (io : Process S F) (machine : Machine S F)
    (identity : SigningIdentity) (username : Text) where
  abbrev deps : AppDeps S F
  deps = wired io machine identity username

  push-IsUnsent :
      (filename bytes : Text) (cfg : DeployConfig) (s : S)
      → is_http cfg.push_url ≡ true
      → IsUnsent s (deps.push filename bytes cfg.push_url s)
  unfolding wired
  push-IsUnsent filename bytes cfg s h =
      (composite-IsUnsent machine.web machine.disk filename bytes cfg.push_url s h).0

  http-ne-nil : (url : Text) → is_http url ≡ true → (url == []) ≡ false
  http-ne-nil [] h = cc
  http-ne-nil (c ∷ url) h = refl

  push_export-IsUnsent :
      (e : SignedExport F) (cfg : DeployConfig) (t : S)
      → deps.load_config t ≡ ok cfg
      → is_http cfg.push_url ≡ true
      → IsUnsent t (push_export io deps e t)
  unfolding push_export
  push_export-IsUnsent e cfg t loaded http = elim (Result-cases (io.marshal_export e)) [
    | inl (m, p) ↦ rw p (tt, refl)
    | inr (bytes, p) ↦
        rw (p, loaded, http-ne-nil cfg.push_url http)
          (push-IsUnsent (export_filename deps.username e.generated_at) bytes cfg t http)
  ]

  same_config : (t : S) → deps.load_config t ≡ load_config machine.disk machine.settings t
  unfolding wired
  same_config t = refl

  no_agent :
      (prompt : Text) (s : S)
      → ask_agent io deps prompt (detect_agent io.in_path deps.agents) s
        ≡ (failed (codes "no supported LLM agent found on PATH (claude, gemini, codex)"), s)
  unfolding wired ask_agent detect_agent
  no_agent prompt s = refl

  -- With the dependencies that the command line wires, a push for settings whose URL starts with http
  -- fails or panics once the payload is prepared, and changes nothing from then on.
  pub push_command-wired :
      (window : QueryWindow) (payload : ExportPayload F) (cfg : DeployConfig) (s t : S)
      → prepare io (wired io machine identity username) window s ≡ (returned payload, t)
      → load_config machine.disk machine.settings t ≡ ok cfg
      → is_http cfg.push_url ≡ true
      → IsUnsent t (push_command io (wired io machine identity username) window s)
  unfolding push_command
  push_command-wired window payload cfg s t prepared loaded http =
      rw prepared
        (elim (Option-cases
          (build io.crypto io.encode_payload io.now_text deps.identity deps.username payload)) [
            | inl p ↦ rw p (tt, refl)
            | inr (err m, p) ↦ rw p (tt, refl)
            | inr (ok e, p) ↦ rw p (push_export-IsUnsent e cfg t (same_config t ∙ loaded) http)
          ])

  -- analyze --llm without --json always fails, with the dependencies that the command line wires: they name
  -- no agent, whatever is installed and whatever --agent says. It changes nothing.
  pub analyze-wired :
      (q : AnalyzeQuery) (s : S)
      → q.llm ≡ true
      → q.json ≡ false
      → (m : Text) × (analyze io (wired io machine identity username) q s ≡ (failed m, s))
  unfolding analyze send_payload
  analyze-wired q s llm plain = elim (Result-cases (deps.load_events (query_filter q.window) s)) [
    | inl (m, p) ↦ (m, rw p refl)
    | inr (evs, p) ↦ (
      codes "no supported LLM agent found on PATH (claude, gemini, codex)",
      rw p (rw llm (rw plain (no_agent _ s))),
    )
  ]
