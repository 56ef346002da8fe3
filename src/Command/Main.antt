-- ===== src/Command/Main.antt =====
-- cmd/token-monitor/main.go: the commands but for collect. cobra parses the flags; `none` is a flag that the
-- command line does not give.
use codeburn_watcher.Prelude.{
  ℕ, Bool, false, Option, none, some, List, [], Text, codes, text_eq, ◌==◌, if◌then◌else◌,
}
use codeburn_watcher.Prelude.Float.{Float64}
use codeburn_watcher.Prelude.Runs.{Run, Ended, fail, ◌>>=◌}
use codeburn_watcher.Analytics.Metrics.{QueryWindow}
use codeburn_watcher.Command.Deps.{Process}
use codeburn_watcher.Command.Report.{report, push_command, html}
use codeburn_watcher.Command.Analyze.{analyze}
use codeburn_watcher.Command.Merge.{merge_command}
use codeburn_watcher.Command.Reconcile.{UsageApis, reconcile}
use codeburn_watcher.Command.Setup.{init, schedule, fingerprint}
use codeburn_watcher.Command.Wire.{Machine, build_deps}

-- The value of a flag with a default.
abbrev pub flag_or : {A : Type 0} → A → Option A → A
flag_or x none = x
flag_or x (some y) = y

-- The window of the flag --days.
abbrev pub look_back : Option ℕ → QueryWindow
look_back days = record { days = flag_or 7 days; project_filter = []; source_filter = [] }

module _ {S F : Type 0} ⦃d : Float64 F⦄ (io : Process S F) (machine : Machine S F) where
  unfoldable pub report_cmd : Option ℕ → Option Bool → Option Text → Run S (Unit {0})
  report_cmd days as_json out_file = do
    deps ← build_deps io machine
    report io deps (look_back days) (flag_or false as_json) (flag_or [] out_file)

  unfoldable pub analyze_cmd : Option ℕ → Option Bool → Option Text → Option Bool → Run S (Unit {0})
  analyze_cmd days llm agent as_json = do
    deps ← build_deps io machine
    analyze io deps (record {
      window = look_back days;
      llm = flag_or false llm;
      agent = flag_or [] agent;
      json = flag_or false as_json;
    })

  unfoldable pub html_cmd : Option ℕ → Option Text → Option Bool → Run S (Unit {0})
  html_cmd days out_file team_mode = do
    deps ← build_deps io machine
    html io deps (look_back days) (flag_or (codes "report.html") out_file) (flag_or false team_mode)

  -- cobra.MinimumNArgs(1) keeps `files` from being empty.
  unfoldable pub merge_cmd :
      List Text
      → Option Bool
      → Option Text
      → Option Bool
      → Option Text
      → Option ℕ
      → Run S (Unit {0})
  merge_cmd files verify keys_file as_html out_file days = do
    deps ← build_deps io machine
    merge_command io deps (record {
      files = files;
      verified = flag_or false verify;
      keys_file = flag_or [] keys_file;
      html = flag_or false as_html;
      out_file = flag_or [] out_file;
      days = flag_or 7 days;
    })

  unfoldable pub push_cmd : Option ℕ → Run S (Unit {0})
  push_cmd days = do deps ← build_deps io machine; push_command io deps (look_back days)

  unfoldable pub init_cmd : Option Text → Run S (Unit {0})
  init_cmd team_url = do deps ← build_deps io machine; init io deps (flag_or [] team_url)

  unfoldable pub schedule_cmd : Option Bool → Run S (Unit {0})
  schedule_cmd removed = do deps ← build_deps io machine; schedule io deps (flag_or false removed)

  -- The last argument is the fuel of the loop over the pages.
  unfoldable pub reconcile_cmd : UsageApis → Option Text → Option ℕ → ℕ → Run S (Unit {0})
  reconcile_cmd apis provider days fuel =
      if flag_or [] provider == []
      then fail (codes "--provider is required (anthropic|openai)")
      else (build_deps io machine >>= λ deps.
          reconcile io deps apis (record { provider = flag_or [] provider; days = flag_or 7 days })
            fuel)

  unfoldable pub fingerprint_cmd : Run S (Unit {0})
  fingerprint_cmd = do deps ← build_deps io machine; fingerprint io deps

-- main: an error of a command, which cobra has reported, ends the process with 1.
unfoldable pub main_run : {S : Type 0} → (Text → S → S) → Run S (Unit {0}) → Run S (Unit {0})
main_run reported command s =
    let (r, t) = command s in
    elim r [
      | Ended.failed m ↦ (Ended.exited 1, reported m t)
      | Ended.returned u ↦ (Ended.returned u, t)
      | Ended.panicked ↦ (Ended.panicked, t)
      | Ended.exited n ↦ (Ended.exited n, t)
      | Ended.unfinished ↦ (Ended.unfinished, t)
    ]
