-- ===== src/Command/Setup.antt =====
-- application/init.go, schedule.go and fingerprint.go: the identity and the schedule of a machine.
use codeburn_watcher.Prelude.{
  Bool, true, false, none, [], ◌++◌, Text, codes, text_eq, ◌==◌, if◌then◌else◌,
}
use codeburn_watcher.Prelude.Results.{Result, ok, err}
use codeburn_watcher.Prelude.Actions.{Action}
use codeburn_watcher.Prelude.Runs.{Run, returned, pure, lift, reads, run, wrap, ◌>>=◌, ◌>>◌}
use codeburn_watcher.Team.Config.{parse}
use codeburn_watcher.Trust.{fingerprint_from_public_key}
use codeburn_watcher.Command.Output.{print_text}
use codeburn_watcher.Command.Deps.{AppDeps, Process}

-- A path that could not be found is the empty one.
abbrev pub or_blank : Result Text Text → Text
or_blank (ok t) = t
or_blank (err e) = []

-- The advice that follows the error of LoadKeypair.
abbrev pub advised : {A : Type 0} → Result Text A → Result Text A
advised (ok a) = ok a
advised (err e) = err (e ++ codes " — run 'token-monitor init' first")

module _ {S F : Type 0} (io : Process S F) (deps : AppDeps S F) where
  -- A call whose error is only printed.
  abbrev pub warned : {A : Type 0} → Text → Action S A → Run S (Unit {0})
  warned label m s =
      let (r, t) = m s in
      elim r [
        | ok a ↦ (returned tt, t)
        | err e ↦ (returned tt, io.stderr (codes "warning: " ++ (label ++ (e ++ codes "\n"))) t)
      ]

  unfoldable pub fetch_team_config : Text → Run S (Unit {0})
  fetch_team_config url = do
    raw ← wrap (codes "fetch team config: ") (deps.fetch_config url)
    cfg ← wrap (codes "parse team config: ") (lift (parse raw))
    wrap (codes "save deploy config: ") (run (deps.save_config cfg))

  unfoldable pub init : Text → Run S (Unit {0})
  init team_config_url = do
    home ← lift io.home
    (if team_config_url == [] then pure tt else fetch_team_config team_config_url)
    pair ←
        wrap (codes "ensure keypair: ")
          (run (deps.ensure_keypair (io.join_path home (codes ".token-monitor"))))
    fp ← lift (fingerprint_from_public_key io.crypto (pair.1))
    print_text io (
        codes "Identity ready. Share this fingerprint with your team lead:\n  "
        ++ (fp ++ codes "\n\n"))
    warned (codes "initial collect failed: ") (deps.collect none)
    warned (codes "scheduler install failed: ") (deps.install (or_blank io.executable))
    print_text io (codes "Initialization complete.\n")

  unfoldable pub schedule : Bool → Run S (Unit {0})
  schedule true = do
    wrap (codes "remove schedule: ") (run deps.remove)
    print_text io (codes "Schedule removed.\n")
  schedule false = do
    binary_path ← wrap (codes "resolve binary path: ") (lift io.executable)
    wrap (codes "load deploy config: ") (reads deps.load_config)
    wrap (codes "install schedule: ") (run (deps.install binary_path))
    print_text io (codes "Schedule installed.\n")

  unfoldable pub fingerprint : Run S (Unit {0})
  fingerprint = do
    home ← lift io.home
    let key_dir = io.join_path home (codes ".token-monitor")
    pair ←
        wrap (codes "load keypair from " ++ (key_dir ++ codes ": "))
          (reads (λ s. advised (deps.load_keypair key_dir s)))
    fp ← wrap (codes "derive fingerprint: ") (lift (fingerprint_from_public_key io.crypto (pair.1)))
    print_text io (codes "Fingerprint: " ++ (fp ++ codes "\n"))
