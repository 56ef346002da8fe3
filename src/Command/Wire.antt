-- ===== src/Command/Wire.antt =====
-- cmd/token-monitor: the wiring of wire.go, and the collect command of main.go.
use codeburn_watcher.Prelude.{ℕ, none, List, [], ◌++◌, Text, codes, sum_by}
use codeburn_watcher.Prelude.Int.{pos}
use codeburn_watcher.Prelude.Float.{Float64}
use codeburn_watcher.Prelude.Results.{Result, ok, err}
use codeburn_watcher.Prelude.Actions.{Action}
use codeburn_watcher.Prelude.Runs.{Run, Ended, lift, run, wrap, ◌>>=◌, ◌>>◌}
use codeburn_watcher.Analytics.Price.{new_pricing_service}
use codeburn_watcher.Store.{Engine, load_events}
use codeburn_watcher.Insights.FollowThrough.Store.{Calls, load_records, upsert_records}
use codeburn_watcher.Application.Collect.{Report, handle}
use codeburn_watcher.Trust.{Crypto, SigningIdentity, new_signing_identity}
use codeburn_watcher.Disk.{Disk}
use codeburn_watcher.Deploy.Transport.{
  Web, HttpExportTransport, composite_push, composite_fetch_config,
}
use codeburn_watcher.Deploy.Keystore.{KeyCalls, ensure_keypair, load_keypair, load_keyring}
use codeburn_watcher.Deploy.Settings.{DeployConfig, SettingsCalls, load_config, save_config}
use codeburn_watcher.Scheduler.{System, new_scheduler, install_with, remove_with}
use codeburn_watcher.Scheduler.Cron.{Crontab}
use codeburn_watcher.Scheduler.Launchd.{Launchctl}
use codeburn_watcher.Command.Deps.{AppDeps, Process}
use codeburn_watcher.Command.Output.{print_text}
use codeburn_watcher.Insights.FollowThrough.Store

-- What the program runs on: the SQL engines of its two tables, the disk, the network, the crontab and
-- launchctl, all on one state, and the calls that they need. `reports` is what the adapters return.
pub record Machine (S F : Type 0) : Type 1 where
  pub events : Engine S
  pub records : Store.Engine S F
  pub record_calls : Calls
  pub marshal : List Text → Text
  pub unmarshal : Text → List Text
  pub cutoff : ℕ → Text
  pub reports : S → List Report
  pub disk : Disk S
  pub keys : KeyCalls S
  pub settings : SettingsCalls
  pub web : Web S
  pub crontab : Crontab S
  pub launchctl : Launchctl S
  pub system : System
  pub open_db : Text → Action S (Unit {0})

-- The zero value of SigningIdentity.
abbrev pub no_identity : SigningIdentity
no_identity = record { private_key = []; public_key = []; fingerprint = [] }

abbrev pub identity_of : Crypto → Result Text (Text × Text) → SigningIdentity
identity_of c (err e) = no_identity
identity_of c (ok (private_key, public_key)) =
    elim (new_signing_identity c private_key public_key) [ err e ↦ no_identity | ok id ↦ id ]

abbrev pub username_of : Result Text DeployConfig → Text
username_of (err e) = []
username_of (ok cfg) = cfg.username

-- CompositeExportTransport{}: its HTTP transport has no client.
abbrev pub wired_transport : HttpExportTransport
wired_transport = record { client = none }

module _ {S F : Type 0} ⦃d : Float64 F⦄ (io : Process S F) (machine : Machine S F) where
  -- The ports of the dependencies, for an identity and a user.
  unfoldable pub wired : SigningIdentity → Text → AppDeps S F
  wired identity username =
      let m = machine in
      let scheduler = new_scheduler m.system in
      record {
        load_events = load_events m.events m.unmarshal m.cutoff;
        collect = λ source s.
            let o = handle m.events m.marshal source (m.reports s) s in (o.answer, o.db);
        load_records = load_records m.record_calls m.records;
        upsert_records = λ records s.
            let w = upsert_records m.record_calls m.records io.now_text s records in
            (w.answer, w.db);
        ensure_keypair = ensure_keypair m.disk m.keys;
        load_keypair = load_keypair m.disk m.keys;
        load_keyring = load_keyring m.disk m.keys;
        push = composite_push m.web m.disk wired_transport;
        fetch_config = composite_fetch_config m.web m.disk wired_transport;
        load_config = load_config m.disk m.settings;
        save_config = save_config m.disk m.settings;
        install = install_with m.disk m.launchctl m.crontab scheduler;
        remove = remove_with m.disk m.launchctl m.crontab scheduler;
        pricing = new_pricing_service;
        agents = [];
        identity = identity;
        username = username;
      }

  unfoldable pub build_deps : Run S (AppDeps S F)
  build_deps = do
    home ← lift io.home
    let dir = io.join_path home (codes ".token-monitor")
    run ((machine.disk).mkdir_all dir)
    wrap (codes "open db: ") (run (machine.open_db (io.join_path dir (codes "events.db"))))
    λ s. (
      Ended.returned (
          wired (identity_of io.crypto (load_keypair machine.disk machine.keys dir s))
            (username_of (load_config machine.disk machine.settings s))),
      s,
    )

  -- collectCmd
  unfoldable pub collect_command : Run S (Unit {0})
  collect_command = do
    deps ← build_deps
    results ← run (deps.collect none)
    print_text io (
        codes "Collected "
        ++ ((io.printing).int (pos (sum_by (λ r. r.inserted) results)) ++ codes " new events.\n"))
