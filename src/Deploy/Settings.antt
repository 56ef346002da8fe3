-- ===== src/Deploy/Settings.antt =====
-- infrastructure/fs/deploy_config.go: the settings file in the home directory.
use codeburn_watcher.Prelude.{[], ◌++◌, Text, codes}
use codeburn_watcher.Prelude.Results.{Result, ok, err}
use codeburn_watcher.Prelude.Actions.{wrapped, wrap_action, Action, lift, ◌>>=◌, ◌>>◌}
use codeburn_watcher.Team.Export.{TeamConfig}
use codeburn_watcher.Disk.{Disk, ReadError, not_exist, unreadable}

-- team.DeployConfig has the fields of TeamConfig.
abbrev pub DeployConfig : Type 0
DeployConfig = TeamConfig

abbrev pub no_deploy_config : DeployConfig
no_deploy_config = record { username = []; push_url = []; members = [] }

abbrev config_file : Text
config_file = codes ".token-monitor/config.json"

-- os.UserHomeDir, and encoding/json on the record.
pub record SettingsCalls : Type 0 where
  pub home : Result Text Text
  pub encode : DeployConfig → Result Text Text
  pub decode : Text → Result Text DeployConfig

module _ {S : Type 0} (d : Disk S) (calls : SettingsCalls) where
  abbrev pub config_path : Text → Text
  config_path home = d.join_path home config_file

  abbrev decoded : Result ReadError Text → Result Text DeployConfig
  decoded (err (not_exist m)) = ok no_deploy_config
  decoded (err (unreadable m)) = err (codes "read config: " ++ m)
  decoded (ok t) = wrapped (codes "parse config: ") (calls.decode t)

  unfoldable pub load_config : S → Result Text DeployConfig
  load_config s = elim (wrapped (codes "home dir: ") calls.home) [
    | err e ↦ err e
    | ok home ↦ decoded (d.read_file (config_path home) s)
  ]

  unfoldable pub save_config : DeployConfig → Action S (Unit {0})
  save_config cfg = do
    home ← lift (wrapped (codes "home dir: ") calls.home)
    wrap_action (codes "mkdir: ") (d.mkdir_all (d.dir_of (config_path home)))
    bytes ← lift (wrapped (codes "marshal config: ") (calls.encode cfg))
    d.write_file (config_path home) bytes
