-- ===== src/Scheduler/Launchd.antt =====
-- infrastructure/scheduler/launchd.go: the property list of the job on macOS. The template of the source
-- is the text around its two places.
use codeburn_watcher.Prelude.{◌++◌, Text, codes}
use codeburn_watcher.Prelude.Results.{Result, ok}
use codeburn_watcher.Prelude.Actions.{wrap_action, Action, lift, ◌>>=◌, ◌>>◌}
use codeburn_watcher.Disk.{Disk}

abbrev launchd_label : Text
launchd_label = codes "com.token-monitor.collect"

-- launchctl load and unload, and os.UserHomeDir.
pub record Launchctl (S : Type 0) : Type 0 where
  pub load : Text → Action S (Unit {0})
  pub unload : Text → Action S (Unit {0})
  pub home : Result Text Text

-- plistTmpl, executed
unfoldable pub plist : Text → Text → Text
plist label binary_path =
    codes
      "<?xml version=\"1.0\" encoding=\"UTF-8\"?>\n<!DOCTYPE plist PUBLIC \"-//Apple//DTD PLIST 1.0//EN\"\n  \"http://www.apple.com/DTDs/PropertyList-1.0.dtd\">\n<plist version=\"1.0\">\n<dict>\n    <key>Label</key>\n    <string>"
    ++ (label
        ++ (codes "</string>\n    <key>ProgramArguments</key>\n    <array>\n        <string>"
            ++ (binary_path
                ++ codes
                    "</string>\n        <string>collect</string>\n    </array>\n    <key>StartInterval</key>\n    <integer>600</integer>\n    <key>RunAtLoad</key>\n    <true/>\n</dict>\n</plist>\n")))

-- A call whose error is ignored.
abbrev ignored : {S : Type 0} → Action S (Unit {0}) → Action S (Unit {0})
ignored m s = (ok tt, (m s).1)

module _ {S : Type 0} (d : Disk S) (ctl : Launchctl S) where
  abbrev plist_path : Text → Text
  plist_path home =
      d.join_path (d.join_path (d.join_path home (codes "Library")) (codes "LaunchAgents"))
        (launchd_label ++ codes ".plist")

  unfoldable pub launchd_install : Text → Action S (Unit {0})
  launchd_install binary_path = do
    home ← lift ctl.home
    let path = plist_path home
    wrap_action (codes "mkdir launch agents: ") (d.mkdir_all (d.dir_of path))
    wrap_action (codes "create plist: ") (d.create path)
    wrap_action (codes "render plist: ") (d.append path (plist launchd_label binary_path))
    ctl.load path

  unfoldable pub launchd_remove : Action S (Unit {0})
  launchd_remove = do
    home ← lift ctl.home
    ignored (ctl.unload (plist_path home))
    d.remove (plist_path home)
