-- ===== src/Scheduler.antt =====
-- infrastructure/scheduler: the schedulers of scheduler.go, and the choice by the system.
pub mod Cron
pub mod Launchd
pub mod Installed
use codeburn_watcher.Prelude.{Text}
use codeburn_watcher.Prelude.Actions.{Action, pure}
use codeburn_watcher.Scheduler.Cron.{Crontab, install, remove}
use codeburn_watcher.Scheduler.Launchd.{Launchctl, launchd_install, launchd_remove}
use codeburn_watcher.Disk.{Disk}

-- runtime.GOOS
pub data System : Type 0 where
  darwin linux other_system : System

pub data SchedulerKind : Type 0 where
  launchd cron unsupported : SchedulerKind

unfoldable pub new_scheduler : System → SchedulerKind
new_scheduler darwin = launchd
new_scheduler linux = cron
new_scheduler other_system = unsupported

-- The methods of SchedulerPort. The deploy config that Install takes is not read by any of them.
module _ {S : Type 0} (d : Disk S) (ctl : Launchctl S) (tab : Crontab S) where
  unfoldable pub install_with : SchedulerKind → Text → Action S (Unit {0})
  install_with launchd binary_path = launchd_install d ctl binary_path
  install_with cron binary_path = install tab binary_path
  install_with unsupported binary_path = pure tt

  unfoldable pub remove_with : SchedulerKind → Action S (Unit {0})
  remove_with launchd = launchd_remove d ctl
  remove_with cron = remove tab
  remove_with unsupported = pure tt
