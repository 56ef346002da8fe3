-- ===== src/Scheduler/Cron.antt =====
-- infrastructure/scheduler/cron.go: the entry in the user's crontab.
use codeburn_watcher.Prelude.{
  ◌≡◌, Bool, not, [], ◌++◌, Text, codes, contains, join, split_at, select, trim_right,
  if◌then◌else◌,
}
use codeburn_watcher.Prelude.Results.{Result, ok, err}
use codeburn_watcher.Prelude.Actions.{Action}

abbrev pub cron_marker : Text
cron_marker = codes "# TOKEN_MONITOR"

-- The command: `list` is crontab -l, an error without its output; `set` is crontab - with its error
-- and its output.
pub record Failure : Type 0 where
  pub cause : Text
  pub output : Text

pub record Crontab (S : Type 0) : Type 0 where
  pub list : S → Result Text Text
  pub set : Text → S → Result Failure (Unit {0}) × S

-- A crontab that was set is listed as it was written.
pub record IsCrontab {S : Type 0} (c : Crontab S) : Type 0 where
  pub list-set : (t : Text) (s s' : S) → c.set t s ≡ (ok tt, s') → c.list s' ≡ ok t

abbrev pub cron_entry : Text → Text
cron_entry binary_path =
    codes "*/10 * * * * " ++ (binary_path ++ (codes " collect " ++ cron_marker))

abbrev pub is_entry : Text → Bool
is_entry line = contains cron_marker line

abbrev pub set_answer : Result Failure (Unit {0}) → Result Text (Unit {0})
set_answer (ok u) = ok u
set_answer (err f) = err (codes "crontab -: " ++ (f.cause ++ (codes ": " ++ f.output)))

-- existing, err := currentCrontab(); if err != nil { existing = "" }
abbrev pub or_empty : Result Text Text → Text
or_empty (ok t) = t
or_empty (err m) = []

module _ {S : Type 0} (c : Crontab S) where
  unfoldable pub set_crontab : Text → Action S (Unit {0})
  set_crontab content s = let (r, s') = c.set content s in (set_answer r, s')

  unfoldable pub install : Text → Action S (Unit {0})
  install binary_path s =
      let existing = or_empty (c.list s) in
      if is_entry existing
      then (ok tt, s)
      else set_crontab
          (trim_right 10 existing ++ (codes "\n" ++ (cron_entry binary_path ++ codes "\n"))) s

  unfoldable pub remove : Action S (Unit {0})
  remove s = elim (c.list s) [
    | err m ↦ (ok tt, s)
    | ok existing ↦
        set_crontab
          (join (codes "\n") (select (λ line. not (is_entry line)) (split_at 10 existing))) s
  ]
