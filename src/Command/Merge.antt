-- ===== src/Command/Merge.antt =====
-- application/merge.go: the whole merge command, around the check and the merge of Application.
use codeburn_watcher.Prelude.{
  ℕ, Bool, ◌&&◌, not, List, [], ◌∷◌, ◌++◌, Text, codes, text_eq, nat_eq, ◌==◌, if◌then◌else◌,
}
use codeburn_watcher.Prelude.Float.{Float64}
use codeburn_watcher.Prelude.Results.{Result, ok, err}
use codeburn_watcher.Prelude.Runs.{Run, pure, lift, reads, wrap, ◌>>=◌}
use codeburn_watcher.Disk.{ReadError, message}
use codeburn_watcher.Trust.{Keyring}
use codeburn_watcher.Team.Export.{SignedExport, Rollup}
use codeburn_watcher.Application.{merge}
use codeburn_watcher.Render.Terminal.{render_team_report}
use codeburn_watcher.Render.Html.{render_team_html}
use codeburn_watcher.Command.Deps.{AppDeps, Process}
use codeburn_watcher.Command.Output.{print_text, write_text}

pub record MergeCommand : Type 0 where
  pub files : List Text
  pub verified : Bool
  pub keys_file : Text
  pub html : Bool
  pub out_file : Text
  pub days : ℕ

-- The error of os.ReadFile as its message.
abbrev pub as_text : Result ReadError Text → Result Text Text
as_text (ok t) = ok t
as_text (err e) = err (message e)

module _ {S F : Type 0} ⦃d : Float64 F⦄ (io : Process S F) (deps : AppDeps S F) where
  unfoldable pub load_export_files : List Text → Run S (List (SignedExport F))
  load_export_files [] = pure []
  load_export_files (p ∷ paths) = do
    bytes ← wrap (codes "read " ++ (p ++ codes ": ")) (reads (λ s. as_text (io.read_file p s)))
    e ← wrap (codes "parse " ++ (p ++ codes ": ")) (lift (io.decode_export bytes))
    rest ← load_export_files paths
    pure (e ∷ rest)

  -- The keyring is loaded for a check with a file of keys, and else nil.
  unfoldable pub keyring_of : MergeCommand → Run S Keyring
  keyring_of cmd =
      if cmd.verified && not (cmd.keys_file == [])
      then reads (deps.load_keyring cmd.keys_file)
      else pure []

  unfoldable pub print_rollups : MergeCommand → List (Rollup F) → Run S (Unit {0})
  print_rollups cmd rollups =
      let days = if cmd.days == 0 then 7 else cmd.days in
      let page = write_text io (render_team_html io.printing rollups days) cmd.out_file in
      let output = render_team_report io.printing rollups days in
      if cmd.html
      then page
      else if not (cmd.out_file == [])
      then write_text io output cmd.out_file
      else print_text io output

  unfoldable pub merge_command : MergeCommand → Run S (Unit {0})
  merge_command cmd = do
    exports ← load_export_files cmd.files
    keyring ← keyring_of cmd
    rollups ← lift (merge io.crypto io.encode_payload cmd.verified keyring exports)
    print_rollups cmd rollups
