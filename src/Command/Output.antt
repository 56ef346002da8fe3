-- ===== src/Command/Output.antt =====
-- application/util.go: output to a file, or to the standard output where the path is empty.
use codeburn_watcher.Prelude.{
  Option, none, some, [], ◌++◌, Text, codes, text_eq, ◌==◌, if◌then◌else◌,
}
use codeburn_watcher.Prelude.Results.{Result}
use codeburn_watcher.Prelude.Runs.{returned, Run, panic, lift, run, wrap, ◌>>=◌}
use codeburn_watcher.Command.Deps.{Process}

module _ {S F : Type 0} (io : Process S F) where
  unfoldable pub write_bytes : Text → Text → Run S (Unit {0})
  write_bytes bytes path =
      if path == [] then run (io.stdout bytes) else run (io.write_file path bytes)

  -- fmt.Print, whose error is ignored.
  abbrev pub print_text : Text → Run S (Unit {0})
  print_text text s = (returned tt, (io.stdout text s).1)

  abbrev pub write_text : Text → Text → Run S (Unit {0})
  write_text text path = write_bytes text path

  -- `encoded` is the value as json.MarshalIndent writes it.
  unfoldable pub write_json : Result Text Text → Text → Run S (Unit {0})
  write_json encoded path = do
    bytes ← wrap (codes "marshal JSON: ") (lift encoded)
    write_bytes (bytes ++ codes "\n") path

  -- A text that a renderer may panic over.
  abbrev pub rendered : Option Text → Run S Text
  rendered none = panic
  rendered (some t) = lift (Result.ok t)
