-- ===== src/Application.antt =====
-- application/merge.go: the check, the dedupe and the rollup of the merge command, from the exports
-- that loadExportFiles reads to the rollups. Command.Merge has the reading and the printing.
pub mod Checked
pub mod Collect
use codeburn_watcher.Prelude.{
  ℕ, Bool, true, false, not, List, [], ◌∷◌, ◌++◌, Text, codes, if◌then◌else◌,
}
use codeburn_watcher.Prelude.Results.{Result, ok, err, ◌>>=◌, ◌>>◌}
use codeburn_watcher.Prelude.Float.{Float64}
use codeburn_watcher.Trust.{
  Crypto, Keyring, canonicalize, new_signature_from_base64, verify_with_keyring,
}
use codeburn_watcher.Team.Builder.{wrap}
use codeburn_watcher.Team.Export.{ExportPayload, SignedExport, Rollup, TeamConfig}
use codeburn_watcher.Team.Merger.{dedupe, rollup}

module _ {F : Type 0} ⦃d : Float64 F⦄ (c : Crypto)
    (encode : ExportPayload F → Result Text Text) where
  -- One round of the loop over the exports. The key that it passes is nil.
  unfoldable pub verify_export : Keyring → SignedExport F → Result Text (Unit {0})
  verify_export keyring e = do
    canon_bytes ←
        wrap (codes "canonicalize " ++ (e.username ++ codes " export: "))
          (canonicalize encode e.payload)
    sig ←
        wrap (codes "decode signature for " ++ (e.username ++ codes ": "))
          (new_signature_from_base64 c e.signature)
    let result = verify_with_keyring c canon_bytes sig [] keyring e.username
    if not result.valid
        then err (codes "export from " ++ (e.username ++ (codes " invalid: " ++ result.error)))
        else ok tt

  unfoldable pub verify_exports : Keyring → List (SignedExport F) → Result Text (Unit {0})
  verify_exports keyring [] = ok tt
  verify_exports keyring (e ∷ es) = verify_export keyring e >> verify_exports keyring es

  -- The config of the merge command has no members.
  abbrev no_config : TeamConfig
  no_config = record { username = []; push_url = []; members = [] }

  unfoldable pub merge : Bool → Keyring → List (SignedExport F) → Result Text (List (Rollup F))
  merge verified keyring exports = do
    (if verified then verify_exports keyring exports else ok tt)
    ok (rollup (dedupe exports) no_config)
