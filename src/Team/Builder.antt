-- ===== src/Team/Builder.antt =====
-- internal/team/export_builder.go and export_filename.go: a payload is signed into an export.
pub mod Verified
use codeburn_watcher.Prelude.{
  ℕ, Bool, true, false, ◌||◌, Option, none, some, List, [], ◌∷◌, ◌++◌, Text, codes, select, not,
  nat_eq, ◌==◌,
}
use codeburn_watcher.Prelude.Results.{Result, ok, err, ◌>>=◌}
use codeburn_watcher.Trust.{Crypto, SigningIdentity, canonicalize, sign, public_key_pem}
use codeburn_watcher.Team.Export.{ExportPayload, SignedExport}

-- fmt.Errorf with a prefix
abbrev pub wrap : {A : Type 0} → Text → Result Text A → Result Text A
wrap prefix (ok a) = ok a
wrap prefix (err e) = err (prefix ++ e)

-- `encode` is the JSON encoder and `now` the time of the call, in RFC 3339.
module _ {F : Type 0} (c : Crypto) (encode : ExportPayload F → Result Text Text) (now : Text) where
  -- The part of Build after the call of ed25519.Sign.
  abbrev pub signed :
      SigningIdentity → Text → ExportPayload F → Result Text Text → Result Text (SignedExport F)
  signed identity username payload signature = do
    sig ← wrap (codes "sign payload: ") signature
    pem_bytes ← wrap (codes "marshal public key: ") (public_key_pem c identity)
    ok (record {
      version = 1;
      username = username;
      generated_at = now;
      public_key = c.base64_encode pem_bytes;
      signature = c.base64_encode sig;
      payload = payload;
    })

  -- `none` is a panic.
  unfoldable pub build :
      SigningIdentity → Text → ExportPayload F → Option (Result Text (SignedExport F))
  build identity username payload = elim (canonicalize encode payload) [
    | err m ↦ some (err (codes "canonicalize payload: " ++ m))
    | ok canon ↦ elim (sign c identity canon) [
      | none ↦ none
      | some signature ↦ some (signed identity username payload signature)
    ]
  ]

-- ExportFilename: the time without its colons and dots.
abbrev pub export_filename : Text → Text → Text
export_filename username generated_at =
    let safe = select (λ x. not (x == b':' || x == b'.')) generated_at in
    username ++ (codes "-" ++ (safe ++ codes ".json"))
