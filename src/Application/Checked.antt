-- ===== src/Application/Checked.antt =====
-- The outcome of the merge command with and without the check.
use codeburn_watcher.Prelude.{◌≡◌, ◌≢◌, refl, true, false, List, [], ◌∷◌, ◌++◌, arith, Text, codes}
use codeburn_watcher.Prelude.Results.{Result, ok, err, >>=-eq-ok}
use codeburn_watcher.Prelude.Float.{Float64}
use codeburn_watcher.Trust.{Crypto, Keyring, canonicalize, verify}
use codeburn_watcher.Trust.Checks.{refused}
use codeburn_watcher.Team.Builder.{wrap}
use codeburn_watcher.Team.Export.{ExportPayload, SignedExport}
use codeburn_watcher.Application.{verify_export, verify_exports, merge}

failure : (m : Result Text (Unit {0})) → ((u : Unit {0}) → m ≢ ok u) → (msg : Text) × (m ≡ err msg)
failure (ok u) h = absurd (h u refl)
failure (err e) h = (e, refl)

module _ {F : Type 0} ⦃d : Float64 F⦄ (c : Crypto)
    (encode : ExportPayload F → Result Text Text) where
  no_key : (payload sig : Text) → verify c payload sig [] ≡ false
  unfolding verify
  no_key payload sig = ground arith

  verify_export-fails :
      (keyring : Keyring) (e : SignedExport F)
      → (msg : Text) × (verify_export c encode keyring e ≡ err msg)
  unfolding verify_export
  verify_export-fails keyring e = failure (verify_export c encode keyring e) (λ u h.
      let (canon, p, rest) =
        >>=-eq-ok
          (wrap (codes "canonicalize " ++ (e.username ++ codes " export: "))
            (canonicalize encode e.payload))
          _ h in
      let (sig, q, rest') =
        >>=-eq-ok
          (wrap (codes "decode signature for " ++ (e.username ++ codes ": "))
            (c.base64_decode e.signature))
          _ rest in
      let invalid = refused c canon sig [] keyring e.username (no_key canon sig) in
      ground (arith, rest', invalid))

  -- With --verify the merge command fails on every list of exports but the empty one, whatever their
  -- signatures, keys and keyring: it checks the signatures under no key.
  pub merge-verify :
      (keyring : Keyring) (e : SignedExport F) (es : List (SignedExport F))
      → (msg : Text) × (merge c encode true keyring (e ∷ es) ≡ err msg)
  unfolding merge verify_exports
  merge-verify keyring e es =
      let (msg, failed) = verify_export-fails keyring e in (msg, rw failed refl)
