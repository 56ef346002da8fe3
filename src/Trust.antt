-- ===== src/Trust.antt =====
-- internal/trust: canonical bytes, fingerprints, signing identities and the check of a signature.
pub mod Checks
use codeburn_watcher.Prelude.{
  ◌≡◌, ℕ, ◌+◌, Bool, true, false, not, ◌&&◌, ◌||◌, Option, none, some, List, [], ◌∷◌, ◌++◌, Text,
  codes, text_eq, nat_eq, Assoc, lookup, take, drop, length, if◌then◌else◌, nat_beq, ltb, ◌==◌,
}
use codeburn_watcher.Prelude.Results.{Result, ok, err, ◌>>=◌}
use mathlib.Core.List.{reverse}

-- What the code calls of Go's crypto, encoding and JSON packages. An error is its message.
pub record Crypto : Type 0 where
  pub ed_sign : Text → Text → Text
  pub ed_verify : Text → Text → Text → Bool
  pub marshal_pkix : Text → Result Text Text
  pub pem_block : Text → Text
  pub sha256 : Text → Text
  pub hex : Text → Text
  pub base64_encode : Text → Text
  pub base64_decode : Text → Result Text Text

-- What their documentation promises: an Ed25519 private key of 64 bytes ends in its public key; its
-- signatures have 64 bytes and verify under that public key; base64 decodes what it encodes.
pub record IsCrypto (c : Crypto) : Type 0 where
  pub length-ed_sign : (key m : Text) → length key ≡ 64 → length (c.ed_sign key m) ≡ 64
  pub verify-sign :
      (key m : Text) → length key ≡ 64 → c.ed_verify (drop 32 key) m (c.ed_sign key m) ≡ true
  pub decode-encode : (s : Text) → c.base64_decode (c.base64_encode s) ≡ ok s

-- bytes.TrimRight(b, "\n")
abbrev trim_newlines : Text → Text
trim_newlines [] = []
trim_newlines (c ∷ s) = let rest = trim_newlines s in if c == 10 then rest else c ∷ s

-- `encode` is the JSON encoder, set up without HTML escapes and without an indent.
unfoldable pub canonicalize : {A : Type 0} → (A → Result Text Text) → A → Result Text Text
canonicalize encode v = do buf ← encode v; ok (reverse (trim_newlines (reverse buf)))

pub record SigningIdentity : Type 0 where
  pub private_key : Text
  pub public_key : Text
  pub fingerprint : Text

pub record VerifyResult : Type 0 where
  pub valid : Bool
  pub signer : Text
  pub error : Text

abbrev pub Keyring : Type 0
Keyring = Assoc Text Text

-- A result that names only the failure.
abbrev pub rejected : Text → VerifyResult
rejected e = record { valid = false; signer = []; error = e }

module _ (c : Crypto) where
  unfoldable pub compute_fingerprint : Text → Text
  compute_fingerprint der = take 8 (c.hex (c.sha256 der))

  unfoldable pub fingerprint_from_public_key : Text → Result Text Text
  fingerprint_from_public_key key = do der ← c.marshal_pkix key; ok (compute_fingerprint der)

  unfoldable pub new_signing_identity : Text → Text → Result Text SigningIdentity
  new_signing_identity private_key public_key =
      let identity : Result Text SigningIdentity = fingerprint_from_public_key public_key >>= λ fp.
      ok (record { private_key = private_key; public_key = public_key; fingerprint = fp }) in
      if not (length private_key == 64)
      then err (codes "trust: invalid private key length")
      else if not (length public_key == 32)
      then err (codes "trust: invalid public key length")
      else identity

  unfoldable pub public_key_pem : SigningIdentity → Result Text Text
  public_key_pem id = do der ← c.marshal_pkix id.public_key; ok (c.pem_block der)

  -- `none` is the panic of ed25519.Sign for a private key that has not 64 bytes.
  unfoldable pub sign : SigningIdentity → Text → Option (Result Text Text)
  sign id payload =
      if length payload == 0
      then some (err (codes "trust: cannot sign empty payload"))
      else if not (length id.private_key == 64)
      then none
      else some (ok (c.ed_sign id.private_key payload))

  abbrev pub new_signature_from_base64 : Text → Result Text Text
  new_signature_from_base64 b64 = c.base64_decode b64

  unfoldable pub verify : Text → Text → Text → Bool
  verify payload sig key =
      if not (length sig == 64)
      then false
      else if not (length key == 32)
      then false
      else c.ed_verify key payload sig

  -- The check against the keyring, after the signature and the fingerprint.
  unfoldable pub check_keyring : Text → Keyring → Text → VerifyResult
  check_keyring fp keyring username =
      let accepted : VerifyResult = record { valid = true; signer = fp; error = [] } in
      if ltb 0 (length keyring) && ltb 0 (length username)
      then elim (lookup username keyring) [
        | none ↦ record { valid = true; signer = fp; error = codes "username not in keyring" }
        | some enrolled ↦
            if not (enrolled == fp)
            then rejected (
                codes "fingerprint mismatch: export claims "
                ++ (fp ++ (codes " but keyring has " ++ enrolled)))
            else accepted
      ]
      else accepted

  unfoldable pub verify_with_keyring : Text → Text → Text → Keyring → Text → VerifyResult
  verify_with_keyring payload sig key keyring username =
      let checked : VerifyResult = elim (fingerprint_from_public_key key) [
        | err e ↦ rejected (codes "failed to derive fingerprint: " ++ e)
        | ok fp ↦ check_keyring fp keyring username
      ] in
      if not (verify payload sig key)
      then rejected (codes "signature verification failed")
      else checked
