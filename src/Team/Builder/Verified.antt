-- ===== src/Team/Builder/Verified.antt =====
-- The exports that a machine builds pass the check of internal/trust.
use codeburn_watcher.Prelude.{
  ℕ, ◌≡◌, ◌≢◌, refl, sym, ap, ◌∙◌, true, none, some, ◌∷◌, arith, Text, codes, text_eq, nat_eq,
  lookup, length, ltb, ◌==◌, ==_refl, drop, Bool-cases, inl, inr, ◌⊎◌, ◌&&◌,
}
use codeburn_watcher.Prelude.Results.{Result, ok, err, >>=-eq-ok}
use codeburn_watcher.Trust.{
  Crypto, IsCrypto, SigningIdentity, Keyring, canonicalize, fingerprint_from_public_key,
  new_signing_identity, sign, verify, check_keyring, verify_with_keyring, new_signature_from_base64,
  public_key_pem,
}
use codeburn_watcher.Trust.Checks.{named}
use codeburn_watcher.Team.Export.{ExportPayload, SignedExport}
use codeburn_watcher.Team.Builder.{build}

ok≢err : {A : Type 0} {a : A} {e : Text} → ok a ≢ err e
ok≢err = λ h. cc

ok_inj : {A : Type 0} {a b : A} → ◌≡◌ {A = Result Text A} (ok a) (ok b) → a ≡ b
ok_inj h = cc

module _ {F : Type 0} (c : Crypto) (encode : ExportPayload F → Result Text Text) where
  -- The bytes and the signature that a check of the export decodes, and its outcome.
  pub record IsVerified (id : SigningIdentity) (payload : ExportPayload F) (keyring : Keyring)
      (e : SignedExport F) : Type 0 where
    pub canon : Text
    pub sig : Text
    pub canon_eq : canonicalize encode e.payload ≡ ok canon
    pub sig_eq : new_signature_from_base64 c e.signature ≡ ok sig
    pub payload_eq : e.payload ≡ payload
    pub valid_eq : (verify_with_keyring c canon sig id.public_key keyring e.username).valid ≡ true
    pub signer_eq :
        (verify_with_keyring c canon sig id.public_key keyring e.username).signer ≡ id.fingerprint

  identity_lem :
      (private_key public_key : Text) (id : SigningIdentity)
      → new_signing_identity c private_key public_key ≡ ok id
      → (length private_key ≡ 64)
        × (length public_key ≡ 32)
        × (id.private_key ≡ private_key)
        × (id.public_key ≡ public_key)
        × (fingerprint_from_public_key c public_key ≡ ok id.fingerprint)
  unfolding new_signing_identity
  identity_lem private_key public_key id h = elim (Bool-cases (length private_key == 64)) [
    | inr p ↦ absurd (ok≢err {e = codes "trust: invalid private key length"} (sym h ∙ rw p refl))
    | inl p ↦ elim (Bool-cases (length public_key == 32)) [
      | inr q ↦
          absurd (ok≢err {e = codes "trust: invalid public key length"} (sym h ∙ rw (p, q) refl))
      | inl q ↦
          let (fp, found, made) =
            >>=-eq-ok (fingerprint_from_public_key c public_key) _ (rw (p, q) at h) in
          (
            (nat_eq.beq_iff (length private_key) 64).0 p,
            (nat_eq.beq_iff (length public_key) 32).0 q,
            ap (λ (i : SigningIdentity). i.private_key) (sym (ok_inj made)),
            ap (λ (i : SigningIdentity). i.public_key) (sym (ok_inj made)),
            found ∙ ap (λ (i : SigningIdentity). ok i.fingerprint) (ok_inj made),
          )
    ]
  ]

  signed_lem :
      (id : SigningIdentity) (x : ℕ) (xs : Text)
      → length id.private_key ≡ 64
      → sign c id (x ∷ xs) ≡ some (ok (c.ed_sign id.private_key (x ∷ xs)))
  unfolding sign
  signed_lem id x xs h = ground (arith, nat_eq.beq_iff (length id.private_key) 64)

  marshal_lem :
      (key fp : Text)
      → fingerprint_from_public_key c key ≡ ok fp
      → (der : Text) × (c.marshal_pkix key ≡ ok der)
  unfolding fingerprint_from_public_key
  marshal_lem key fp h = let (der, e, rest) = >>=-eq-ok (c.marshal_pkix key) _ h in (der, e)

  pem_lem :
      (id : SigningIdentity) (der : Text)
      → c.marshal_pkix id.public_key ≡ ok der
      → public_key_pem c id ≡ ok (c.pem_block der)
  unfolding public_key_pem
  pem_lem id der h = rw h refl

  verify_lem :
      (laws : IsCrypto c) (private_key : Text) (id : SigningIdentity) (canon : Text)
      → length private_key ≡ 64
      → length (drop 32 private_key) ≡ 32
      → id.private_key ≡ private_key
      → id.public_key ≡ drop 32 private_key
      → verify c canon (c.ed_sign id.private_key canon) id.public_key ≡ true
  unfolding verify
  verify_lem laws private_key id canon long short private_eq public_eq =
      rw (private_eq, public_eq)
        (ground (
          arith,
          laws.length-ed_sign private_key canon long,
          laws.verify-sign private_key canon long,
        ))

  enrolled_lem :
      (fp : Text) (keyring : Keyring) (username : Text)
      → (lookup username keyring ≡ none) ⊎ (lookup username keyring ≡ some fp)
      → ((check_keyring c fp keyring username).valid ≡ true)
        × ((check_keyring c fp keyring username).signer ≡ fp)
  unfolding check_keyring
  enrolled_lem fp keyring username h =
      elim (Bool-cases (ltb 0 (length keyring) && ltb 0 (length username))) [
        | inr p ↦ rw p (refl, refl)
        | inl p ↦ elim h [
          | inl q ↦ rw (p, q, check_keyring) (refl, refl)
          | inr q ↦ rw (p, q, check_keyring) (rw (==_refl fp) (refl, refl))
        ]
      ]

  -- With an identity made of a private key and its public key, and a payload with a canonical form that is
  -- not empty, Build returns an export that verifies under that public key when the keyring holds no
  -- fingerprint for its user or that of the identity: its payload is the one given, its signature
  -- decodes, the result is valid, and the signer that it names is the fingerprint of the identity.
  pub build-IsVerified :
      (laws : IsCrypto c) (now private_key username : Text) (payload : ExportPayload F)
      (keyring : Keyring) {id : SigningIdentity} {x : ℕ} {xs : Text}
      → new_signing_identity c private_key (drop 32 private_key) ≡ ok id
      → canonicalize encode payload ≡ ok (x ∷ xs)
      → (lookup username keyring ≡ none) ⊎ (lookup username keyring ≡ some id.fingerprint)
      → (e : SignedExport F) × (build c encode now id username payload ≡ some (ok e))
        × IsVerified id payload keyring e
  unfolding build
  build-IsVerified laws now private_key username payload keyring {id} {x} {xs} made canon enrolled =
      let (long, short, private_eq, public_eq, fp) =
        identity_lem private_key (drop 32 private_key) id made in
      let (der, marshalled) = marshal_lem (drop 32 private_key) id.fingerprint fp in
      let sig = c.ed_sign id.private_key (x ∷ xs) in
      let pem = pem_lem id der (rw public_eq marshalled) in
      let checked = verify_lem laws private_key id (x ∷ xs) long short private_eq public_eq in
      let same = named c (x ∷ xs) sig id.public_key keyring username checked (rw public_eq fp) in
      let (valid, signer) = enrolled_lem id.fingerprint keyring username enrolled in
      let e : SignedExport F = record {
        version = 1;
        username = username;
        generated_at = now;
        public_key = c.base64_encode (c.pem_block der);
        signature = c.base64_encode sig;
        payload = payload;
      } in
      (
        e,
        rw (canon, build, signed_lem id x xs (ap length private_eq ∙ long), pem) refl,
        record {
          canon = x ∷ xs;
          sig = sig;
          canon_eq = canon;
          sig_eq = laws.decode-encode sig;
          payload_eq = refl;
          valid_eq = ap (λ r. r.valid) same ∙ valid;
          signer_eq = ap (λ r. r.signer) same ∙ signer;
        },
      )
