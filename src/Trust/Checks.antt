-- ===== src/Trust/Checks.antt =====
-- What an accepted export has passed.
use mathlib.Core.Bool.{true≢false, false≢true}
use codeburn_watcher.Prelude.{
  ◌≡◌, refl, sym, ap, ◌∙◌, true, false, ◌&&◌, some, [], ◌∷◌, arith, Text, text_eq, nat_eq, lookup,
  length, ◌≢◌, ltb, ◌==◌, Bool-cases, Option-cases, inl, inr,
}
use codeburn_watcher.Prelude.Results.{ok, err, Result-cases}
use codeburn_watcher.Trust.{
  Crypto, Keyring, VerifyResult, fingerprint_from_public_key, verify, check_keyring,
  verify_with_keyring,
}

-- Where the keyring is not looked at, no fingerprint is enrolled for a user with a name.
unchecked :
    (keyring : Keyring) (username : Text) {e : Text}
    → (ltb 0 (length keyring) && ltb 0 (length username)) ≡ false
    → username ≢ []
    → lookup username keyring ≢ some e
unfolding lookup
unchecked [] username p n = λ l. cc
unchecked (entry ∷ keyring) [] p n = λ l. n refl
unchecked (entry ∷ keyring) (x ∷ xs) p n = λ l. absurd (ground (arith, p))

module _ (c : Crypto) where
  -- The evidence behind a result that is valid.
  pub record IsAccepted (payload sig key : Text) (keyring : Keyring) (username : Text)
      (r : VerifyResult) : Type 0 where
    pub sig_length : length sig ≡ 64
    pub key_length : length key ≡ 32
    pub verified : c.ed_verify key payload sig ≡ true
    pub signer_eq : fingerprint_from_public_key c key ≡ ok r.signer
    pub enrolled_eq :
        (enrolled : Text)
        → username ≢ []
        → lookup username keyring ≡ some enrolled
        → enrolled ≡ r.signer

  check_keyring_lem :
      (fp : Text) (keyring : Keyring) (username : Text)
      → (check_keyring c fp keyring username).valid ≡ true
      → ((check_keyring c fp keyring username).signer ≡ fp)
        × ((enrolled : Text)
            → username ≢ []
            → lookup username keyring ≡ some enrolled
            → enrolled ≡ fp)
  unfolding check_keyring
  check_keyring_lem fp keyring username h =
      elim (Bool-cases (ltb 0 (length keyring) && ltb 0 (length username))) [
        | inr p ↦ rw p (refl, λ e n l. absurd (unchecked keyring username p n l))
        | inl p ↦ elim (Option-cases (lookup username keyring)) [
          | inl q ↦ rw (p, q, check_keyring) (refl, λ e n l. cc)
          | inr (e', q) ↦ elim (Bool-cases (e' == fp)) [
            | inl r ↦
                rw (p, q, check_keyring)
                  (rw r
                    (refl, λ e n l. let same : e ≡ e' = cc in same ∙ (text_eq.beq_iff e' fp).0 r))
            | inr r ↦ absurd (true≢false (sym h ∙ rw (p, q, check_keyring) (rw r refl)))
          ]
        ]
      ]

  verify_lem :
      (payload sig key : Text)
      → verify c payload sig key ≡ true
      → (length sig ≡ 64) × (length key ≡ 32) × (c.ed_verify key payload sig ≡ true)
  unfolding verify
  verify_lem payload sig key h = ground (arith, h)

  pub refused :
      (payload sig key : Text) (keyring : Keyring) (username : Text)
      → verify c payload sig key ≡ false
      → (verify_with_keyring c payload sig key keyring username).valid ≡ false
  unfolding verify_with_keyring
  refused payload sig key keyring username p = rw p refl

  unnamed :
      (payload sig key : Text) (keyring : Keyring) (username : Text) {e : Text}
      → verify c payload sig key ≡ true
      → fingerprint_from_public_key c key ≡ err e
      → (verify_with_keyring c payload sig key keyring username).valid ≡ false
  unfolding verify_with_keyring
  unnamed payload sig key keyring username p q = rw (p, q, verify_with_keyring) refl

  pub named :
      (payload sig key : Text) (keyring : Keyring) (username : Text) {fp : Text}
      → verify c payload sig key ≡ true
      → fingerprint_from_public_key c key ≡ ok fp
      → verify_with_keyring c payload sig key keyring username ≡ check_keyring c fp keyring username
  unfolding verify_with_keyring
  named payload sig key keyring username p q = rw (p, q, verify_with_keyring) refl

  -- VerifyWithKeyring accepts an export only if the signature has 64 bytes and the key 32, Ed25519
  -- verifies the signature of the payload under the key, the signer that it names is the fingerprint of
  -- the key, and a fingerprint enrolled for the user, whose name is not empty, is that of the signer.
  pub verify_with_keyring-IsAccepted :
      (payload sig key : Text) (keyring : Keyring) (username : Text)
      → (verify_with_keyring c payload sig key keyring username).valid ≡ true
      → IsAccepted payload sig key keyring username
          (verify_with_keyring c payload sig key keyring username)
  verify_with_keyring-IsAccepted payload sig key keyring username h =
      elim (Bool-cases (verify c payload sig key)) [
        | inr p ↦ absurd (false≢true (sym (refused payload sig key keyring username p) ∙ h))
        | inl p ↦ elim (Result-cases (fingerprint_from_public_key c key)) [
          | inl (e, q) ↦
              absurd (false≢true (sym (unnamed payload sig key keyring username p q) ∙ h))
          | inr (fp, q) ↦
              let same = named payload sig key keyring username p q in
              let (signer, enrolled) =
                check_keyring_lem fp keyring username (ap (λ r. r.valid) (sym same) ∙ h) in
              let (sig_ok, key_ok, signed) = verify_lem payload sig key p in
              rw same (record {
                sig_length = sig_ok;
                key_length = key_ok;
                verified = signed;
                signer_eq = q ∙ ap ok (sym signer);
                enrolled_eq = λ e n l. enrolled e n l ∙ sym signer;
              })
        ]
      ]
