-- ===== src/Command/Sent.antt =====
-- What a push that returns has sent.
use mathlib.Core.Path.{subst}
use codeburn_watcher.Prelude.{
  if◌then◌else◌, ℕ, ◌≡◌, ◌≢◌, sym, ap, ◌∙◌, false, Option, none, some, [], ◌∷◌, Text, codes,
  text_eq, ◌==◌, ◌⊎◌, inl, inr, lookup, drop, Bool-cases, nat_eq,
}
use codeburn_watcher.Prelude.Float.{Float64}
use codeburn_watcher.Prelude.Results.{Result, ok, err, Result-cases}
use codeburn_watcher.Prelude.Runs.{
  ◌>>=◌, fail, Run, Ended, returned, failed, wrap, reads, ended, prefixed, after-eq-returned,
  ended_or_panic,
}
use codeburn_watcher.Analytics.Metrics.{QueryWindow}
use codeburn_watcher.Trust.{IsCrypto, Keyring, canonicalize, new_signing_identity, sign}
use codeburn_watcher.Team.Export.{ExportPayload, SignedExport}
use codeburn_watcher.Team.Builder.{build, export_filename}
use codeburn_watcher.Team.Builder.Verified.{IsVerified, build-IsVerified}
use codeburn_watcher.Command.Deps.{AppDeps, Process}
use codeburn_watcher.Command.Report.{prepare, build_export, push_export, push_command}
use codeburn_watcher.Deploy.Settings.{DeployConfig}

-- A result that a wrapped call without effects returned.
lifted :
    {S A : Type 0} (p : Text) (r : Result Text A) {a : A} {s t : S}
    → ◌≡◌ {A = Ended A × S} (prefixed p (ended r), s) (returned a, t)
    → (r ≡ ok a) × (s ≡ t)
lifted p (ok a) h = (cc (ap (λ x. x.0) h), ap (λ x. x.1) h)
lifted p (err e) h = cc

built_lem :
    {S A : Type 0} (p : Text) (o : Option (Result Text A)) {a : A} {s t : S}
    → ◌≡◌ {A = Ended A × S} (prefixed p (ended_or_panic o), s) (returned a, t)
    → (o ≡ some (ok a)) × (s ≡ t)
built_lem p none h = cc (ap (λ x. x.0) h)
built_lem p (some r) h = let (same, kept) = lifted p r h in (ap (λ r. some r) same, kept)

not_failed :
    {S A : Type 0} {m : Text} {a : A} {s t : S}
    → ◌≢◌ {A = Ended A × S} (failed m, s) (returned a, t)
not_failed h = cc (ap (λ x. x.0) h)

ok≢err :
    {A : Type 0} {a : A} {m : Text} → ◌≢◌ {A = Option (Result Text A)} (some (ok a)) (some (err m))
ok≢err h = cc

ok_inj :
    {A : Type 0} {a b : A} → ◌≡◌ {A = Option (Result Text A)} (some (ok a)) (some (ok b)) → a ≡ b
ok_inj h = cc

module _ {S F : Type 0} ⦃d : Float64 F⦄ (io : Process S F) (deps : AppDeps S F) where
  -- The parts of a push that returned, from its payload to the state `u`.
  pub record IsDelivered (payload : ExportPayload F) (s u : S) : Type 0 where
    pub export : SignedExport F
    pub bytes : Text
    pub config : DeployConfig
    pub built_eq :
        build io.crypto io.encode_payload io.now_text deps.identity deps.username payload
        ≡ some (ok export)
    pub bytes_eq : io.marshal_export export ≡ ok bytes
    pub config_eq : deps.load_config s ≡ ok config
    pub url_eq : (config.push_url == []) ≡ false
    pub sent_eq :
        deps.push (export_filename deps.username export.generated_at) bytes config.push_url s
        ≡ (returned tt, u)

  -- The last step of PushHandler.
  abbrev send : SignedExport F → Text → DeployConfig → Run S (Unit {0})
  send e bytes cfg =
      if cfg.push_url == []
      then fail (codes "push_url not configured — run 'token-monitor init --team <url>' first")
      else deps.push (export_filename deps.username e.generated_at) bytes cfg.push_url

  send_lem :
      (e : SignedExport F) (bytes : Text) (cfg : DeployConfig) (s u : S)
      → send e bytes cfg s ≡ (returned tt, u)
      → ((cfg.push_url == []) ≡ false)
        × (deps.push (export_filename deps.username e.generated_at) bytes cfg.push_url s
            ≡ (returned tt, u))
  send_lem e bytes cfg s u h = elim (Bool-cases (cfg.push_url == [])) [
    | inl p ↦ absurd (not_failed (rw p at h))
    | inr p ↦ (p, rw p at h)
  ]

  deliver :
      (payload : ExportPayload F) (s u : S)
      → (build_export io deps payload >>= push_export io deps) s ≡ (returned tt, u)
      → IsDelivered payload s u
  unfolding push_export
  deliver payload s u h =
      let built =
        build io.crypto io.encode_payload io.now_text deps.identity deps.username payload in
      let (e, s1, e1, h1) =
        after-eq-returned (push_export io deps) (build_export io deps payload s) h in
      let (built_eq, same1) = built_lem (codes "build export: ") built e1 in
      let load = wrap (codes "load deploy config: ") (reads deps.load_config) in
      let (bytes, s2, e2, h2) =
        after-eq-returned (λ b. load >>= send e b)
          (prefixed (codes "marshal export: ") (ended (io.marshal_export e)), s1) h1 in
      let (bytes_eq, same2) = lifted (codes "marshal export: ") (io.marshal_export e) e2 in
      let (cfg, s3, e3, h3) = after-eq-returned (send e bytes) (load s2) h2 in
      let (config_eq, same3) = lifted (codes "load deploy config: ") (deps.load_config s2) e3 in
      let (url_eq, sent_eq) = send_lem e bytes cfg s3 u h3 in
      let back : s2 ≡ s = sym (same1 ∙ same2) in
      record {
        export = e;
        bytes = bytes;
        config = cfg;
        built_eq = built_eq;
        bytes_eq = bytes_eq;
        config_eq = ap deps.load_config (sym back) ∙ config_eq;
        url_eq = url_eq;
        sent_eq =
            ap (deps.push (export_filename deps.username e.generated_at) bytes cfg.push_url)
              (sym back ∙ same3)
            ∙ sent_eq;
      }

  push_command-IsDelivered :
      (window : QueryWindow) (s u : S)
      → push_command io deps window s ≡ (returned tt, u)
      → (payload : ExportPayload F) × (t : S) × (prepare io deps window s ≡ (returned payload, t))
        × IsDelivered payload t u
  unfolding push_command
  push_command-IsDelivered window s u h =
      let (payload, t, e, rest) =
        after-eq-returned (λ p. build_export io deps p >>= push_export io deps)
          (prepare io deps window s) h in
      (payload, t, e, deliver payload t u rest)

  -- A payload that Build signed has a canonical form that is not empty.
  canonical_of :
      (payload : ExportPayload F) (canon : Text) {e : SignedExport F}
      → canonicalize io.encode_payload payload ≡ ok canon
      → build io.crypto io.encode_payload io.now_text deps.identity deps.username payload
        ≡ some (ok e)
      → (x : ℕ) × (xs : Text) × (canonicalize io.encode_payload payload ≡ ok (x ∷ xs))
  unfolding build sign
  canonical_of payload [] p h = absurd (ok≢err (sym (rw (p, build) at h)))
  canonical_of payload (x ∷ xs) p h = (x, xs, p)

  canonical :
      (payload : ExportPayload F) {e : SignedExport F}
      → build io.crypto io.encode_payload io.now_text deps.identity deps.username payload
        ≡ some (ok e)
      → (x : ℕ) × (xs : Text) × (canonicalize io.encode_payload payload ≡ ok (x ∷ xs))
  unfolding build
  canonical payload h = elim (Result-cases (canonicalize io.encode_payload payload)) [
    | inl (m, p) ↦ absurd (ok≢err (sym (rw (p, build) at h)))
    | inr (canon, p) ↦ canonical_of payload canon p h
  ]

  -- A push that returned has sent an export of the payload for the window to the URL of the settings, which
  -- is not empty, under the name of the user and the time; and if the identity is one of a private key
  -- and its public key, that export verifies under the public key with every keyring that holds
  -- no fingerprint for the user or that of the identity.
  pub push_command-IsSent :
      (laws : IsCrypto io.crypto) (window : QueryWindow) (private_key : Text) (keyring : Keyring)
      (s u : S)
      → new_signing_identity io.crypto private_key (drop 32 private_key) ≡ ok deps.identity
      → (lookup deps.username keyring ≡ none)
        ⊎ (lookup deps.username keyring ≡ some (deps.identity).fingerprint)
      → push_command io deps window s ≡ (returned tt, u)
      → (payload : ExportPayload F) × (t : S) × (prepare io deps window s ≡ (returned payload, t))
        × (sent : IsDelivered payload t u) × IsVerified io.crypto io.encode_payload deps.identity
            payload keyring sent.export
  push_command-IsSent laws window private_key keyring s u made enrolled h =
      let (payload, t, prepared, sent) = push_command-IsDelivered window s u h in
      let (x, xs, canon) = canonical payload sent.built_eq in
      let (e, built, verified) =
        build-IsVerified io.crypto io.encode_payload laws io.now_text private_key deps.username
          payload keyring made canon enrolled in
      let same : e ≡ sent.export = ok_inj (sym built ∙ sent.built_eq) in
      (
        payload,
        t,
        prepared,
        sent,
        subst (IsVerified io.crypto io.encode_payload deps.identity payload keyring) same verified,
      )
