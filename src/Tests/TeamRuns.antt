-- ===== src/Tests/TeamRuns.antt =====
-- The theorems on internal/team, internal/trust and application/merge.go at a concrete input.
use mathlib.Core.Path.{◌≡◌, refl}
use mathlib.Core.Logic.{inl}
use codeburn_watcher.Prelude.{
  has_key, ℕ, zero, suc, ◌-◌, length-append, none, some, true, List, [], ◌∷◌, ◌++◌, arith, Text,
  codes, length, drop, ◌==◌, text_eq, lookup, ==_refl,
}
use codeburn_watcher.Prelude.Results.{Result, ok, err}
use codeburn_watcher.Prelude.Float.{Micro, micro_float}
use codeburn_watcher.Trust.{
  Crypto, IsCrypto, SigningIdentity, Keyring, new_signing_identity, fingerprint_from_public_key,
  compute_fingerprint, canonicalize, verify, check_keyring, verify_with_keyring,
}
use codeburn_watcher.Trust.Checks.{IsAccepted, verify_with_keyring-IsAccepted}
use codeburn_watcher.Team.Export.{SignedExport, ExportPayload, zero_export, TeamConfig}
use codeburn_watcher.Team.Builder.{build}
use codeburn_watcher.Team.Builder.Verified.{IsVerified, build-IsVerified}
use codeburn_watcher.Team.Config.{parse}
use codeburn_watcher.Team.Config.Print.{print, IsPrintable}
use codeburn_watcher.Team.Config.RoundTrip.{parse-print}
use codeburn_watcher.Team.Merger.{dedupe, rollup}
use codeburn_watcher.Team.Merger.Latest.{AreLatest, dedupe-AreLatest}
use codeburn_watcher.Team.Merger.Rollups.{AreRollups, rollup-AreRollups}
use codeburn_watcher.Application.{merge}
use codeburn_watcher.Application.Checked.{merge-verify}

abbrev export_at : Text → Text → SignedExport Micro
export_at user ts =
    let zero : SignedExport Micro = zero_export in
    record zero { username = user; generated_at = ts }

abbrev exports : List (SignedExport Micro)
exports =
    export_at (codes "ann") (codes "2026-01-02")
    ∷ export_at (codes "bob") (codes "2026-01-01")
    ∷ export_at (codes "ann") (codes "2026-01-03")
    ∷ []

dedupe-AreLatest_example : AreLatest exports (dedupe exports)
dedupe-AreLatest_example = dedupe-AreLatest exports

abbrev config : TeamConfig
config = record {
  username = codes "ann";
  push_url = [];
  members = (codes "web", codes "bob" ∷ []) ∷ (codes "app", codes "cat" ∷ []) ∷ [];
}

rollup-AreRollups_example : AreRollups exports config (rollup exports config)
rollup-AreRollups_example = rollup-AreRollups exports config

-- Signatures that any reader can forge, of the right lengths.
abbrev pub toy : Crypto
toy = record {
  ed_sign = λ key m. drop 32 key ++ drop 32 key;
  ed_verify = λ key m sig. sig == (key ++ key);
  marshal_pkix = λ key. ok key;
  pem_block = λ der. der;
  sha256 = λ s. s;
  hex = λ s. s;
  base64_encode = λ s. s;
  base64_decode = λ s. ok s;
}

length-drop : (n : ℕ) (l : Text) → length (drop n l) ≡ length l - n
length-drop zero l = omega arith
length-drop (suc n) [] = omega arith
length-drop (suc n) (x ∷ l) = omega (arith, length-drop n l)

pub toy-IsCrypto : IsCrypto toy
toy-IsCrypto = record {
  length-ed_sign =
      λ key m h. omega (arith, h, length-drop 32 key, length-append (drop 32 key) (drop 32 key));
  verify-sign = λ key m h. ==_refl (drop 32 key ++ drop 32 key);
  decode-encode = λ s. refl;
}

abbrev pub half : Text
half = codes "0123456789abcdef0123456789abcdef"

abbrev pub private_key : Text
private_key = half ++ half

abbrev pub identity : SigningIdentity
identity = record { private_key = private_key; public_key = half; fingerprint = codes "01234567" }

pub made : new_signing_identity toy private_key (drop 32 private_key) ≡ ok identity
unfolding new_signing_identity fingerprint_from_public_key compute_fingerprint
made = refl

abbrev no_keys : Keyring
no_keys = []

abbrev to_json : ExportPayload Micro → Result Text Text
to_json p = ok (codes "{}\n")

abbrev payload : ExportPayload Micro
payload = (export_at [] []).payload

encoded : canonicalize to_json payload ≡ ok (codes "{}")
unfolding canonicalize
encoded = refl

unlisted : lookup (codes "ann") no_keys ≡ none
unfolding lookup
unlisted = refl

build-IsVerified_example :
    (e : SignedExport Micro) × (build toy to_json
        (codes "2026-01-01")
        identity
        (codes "ann")
        payload
      ≡ some (ok e))
    × IsVerified toy to_json identity payload [] e
build-IsVerified_example =
    build-IsVerified toy to_json toy-IsCrypto (codes "2026-01-01") private_key (codes "ann") payload
      [] made encoded (inl unlisted)

accepted : (verify_with_keyring toy (codes "{}") private_key half [] (codes "ann")).valid ≡ true
unfolding verify_with_keyring verify check_keyring fingerprint_from_public_key
accepted = refl

verify_with_keyring-IsAccepted_example :
    IsAccepted toy
      (codes "{}")
      private_key
      half
      []
      (codes "ann")
      (verify_with_keyring toy (codes "{}") private_key half [] (codes "ann"))
verify_with_keyring-IsAccepted_example =
    verify_with_keyring-IsAccepted toy (codes "{}") private_key half [] (codes "ann") accepted

merge-verify_example :
    (msg : Text) × (merge toy to_json true [] (export_at (codes "ann") [] ∷ []) ≡ err msg)
merge-verify_example = merge-verify toy to_json [] (export_at (codes "ann") []) []

-- A config with two groups, one of which has no members.
abbrev site : TeamConfig
site = record {
  username = codes "ann";
  push_url = codes "http://h/x";
  members = (codes "web", codes "bob" ∷ codes "cat d" ∷ []) ∷ (codes "app", []) ∷ [];
}

site-IsPrintable : IsPrintable site
unfolding has_key
site-IsPrintable = record {
  username_Starts = refl;
  username_Ends = refl;
  username_line = refl;
  url_trimmed = refl;
  url_line = refl;
  groups = (
    ((refl, (refl, (refl, tt))), ((refl, refl, refl, refl), ((refl, refl, refl, refl), tt))),
    (((refl, (refl, (refl, tt))), tt), tt),
  );
  distinct = (refl, (refl, tt));
}

parse-print_example : parse (print site) ≡ ok site
parse-print_example = parse-print site site-IsPrintable
