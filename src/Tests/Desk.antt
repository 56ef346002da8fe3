-- ===== src/Tests/Desk.antt =====
-- A machine for the runs: the files, and the crontab as a file among them, are an association list.
use codeburn_watcher.Prelude.{
  ◌≡◌, ◌≢◌, refl, sym, ap, ◌∙◌, Option, none, some, List, [], ◌∷◌, ◌++◌, Text, codes, lookup,
  get_or, text_eq, ◌==◌, ==_refl, arith, length, length-append, drop, Bool-cases, inl, inr,
}
use codeburn_watcher.Prelude.Results.{Result, ok, err}
use codeburn_watcher.Disk.{Disk, IsDisk, ReadError, not_exist}
use codeburn_watcher.Deploy.Keystore.{
  KeyCalls, IsKeyCalls, ed25519_key, priv_key_file, pub_key_file,
}
use codeburn_watcher.Scheduler.Cron.{Crontab, IsCrontab}

abbrev pub Files : Type 0
Files = List (Text × Text)

abbrev found : Option Text → Result ReadError Text
found none = err (not_exist (codes "no such file"))
found (some t) = ok t

abbrev present : Option Text → Result Text (Unit {0})
present none = err (codes "no such file")
present (some t) = ok tt

abbrev pub desk : Disk Files
desk = record {
  content = λ s p. lookup p s;
  join_path = λ a b. a ++ (codes "/" ++ b);
  dir_of = λ p. p;
  stat = λ p s. present (lookup p s);
  read_file = λ p s. found (lookup p s);
  mkdir_all = λ p s. (ok tt, s);
  create = λ p s. (ok tt, (p, []) ∷ s);
  append = λ p t s. (ok tt, (p, get_or [] p s ++ t) ∷ s);
  write_file = λ p t s. (ok tt, (p, t) ∷ s);
  remove = λ p s. (ok tt, s);
}

found-eq : (o : Option Text) (t : Text) → found o ≡ ok t → o ≡ some t
found-eq none t h = cc
found-eq (some u) t h = cc

lookup_first : (p t : Text) (s : Files) → lookup p ((p, t) ∷ s) ≡ some t
unfolding lookup
lookup_first p t s = rw (==_refl p) refl

lookup_later : (p q t : Text) (s : Files) → q ≢ p → lookup q ((p, t) ∷ s) ≡ lookup q s
unfolding lookup
lookup_later p q t s other = elim (Bool-cases (q == p)) [
  | inl h ↦ absurd (other ((text_eq.beq_iff q p).0 h))
  | inr h ↦ rw h refl
]

get_or-lookup : (p u : Text) (s : Files) → lookup p s ≡ some u → get_or [] p s ≡ u
unfolding lookup get_or
get_or-lookup p u [] h = cc
get_or-lookup p u ((q, t) ∷ s) h = elim (Bool-cases (p == q)) [
  | inl e ↦ rw e (cc (rw e at h))
  | inr e ↦ rw e (get_or-lookup p u s (rw e at h))
]

written :
    (p t u : Text) (s s' : Files)
    → ◌≡◌ {A = Result Text (Unit {0}) × Files} (ok tt, (p, t) ∷ s) (ok tt, s')
    → t ≡ u
    → lookup p s' ≡ some u
written p t u s s' h same =
    ap (lookup p) (sym (ap (λ r. r.1) h)) ∙ lookup_first p t s ∙ ap (λ v. some v) same

pub desk-IsDisk : IsDisk desk
desk-IsDisk = record {
  read-content = λ p t s h. found-eq (lookup p s) t h;
  content-mkdir_all = λ p q s. refl;
  content-create = λ p s s' h. written p [] [] s s' h refl;
  content-create_other = λ p q s h. lookup_later p q [] s h;
  content-append = λ p t u s s' h k.
      written p (get_or [] p s ++ t) (u ++ t) s s' h (ap (λ v. v ++ t) (get_or-lookup p u s k));
  content-append_other = λ p q t s h. lookup_later p q (get_or [] p s ++ t) s h;
  content-write_file = λ p t s s' h. written p t t s s' h refl;
  content-write_file_other = λ p q t s h. lookup_later p q t s h;
}

abbrev pub half : Text
half = codes "0123456789abcdef0123456789abcdef"

-- A random source that always makes the same pair; its encodings are the keys themselves.
abbrev pub desk_keys : KeyCalls Files
desk_keys = record {
  generate_key = λ s. (ok (half, half ++ half), s);
  public_of = λ key. drop 32 key;
  marshal_pkcs8 = λ key. ok key;
  marshal_pkix = λ key. ok key;
  parse_pkcs8 = λ der. ok (ed25519_key der);
  pem_encode = λ kind der. der;
  pem_decode = λ t. some t;
  decode_ring = λ t. ok [];
}

ok_inj : {A : Type 0} {a b : A} → ◌≡◌ {A = Result Text A} (ok a) (ok b) → a ≡ b
ok_inj h = cc

made_pair :
    (s s' : Files) (key priv : Text)
    → ◌≡◌ {A = Result Text (Text × Text) × Files} (ok (half, half ++ half), s) (ok (key, priv), s')
    → drop 32 priv ≡ key
made_pair s s' key priv h =
    let pairs : ◌≡◌ {A = Text × Text} (half, half ++ half) (key, priv) = ok_inj (ap (λ r. r.0) h) in
    ap (drop 32) (sym (ap (λ p. p.1) pairs)) ∙ ap (λ p. p.0) pairs

pub desk_keys-IsKeyCalls : IsKeyCalls desk_keys desk
desk_keys-IsKeyCalls = record {
  public_of-generate_key = made_pair;
  parse-marshal = λ priv der h. ap (λ (k : Text). ok (ed25519_key k)) (sym (cc h));
  decode-encode = λ kind der. refl;
  distinct_paths = λ dir h. absurd (
      omega (
        arith,
        ap length h,
        length-append dir (codes "/" ++ priv_key_file),
        length-append dir (codes "/" ++ pub_key_file),
      ));
}

abbrev pub cron_file : Text
cron_file = codes "cron"

abbrev listed : Option Text → Result Text Text
listed none = err (codes "no crontab")
listed (some t) = ok t

abbrev pub desk_cron : Crontab Files
desk_cron = record {
  list = λ s. listed (lookup cron_file s);
  set = λ t s. (ok tt, (cron_file, t) ∷ s);
}

pub desk_cron-IsCrontab : IsCrontab desk_cron
desk_cron-IsCrontab = record {
  list-set = λ t s s' h.
      ap (λ (u : Files). listed (lookup cron_file u)) (sym (ap (λ r. r.1) h))
      ∙ ap listed (lookup_first cron_file t s);
}
