-- ===== src/Deploy/Keystore.antt =====
-- infrastructure/fs/keystore.go: the key pair on the disk, and the keyring.
use codeburn_watcher.Prelude.{◌≡◌, ◌≢◌, Option, none, some, ◌++◌, Text, codes}
use codeburn_watcher.Prelude.Results.{Result, ok, err}
use codeburn_watcher.Prelude.Actions.{wrapped, wrap_action, Action, lift, ◌>>=◌, ◌>>◌}
use codeburn_watcher.Trust.{Keyring}
use codeburn_watcher.Disk.{Disk, message}

abbrev pub priv_key_file : Text
priv_key_file = codes "signing-key.pem"

abbrev pub pub_key_file : Text
pub_key_file = codes "signing-key-pub.pem"

-- What x509.ParsePKCS8PrivateKey returns: an Ed25519 key or one of another kind.
pub data ParsedKey : Type 0 where
  ed25519_key : Text → ParsedKey
  other_key : ParsedKey

-- The calls of crypto/ed25519, crypto/x509, encoding/pem and encoding/json. `generate_key` returns the
-- public and the private key that the random source makes in a state.
pub record KeyCalls (S : Type 0) : Type 0 where
  pub generate_key : Action S (Text × Text)
  pub public_of : Text → Text
  pub marshal_pkcs8 : Text → Result Text Text
  pub marshal_pkix : Text → Result Text Text
  pub parse_pkcs8 : Text → Result Text ParsedKey
  pub pem_encode : Text → Text → Text
  pub pem_decode : Text → Option Text
  pub decode_ring : Text → Result Text Keyring

-- A generated private key has its public key; PEM and PKCS #8 decode what they encode.
pub record IsKeyCalls {S : Type 0} (k : KeyCalls S) (d : Disk S) : Type 0 where
  pub public_of-generate_key :
      (s s' : S) (key priv : Text)
      → k.generate_key s ≡ (ok (key, priv), s')
      → k.public_of priv ≡ key
  pub parse-marshal :
      (priv der : Text) → k.marshal_pkcs8 priv ≡ ok der → k.parse_pkcs8 der ≡ ok (ed25519_key priv)
  pub decode-encode : (kind der : Text) → k.pem_decode (k.pem_encode kind der) ≡ some der
  pub distinct_paths : (dir : Text) → d.join_path dir priv_key_file ≢ d.join_path dir pub_key_file

module _ {S : Type 0} (d : Disk S) (k : KeyCalls S) where
  -- From the content of the private key's file on.
  abbrev pub parsed_pair : ParsedKey → Result Text (Text × Text)
  parsed_pair (ed25519_key priv) = ok (priv, k.public_of priv)
  parsed_pair other_key = err (codes "key is not Ed25519")

  unfoldable pub decode_pair : Text → Result Text (Text × Text)
  decode_pair bytes = elim (k.pem_decode bytes) [
    | none ↦ err (codes "no PEM block in private key file")
    | some der ↦ elim (k.parse_pkcs8 der) [
      | err e ↦ err (codes "parse private key: " ++ e)
      | ok key ↦ parsed_pair key
    ]
  ]

  unfoldable pub load_keypair : Text → S → Result Text (Text × Text)
  load_keypair dir s = elim (d.read_file (d.join_path dir priv_key_file) s) [
    | err e ↦ err (codes "read private key: " ++ message e)
    | ok bytes ↦ decode_pair bytes
  ]

  unfoldable pub write_pem : Text → Text → Text → Action S (Unit {0})
  write_pem path kind der = do
    wrap_action (codes "open " ++ (path ++ codes ": ")) (d.create path)
    d.append path (k.pem_encode kind der)

  -- The two files of a pair of a public and a private key, from their encodings.
  unfoldable pub write_ders : Text → Text → Text → Action S (Unit {0})
  write_ders dir priv_der pub_der = do
    write_pem (d.join_path dir priv_key_file) (codes "PRIVATE KEY") priv_der
    write_pem (d.join_path dir pub_key_file) (codes "PUBLIC KEY") pub_der

  unfoldable pub write_pair : Text → Text × Text → Action S (Text × Text)
  write_pair dir (key, priv) = do
    priv_der ← lift (wrapped (codes "marshal private key: ") (k.marshal_pkcs8 priv))
    pub_der ← lift (wrapped (codes "marshal public key: ") (k.marshal_pkix key))
    write_ders dir priv_der pub_der
    lift (ok (priv, key))

  -- The part of EnsureKeypair where the private key's file is not found.
  unfoldable pub new_keypair : Text → Action S (Text × Text)
  new_keypair dir = do
    wrap_action (codes "mkdir " ++ (dir ++ codes ": ")) (d.mkdir_all dir)
    pair ← wrap_action (codes "generate key: ") k.generate_key
    write_pair dir pair

  unfoldable pub ensure_keypair : Text → Action S (Text × Text)
  ensure_keypair dir s = elim (d.stat (d.join_path dir priv_key_file) s) [
    | ok _ ↦ (load_keypair dir s, s)
    | err _ ↦ new_keypair dir s
  ]

  unfoldable pub load_keyring : Text → S → Result Text Keyring
  load_keyring path s = elim (d.read_file path s) [
    | err e ↦ err (codes "read keyring " ++ (path ++ (codes ": " ++ message e)))
    | ok bytes ↦ wrapped (codes "parse keyring: ") (k.decode_ring bytes)
  ]
