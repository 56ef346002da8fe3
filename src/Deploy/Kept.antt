-- ===== src/Deploy/Kept.antt =====
-- The key pair that is ensured once stays: what a later call loads.
use codeburn_watcher.Prelude.{inr, inl, ◌≡◌, ◌≢◌, sym, ap, ◌∙◌, some, [], ◌++◌, Text, codes}
use codeburn_watcher.Prelude.Results.{Result, ok, Result-cases}
use codeburn_watcher.Prelude.Actions.{
  wrapped-eq-ok, lift, wrapped, wrap_action, ◌>>=◌, >>=-eq-ok, wrap_action-eq-ok,
}
use mathlib.Core.Path.{subst}
use codeburn_watcher.Disk.{Disk, IsDisk}
use codeburn_watcher.Deploy.Keystore.{
  write_ders, write_pair, KeyCalls, IsKeyCalls, priv_key_file, pub_key_file, decode_pair,
  load_keypair, write_pem, new_keypair, ensure_keypair,
}

module _ {S : Type 0} (d : Disk S) (k : KeyCalls S) (disk : IsDisk d) (keys : IsKeyCalls k d) where
  -- Writing a PEM file: its content, and that of any other.
  content-write_pem :
      (path kind der : Text) (s u : S)
      → write_pem d k path kind der s ≡ (ok tt, u)
      → d.content u path ≡ some (k.pem_encode kind der)
  unfolding write_pem
  content-write_pem path kind der s u h =
      let (_, t, opened, rest) =
        >>=-eq-ok (wrap_action (codes "open " ++ (path ++ codes ": ")) (d.create path))
          (λ _. d.append path (k.pem_encode kind der)) h in
      let empty =
        disk.content-create path s t
          (wrap_action-eq-ok (codes "open " ++ (path ++ codes ": ")) (d.create path s) opened) in
      disk.content-append path (k.pem_encode kind der) [] t u rest empty

  content-write_pem_other :
      (path q kind der : Text) (s u : S)
      → q ≢ path
      → write_pem d k path kind der s ≡ (ok tt, u)
      → d.content u q ≡ d.content s q
  unfolding write_pem
  content-write_pem_other path q kind der s u other h =
      let (_, t, opened, rest) =
        >>=-eq-ok (wrap_action (codes "open " ++ (path ++ codes ": ")) (d.create path))
          (λ _. d.append path (k.pem_encode kind der)) h in
      ap (λ r. d.content r.1 q) (sym rest)
      ∙ disk.content-append_other path q (k.pem_encode kind der) t other
      ∙ ap (λ r. d.content r.1 q) (sym opened)
      ∙ disk.content-create_other path q s other

  -- The file of the private key, after both are written.
  content-write_ders :
      (dir priv_der pub_der : Text) (s u : S)
      → write_ders d k dir priv_der pub_der s ≡ (ok tt, u)
      → d.content u (d.join_path dir priv_key_file)
        ≡ some (k.pem_encode (codes "PRIVATE KEY") priv_der)
  unfolding write_ders
  content-write_ders dir priv_der pub_der s u h =
      let priv_path = d.join_path dir priv_key_file in
      let pub_path = d.join_path dir pub_key_file in
      let (_, t, first, second) =
        >>=-eq-ok (write_pem d k priv_path (codes "PRIVATE KEY") priv_der)
          (λ _. write_pem d k pub_path (codes "PUBLIC KEY") pub_der) h in
      content-write_pem_other pub_path priv_path (codes "PUBLIC KEY") pub_der t u
        (keys.distinct_paths dir) second
      ∙ content-write_pem priv_path (codes "PRIVATE KEY") priv_der s t first

  -- What a pair leaves on the disk.
  record IsStored (dir priv key : Text) (u : S) : Type 0 where
    der : Text
    marshalled : k.marshal_pkcs8 priv ≡ ok der
    public : k.public_of priv ≡ key
    held :
        d.content u (d.join_path dir priv_key_file) ≡ some (k.pem_encode (codes "PRIVATE KEY") der)

  write_pair-IsStored :
      (dir key priv : Text) {x : Text × Text} (s u : S)
      → k.public_of priv ≡ key
      → write_pair d k dir (key, priv) s ≡ (ok x, u)
      → (x ≡ (priv, key)) × IsStored dir priv key u
  unfolding write_pair
  write_pair-IsStored dir key priv s u public h =
      let last = λ (_ : Unit {0}). lift (ok (priv, key)) in
      let write = λ (a b : Text). write_ders d k dir a b >>= last in
      let (priv_der, s1, e1, h1) =
        >>=-eq-ok (lift (wrapped (codes "marshal private key: ") (k.marshal_pkcs8 priv)))
          (λ a. lift (wrapped (codes "marshal public key: ") (k.marshal_pkix key)) >>= write a) h in
      let (pub_der, s2, e2, h2) =
        >>=-eq-ok (lift (wrapped (codes "marshal public key: ") (k.marshal_pkix key)))
          (write priv_der) h1 in
      let (_, s3, e3, h3) = >>=-eq-ok (write_ders d k dir priv_der pub_der) last h2 in
      (
        cc (h3),
        record {
          der = priv_der;
          marshalled =
              wrapped-eq-ok (codes "marshal private key: ") (k.marshal_pkcs8 priv)
                (ap (λ p. p.0) e1);
          public = public;
          held =
              ap (λ v. d.content v (d.join_path dir priv_key_file)) (sym (ap (λ p. p.1) h3))
              ∙ content-write_ders dir priv_der pub_der s2 s3 e3;
        },
      )

  new_keypair-IsStored :
      (dir priv key : Text) (s u : S)
      → new_keypair d k dir s ≡ (ok (priv, key), u)
      → IsStored dir priv key u
  unfolding new_keypair
  new_keypair-IsStored dir priv key s u h =
      let (_, s1, e1, h1) =
        >>=-eq-ok (wrap_action (codes "mkdir " ++ (dir ++ codes ": ")) (d.mkdir_all dir))
          (λ _. wrap_action (codes "generate key: ") k.generate_key >>= write_pair d k dir) h in
      let ((key', priv'), s2, e2, h2) =
        >>=-eq-ok (wrap_action (codes "generate key: ") k.generate_key) (write_pair d k dir) h1 in
      let made = wrap_action-eq-ok (codes "generate key: ") (k.generate_key s1) e2 in
      let (same, stored) =
        write_pair-IsStored dir key' priv' s2 u (keys.public_of-generate_key s1 s2 key' priv' made)
          h2 in
      subst (λ (x : Text × Text). IsStored dir x.0 x.1 u) (sym same) stored

  load_keypair-IsStored :
      (dir priv key bytes : Text) (u : S)
      → IsStored dir priv key u
      → d.read_file (d.join_path dir priv_key_file) u ≡ ok bytes
      → load_keypair d k dir u ≡ ok (priv, key)
  unfolding load_keypair decode_pair
  load_keypair-IsStored dir priv key bytes u st read =
      let written = k.pem_encode (codes "PRIVATE KEY") st.der in
      let same : some bytes ≡ some written =
        sym (disk.read-content (d.join_path dir priv_key_file) bytes u read) ∙ st.held in
      let decoded : k.pem_decode bytes ≡ some st.der =
        ap k.pem_decode (cc (same)) ∙ keys.decode-encode (codes "PRIVATE KEY") st.der in
      rw (read, load_keypair)
        (rw (decoded, decode_pair)
          (rw (keys.parse-marshal priv st.der st.marshalled, decode_pair)
            (ap (λ t. ok (priv, t)) st.public)))

  ensured_load :
      (dir priv key bytes : Text) (s u : S)
      → ensure_keypair d k dir s ≡ (ok (priv, key), u)
      → d.read_file (d.join_path dir priv_key_file) u ≡ ok bytes
      → load_keypair d k dir u ≡ ok (priv, key)
  unfolding ensure_keypair
  ensured_load dir priv key bytes s u h read =
      elim (Result-cases (d.stat (d.join_path dir priv_key_file) s)) [
        | inl (e, p) ↦
            load_keypair-IsStored dir priv key bytes u
              (new_keypair-IsStored dir priv key s u (rw (p, ensure_keypair) at h)) read
        | inr (_, p) ↦
            let same : ◌≡◌ {A = Result Text (Text × Text) × S} (load_keypair d k dir s, s)
                (ok (priv, key), u) =
              rw (p, ensure_keypair) at h in
            ap (load_keypair d k dir) (sym (ap (λ r. r.1) same)) ∙ ap (λ r. r.0) same
      ]

  ensured_again :
      (dir : Text) (pair : Text × Text) (u : S)
      → d.stat (d.join_path dir priv_key_file) u ≡ ok tt
      → load_keypair d k dir u ≡ ok pair
      → ensure_keypair d k dir u ≡ (ok pair, u)
  unfolding ensure_keypair
  ensured_again dir pair u present loaded = rw (present, ensure_keypair) (ap (λ r. (r, u)) loaded)

  -- Where EnsureKeypair returned a key pair without an error and the file of the private key can then
  -- be found and read, LoadKeypair returns that pair, and another EnsureKeypair returns it again and
  -- changes nothing.
  pub ensure_keypair-load_keypair :
      (dir priv key bytes : Text) (s u : S)
      → ensure_keypair d k dir s ≡ (ok (priv, key), u)
      → d.read_file (d.join_path dir priv_key_file) u ≡ ok bytes
      → d.stat (d.join_path dir priv_key_file) u ≡ ok tt
      → (load_keypair d k dir u ≡ ok (priv, key)) × (ensure_keypair d k dir u ≡ (ok (priv, key), u))
  ensure_keypair-load_keypair dir priv key bytes s u h read present =
      let loaded = ensured_load dir priv key bytes s u h read in
      (loaded, ensured_again dir (priv, key) u present loaded)
