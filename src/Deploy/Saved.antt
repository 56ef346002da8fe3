-- ===== src/Deploy/Saved.antt =====
-- The settings that are saved are loaded again.
use codeburn_watcher.Prelude.{◌≡◌, refl, sym, ap, ◌∙◌, some, Text, lookup, text_eq, codes}
use codeburn_watcher.Prelude.Results.{ok}
use codeburn_watcher.Prelude.Actions.{lift, wrapped, wrap_action, ◌>>=◌, >>=-eq-ok, wrapped-eq-ok}
use codeburn_watcher.Disk.{Disk, IsDisk}
use codeburn_watcher.Deploy.Settings.{
  DeployConfig, SettingsCalls, config_path, load_config, save_config,
}

-- The same fields, and the same entries of the map.
pub record IsSame (a b : DeployConfig) : Type 0 where
  pub username : a.username ≡ b.username
  pub push_url : a.push_url ≡ b.push_url
  pub members : (group : Text) → lookup group a.members ≡ lookup group b.members

-- encoding/json decodes what it encodes, with the entries of a map in any order.
pub record IsSettings (calls : SettingsCalls) : Type 0 where
  pub decode-encode :
      (cfg : DeployConfig) (t : Text)
      → calls.encode cfg ≡ ok t
      → (read : DeployConfig) × (calls.decode t ≡ ok read) × IsSame read cfg

module _ {S : Type 0} (d : Disk S) (calls : SettingsCalls) (disk : IsDisk d)
    (laws : IsSettings calls) where
  -- What Save leaves in the file.
  record IsWritten (home : Text) (cfg : DeployConfig) (u : S) : Type 0 where
    bytes : Text
    encoded : calls.encode cfg ≡ ok bytes
    held : d.content u (config_path d calls home) ≡ some bytes

  save_config-IsWritten :
      (home : Text) (cfg : DeployConfig) (s u : S)
      → calls.home ≡ ok home
      → save_config d calls cfg s ≡ (ok tt, u)
      → IsWritten home cfg u
  unfolding save_config
  save_config-IsWritten home cfg s u found h =
      let path = config_path d calls home in
      let made = wrap_action (codes "mkdir: ") (d.mkdir_all (d.dir_of path)) in
      let encoded = wrapped (codes "marshal config: ") (calls.encode cfg) in
      let write = λ (_ : Unit {0}). lift encoded >>= d.write_file path in
      let (_, s1, e1, h1) = >>=-eq-ok made write (rw (found, save_config) at h) in
      let (bytes, s2, e2, h2) = >>=-eq-ok (lift encoded) (d.write_file path) h1 in
      record {
        bytes = bytes;
        encoded = wrapped-eq-ok (codes "marshal config: ") (calls.encode cfg) (ap (λ p. p.0) e2);
        held = disk.content-write_file path bytes s2 u h2;
      }

  -- After a Save that returned no error, where the file can be read, Load returns the same settings: the
  -- user, the URL, and the members of each group.
  pub load_config-save_config :
      (home : Text) (cfg : DeployConfig) (t : Text) (s u : S)
      → calls.home ≡ ok home
      → save_config d calls cfg s ≡ (ok tt, u)
      → d.read_file (config_path d calls home) u ≡ ok t
      → (read : DeployConfig) × (load_config d calls u ≡ ok read) × IsSame read cfg
  unfolding load_config
  load_config-save_config home cfg t s u found saved present =
      let w = save_config-IsWritten home cfg s u found saved in
      let path = config_path d calls home in
      let same : some t ≡ some w.bytes = sym (disk.read-content path t u present) ∙ w.held in
      let (read, decoded, alike) = laws.decode-encode cfg w.bytes w.encoded in
      let from_file : calls.decode t ≡ ok read = ap calls.decode (cc (same)) ∙ decoded in
      (read, rw (found, load_config) (rw (present, load_config) (rw from_file refl)), alike)
