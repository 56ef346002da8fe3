-- ===== src/Tests/DeployRuns.antt =====
-- The theorems on infrastructure/scheduler/cron.go and infrastructure/fs/keystore.go at a concrete input.
use codeburn_watcher.Prelude.{
  ◌≡◌, refl, [], ◌∷◌, ◌++◌, Text, codes, text_eq, lookup, get_or, split_at, trim_right, select,
}
use codeburn_watcher.Prelude.Results.{ok}
use codeburn_watcher.Scheduler.Cron.{or_empty, install, remove, set_crontab}
use codeburn_watcher.Scheduler.Installed.{IsInstalled, install-IsInstalled}
use codeburn_watcher.Deploy.Keystore.{
  ensure_keypair, load_keypair, new_keypair, write_pair, write_ders, write_pem, priv_key_file,
}
use codeburn_watcher.Deploy.Kept.{ensure_keypair-load_keypair}
use codeburn_watcher.Tests.Desk.{
  Files, desk, desk-IsDisk, half, desk_keys, desk_keys-IsKeyCalls, cron_file, desk_cron,
  desk_cron-IsCrontab,
}

abbrev mine : Text
mine = codes "0 1 * * * backup\n"

abbrev with_cron : Files
with_cron = (cron_file, mine) ∷ []

abbrev after_install : Files
after_install =
    (cron_file, codes "0 1 * * * backup\n*/10 * * * * /bin/tm collect # TOKEN_MONITOR\n")
    ∷ with_cron

installing : install desk_cron (codes "/bin/tm") with_cron ≡ (ok tt, after_install)
unfolding install set_crontab lookup trim_right
installing = refl

old_cron : or_empty (desk_cron.list with_cron) ≡ mine
unfolding lookup
old_cron = refl

install-IsInstalled_example : IsInstalled desk_cron (codes "/bin/tm") mine after_install
install-IsInstalled_example =
    install-IsInstalled desk_cron desk_cron-IsCrontab (codes "/bin/tm") mine with_cron after_install
      refl old_cron refl installing

-- Remove restores the crontab.
removing : remove desk_cron after_install ≡ (ok tt, (cron_file, mine) ∷ after_install)
unfolding remove set_crontab lookup split_at select
removing = refl

abbrev dir : Text
dir = codes "k"

abbrev with_keys : Files
with_keys =
    (codes "k/signing-key-pub.pem", half)
    ∷ (codes "k/signing-key-pub.pem", [])
    ∷ (codes "k/signing-key.pem", half ++ half)
    ∷ (codes "k/signing-key.pem", [])
    ∷ []

ensuring : ensure_keypair desk desk_keys dir [] ≡ (ok (half ++ half, half), with_keys)
unfolding ensure_keypair new_keypair write_pair write_ders write_pem lookup get_or
ensuring = refl

readable : desk.read_file (desk.join_path dir priv_key_file) with_keys ≡ ok (half ++ half)
unfolding lookup
readable = refl

present : desk.stat (desk.join_path dir priv_key_file) with_keys ≡ ok tt
unfolding lookup
present = refl

ensure_keypair-load_keypair_example :
    (load_keypair desk desk_keys dir with_keys ≡ ok (half ++ half, half))
    × (ensure_keypair desk desk_keys dir with_keys ≡ (ok (half ++ half, half), with_keys))
ensure_keypair-load_keypair_example =
    ensure_keypair-load_keypair desk desk_keys desk-IsDisk desk_keys-IsKeyCalls dir (half ++ half)
      half (half ++ half) [] with_keys ensuring readable present
