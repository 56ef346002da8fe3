-- ===== src/Scheduler/Installed.antt =====
-- The crontab after an installation, a second one, and a removal.
use codeburn_watcher.Prelude.{
  join-split_at_snoc, not_contains-append, split_at-append, not_contains-split_at,
  trim_right-append, contains-append_left, split_at-between, Lacks-append, trim_right, split_at,
  All, contains_refl, Lacks, contains-append_right, select, ◌≡◌, refl, sym, ap, ◌∙◌, Bool, true,
  false, not, List, [], ◌∷◌, ◌++◌, Text, codes, join,
}
use codeburn_watcher.Prelude.Results.{Result, ok, err}
use codeburn_watcher.Scheduler.Cron.{
  set_answer, Crontab, IsCrontab, Failure, cron_entry, cron_marker, is_entry, or_empty, set_crontab,
  install, remove,
}

abbrev keeps : Text → Bool
keeps line = not (is_entry line)

select-keeps :
    (ls ms : List Text)
    → All (λ l. is_entry l ≡ false) ls
    → select keeps (ls ++ ms) ≡ ls ++ select keeps ms
unfolding select
select-keeps [] ms h = refl
select-keeps (l ∷ ls) ms h = rw (h.0) (ap (λ k. l ∷ k) (select-keeps ls ms h.1))

kept_after : (l : Text) → is_entry l ≡ true → select keeps (l ∷ ([] ∷ [])) ≡ [] ∷ []
unfolding select
kept_after l h = rw h refl

abbrev after_schedule : Text → Text
after_schedule binary = binary ++ (codes " collect " ++ cron_marker)

is_entry-cron_entry : (binary : Text) → is_entry (cron_entry binary) ≡ true
is_entry-cron_entry binary =
    contains-append_right cron_marker (codes "*/10 * * * * ") (after_schedule binary) (
      contains-append_right cron_marker binary (codes " collect " ++ cron_marker) (
        contains-append_right cron_marker (codes " collect ") cron_marker
          (contains_refl cron_marker)))

Lacks-cron_entry : (binary : Text) → Lacks 10 binary → Lacks 10 (cron_entry binary)
Lacks-cron_entry binary h =
    Lacks-append 10 (codes "*/10 * * * * ") (after_schedule binary) refl
      (Lacks-append 10 binary (codes " collect " ++ cron_marker) h refl)

-- What Install writes over a crontab `t`.
abbrev pub installed : Text → Text → Text
installed binary t = trim_right 10 t ++ (codes "\n" ++ (cron_entry binary ++ codes "\n"))

is_entry-installed : (binary t : Text) → is_entry (installed binary t) ≡ true
is_entry-installed binary t =
    let line = cron_entry binary ++ codes "\n" in
    contains-append_right cron_marker (trim_right 10 t) (codes "\n" ++ line) (
      contains-append_right cron_marker (codes "\n") line (
        contains-append_left cron_marker (cron_entry binary) (codes "\n")
          (is_entry-cron_entry binary)))

split-installed :
    (binary t : Text)
    → Lacks 10 binary
    → split_at 10 (installed binary t)
      ≡ split_at 10 (trim_right 10 t) ++ (cron_entry binary ∷ ([] ∷ []))
unfolding split_at
split-installed binary t plain =
    split_at-between 10 (trim_right 10 t) (cron_entry binary ++ codes "\n")
    ∙ ap (λ ls. split_at 10 (trim_right 10 t) ++ ls)
        (split_at-append 10 (cron_entry binary) [] (Lacks-cron_entry binary plain))

is_entry-trim_right : (t : Text) → is_entry t ≡ false → is_entry (trim_right 10 t) ≡ false
is_entry-trim_right t fresh =
    let (r, e) = trim_right-append 10 t in
    (not_contains-append cron_marker (trim_right 10 t) r (ap is_entry (sym e) ∙ fresh)).0

-- The lines that Remove keeps of it.
filtered :
    (binary t : Text)
    → Lacks 10 binary
    → is_entry t ≡ false
    → join (codes "\n") (select keeps (split_at 10 (installed binary t)))
      ≡ trim_right 10 t ++ codes "\n"
filtered binary t plain fresh =
    let lines = split_at 10 (trim_right 10 t) in
    let unmarked =
      not_contains-split_at cron_marker 10 (trim_right 10 t) (is_entry-trim_right t fresh) in
    ap (λ ls. join (codes "\n") (select keeps ls)) (split-installed binary t plain)
    ∙ ap (join (codes "\n")) (
        select-keeps lines (cron_entry binary ∷ ([] ∷ [])) unmarked
        ∙ ap (λ ls. lines ++ ls) (kept_after (cron_entry binary) (is_entry-cron_entry binary)))
    ∙ join-split_at_snoc 10 (trim_right 10 t)

module _ {S : Type 0} (c : Crontab S) where
  set_ok :
      (p : Result Failure (Unit {0}) × S) {s' : S}
      → ◌≡◌ {A = Result Text (Unit {0}) × S} (set_answer p.0, p.1) (ok tt, s')
      → p ≡ (ok tt, s')
  set_ok (ok u, s) h = cc
  set_ok (err f, s) h = cc

  set_crontab-lists :
      (laws : IsCrontab c) (t : Text) (s s' : S)
      → set_crontab c t s ≡ (ok tt, s')
      → c.list s' ≡ ok t
  unfolding set_crontab
  set_crontab-lists laws t s s' h = laws.list-set t s s' (set_ok (c.set t s) h)

  install_fresh :
      (binary t : Text) (s : S)
      → or_empty (c.list s) ≡ t
      → is_entry t ≡ false
      → install c binary s ≡ set_crontab c (installed binary t) s
  unfolding install
  install_fresh binary t s old fresh = rw old (rw fresh refl)

  install_again :
      (binary t : Text) (s : S)
      → c.list s ≡ ok t
      → is_entry t ≡ true
      → install c binary s ≡ (ok tt, s)
  unfolding install
  install_again binary t s listed marked = rw listed (rw marked refl)

  remove_listed :
      (t : Text) (s : S)
      → c.list s ≡ ok t
      → remove c s ≡ set_crontab c (join (codes "\n") (select keeps (split_at 10 t))) s
  unfolding remove
  remove_listed t s listed = rw (listed, remove) refl

  -- What a crontab lists after Install, after another Install and after Remove.
  pub record IsInstalled (binary t : Text) (s : S) : Type 0 where
    pub listed : c.list s ≡ ok (installed binary t)
    pub again : (other : Text) → install c other s ≡ (ok tt, s)
    pub removed :
        (s' : S) → remove c s ≡ (ok tt, s') → c.list s' ≡ ok (trim_right 10 t ++ codes "\n")

  -- On a crontab `t` without an entry of the program (an empty one, where crontab -l fails), an Install
  -- that returns no error has appended the entry for a path without a line feed; another Install
  -- changes nothing; and a Remove that returns no error leaves `t` as it was, but for the line feeds at
  -- its end, which become one.
  pub install-IsInstalled :
      (laws : IsCrontab c) (binary t : Text) (s s' : S)
      → Lacks 10 binary
      → or_empty (c.list s) ≡ t
      → is_entry t ≡ false
      → install c binary s ≡ (ok tt, s')
      → IsInstalled binary t s'
  install-IsInstalled laws binary t s s' plain old fresh done =
      let listed =
        set_crontab-lists laws (installed binary t) s s'
          (sym (install_fresh binary t s old fresh) ∙ done) in
      record {
        listed = listed;
        again = λ other.
            install_again other (installed binary t) s' listed (is_entry-installed binary t);
        removed = λ s'' h.
            set_crontab-lists laws
              (join (codes "\n") (select keeps (split_at 10 (installed binary t)))) s' s''
              (sym (remove_listed (installed binary t) s' listed) ∙ h)
            ∙ ap (λ u. ok u) (filtered binary t plain fresh);
      }
