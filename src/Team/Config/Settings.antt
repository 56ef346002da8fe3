-- ===== src/Team/Config/Settings.antt =====
-- What the parser makes of a line of the config and of a list of members.
use codeburn_watcher.Prelude.{
  Starts-ne-nil, Ends-append, Starts-append, split_at-join, not_blank, trim_space-Starts, Ends,
  Starts, Lacks, ℕ, ◌≡◌, refl, ap, ◌∙◌, true, false, some, List, [], ◌∷◌, ◌++◌, map, arith, Text,
  text_eq, nat_eq, codes, nat_beq, split_at, trim_space, is_space, join, All,
}
use codeburn_watcher.Team.Config.{
  is_blank, is_word, skip_blanks, take_word, is_comment, key_value, section_name, section_of,
  key_value_of, members_of, State, set_value, parse_line,
}
use codeburn_watcher.Team.Config.Print.{IsKey, setting, parts, listed, IsName}

take_word-key :
    (key rest : Text)
    → All (λ d. is_word d ≡ true) key
    → take_word (key ++ (32 ∷ rest)) ≡ (key, 32 ∷ rest)
unfolding take_word
take_word-key [] rest h = refl
take_word-key (c ∷ key) rest h = rw (h.0, take_word-key key rest h.1) refl

word_lem :
    (c : ℕ)
    → is_word c ≡ true
    → (is_blank c ≡ false)
      × (is_space c ≡ false)
      × (nat_beq c b'#' ≡ false)
      × (nat_beq c b';' ≡ false)
      × (nat_beq c b'[' ≡ false)
word_lem c h = ground arith

key_value_of-setting :
    (c : ℕ) (key val : Text)
    → is_blank c ≡ false
    → All (λ d. is_word d ≡ true) (c ∷ key)
    → key_value_of (setting (c ∷ key) val) ≡ some (c ∷ key, trim_space val)
unfolding key_value_of skip_blanks
key_value_of-setting c key val blank h =
    let skipped : skip_blanks (setting (c ∷ key) val) ≡ setting (c ∷ key) val = rw blank refl in
    ap (λ t. key_value (take_word t)) skipped
    ∙ ap key_value (take_word-key (c ∷ key) (codes "= " ++ val) h)

pub setting_lem :
    (s : State) (key val : Text)
    → IsKey key
    → trim_space val ≡ val
    → parse_line s (setting key val) ≡ set_value s key val
unfolding parse_line is_comment section_of skip_blanks
setting_lem s [] val h v = absurd h
setting_lem s (c ∷ key) val h v =
    let (blank, space, hash, semicolon, bracket) = word_lem c h.0 in
    let shown = not_blank c (key ++ (codes " = " ++ val)) space in
    rw (blank, hash, semicolon, shown, bracket, key_value_of-setting c key val blank h, v) refl

pub members_line : (s : State) → parse_line s (codes "[members]") ≡ record s { in_members = true }
unfolding parse_line is_comment section_of section_name key_value_of skip_blanks take_word
members_line s = refl

members_of-name : (u : Text) (us : List Text) → IsName u → members_of (u ∷ us) ≡ u ∷ members_of us
unfolding members_of
members_of-name u us h = rw (trim_space-Starts u h.0 h.1, Starts-ne-nil u h.0) refl

members_of-rest : (us : List Text) → All IsName us → members_of (map (λ v. 32 ∷ v) us) ≡ us
unfolding members_of
members_of-rest [] h = refl
members_of-rest (u ∷ us) h =
    members_of-name u (map (λ v. 32 ∷ v) us) h.0 ∙ ap (λ l. u ∷ l) (members_of-rest us h.1)

members_of-parts : (us : List Text) → All IsName us → members_of (parts us) ≡ us
unfolding members_of
members_of-parts [] h = refl
members_of-parts (u ∷ us) h =
    members_of-name u (map (λ v. 32 ∷ v) us) h.0 ∙ ap (λ l. u ∷ l) (members_of-rest us h.1)

Lacks-rest : (us : List Text) → All IsName us → All (Lacks b',') (map (λ v. 32 ∷ v) us)
Lacks-rest [] h = tt
Lacks-rest (u ∷ us) h = ((h.0).3, Lacks-rest us h.1)

Lacks-parts : (us : List Text) → All IsName us → All (Lacks b',') (parts us)
Lacks-parts [] h = (refl, tt)
Lacks-parts (u ∷ us) h = ((h.0).3, Lacks-rest us h.1)

pub members_of-listed :
    (us : List Text) → All IsName us → members_of (split_at b',' (listed us)) ≡ us
unfolding split_at
members_of-listed [] h = members_of-parts [] h
members_of-listed (u ∷ us) h =
    ap members_of (split_at-join b',' u (map (λ v. 32 ∷ v) us) (Lacks-parts (u ∷ us) h))
    ∙ members_of-parts (u ∷ us) h

-- The written list neither starts nor ends with white space.
Starts-listed : (u : Text) (us : List Text) → Starts u → Starts (listed (u ∷ us))
Starts-listed u [] h = h
Starts-listed u (v ∷ us) h =
    Starts-append u (codes "," ++ join (codes ",") (map (λ v. 32 ∷ v) (v ∷ us))) h

Ends-rest :
    (us : List Text) (v : Text)
    → All IsName (v ∷ us)
    → Ends (join (codes ",") (map (λ v. 32 ∷ v) (v ∷ us)))
Ends-rest [] v h = Ends-append (32 ∷ []) v (h.0).1
Ends-rest (w ∷ us) v h =
    let tail = join (codes ",") (map (λ v. 32 ∷ v) (w ∷ us)) in
    Ends-append (32 ∷ v) (codes "," ++ tail) (Ends-append (codes ",") tail (Ends-rest us w h.1))

pub trim_space-listed : (us : List Text) → All IsName us → trim_space (listed us) ≡ listed us
trim_space-listed [] h = refl
trim_space-listed (u ∷ []) h = trim_space-Starts u (h.0).0 (h.0).1
trim_space-listed (u ∷ (v ∷ us)) h =
    let tail = join (codes ",") (map (λ v. 32 ∷ v) (v ∷ us)) in
    trim_space-Starts (listed (u ∷ (v ∷ us))) (Starts-listed u (v ∷ us) (h.0).0)
      (Ends-append u (codes "," ++ tail) (Ends-append (codes ",") tail (Ends-rest us v h.1)))
