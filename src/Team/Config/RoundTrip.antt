-- ===== src/Team/Config/RoundTrip.antt =====
-- A config that is written in the documented format is read back.
use mathlib.Core.List.{append_assoc, append-nil}
use codeburn_watcher.Prelude.{
  Lacks-append, Starts-ne-nil, trim_space-Starts, split_at-join, Lacks, ℕ, ◌≡◌, refl, sym, ap, ◌∙◌,
  Bool, true, false, ◌||◌, List, [], ◌∷◌, ◌++◌, map, foldl, arith, Text, text_eq, nat_eq, codes,
  Assoc, insert, upsert, has_key, has_key-upsert, IsMap, nat_beq, join, All, ◌==◌,
}
use codeburn_watcher.Prelude.Results.{ok}
use codeburn_watcher.Team.Export.{TeamConfig}
use codeburn_watcher.Team.Config.{is_word, State, set_value, parse_line, no_config, parse}
use codeburn_watcher.Team.Config.Print.{
  IsKey, setting, listed, IsName, group_line, IsGroup, lines_of, print, IsPrintable,
}
use codeburn_watcher.Team.Config.Settings.{
  setting_lem, members_line, members_of-listed, trim_space-listed,
}

-- No line holds a line feed.
word-ne-feed : (c : ℕ) → is_word c ≡ true → (nat_beq c 10 || false) ≡ false
word-ne-feed c h = ground arith

Lacks-key : (key : Text) → All (λ d. is_word d ≡ true) key → Lacks 10 key
Lacks-key [] h = refl
Lacks-key (c ∷ key) h = rw (Lacks-key key h.1) (word-ne-feed c h.0)

Lacks-setting : (key val : Text) → IsKey key → Lacks 10 val → Lacks 10 (setting key val)
Lacks-setting [] val h v = absurd h
Lacks-setting (c ∷ key) val h v =
    Lacks-append 10 (c ∷ key) (codes " = " ++ val) (Lacks-key (c ∷ key) h) v

Lacks-listed_rest :
    (us : List Text) (v : Text)
    → All IsName (v ∷ us)
    → Lacks 10 (join (codes ",") (map (λ v. 32 ∷ v) (v ∷ us)))
Lacks-listed_rest [] v h = (h.0).2
Lacks-listed_rest (w ∷ us) v h =
    Lacks-append 10 (32 ∷ v) (codes "," ++ join (codes ",") (map (λ v. 32 ∷ v) (w ∷ us))) (h.0).2
      (Lacks-listed_rest us w h.1)

Lacks-listed : (us : List Text) → All IsName us → Lacks 10 (listed us)
Lacks-listed [] h = refl
Lacks-listed (u ∷ []) h = (h.0).2
Lacks-listed (u ∷ (v ∷ us)) h =
    Lacks-append 10 u (codes "," ++ join (codes ",") (map (λ v. 32 ∷ v) (v ∷ us))) (h.0).2
      (Lacks-listed_rest us v h.1)

group_lines-Lacks :
    (gs : List (Text × List Text)) → All IsGroup gs → All (Lacks 10) (map group_line gs)
group_lines-Lacks [] h = tt
group_lines-Lacks (g ∷ gs) h =
    (Lacks-setting g.0 (listed g.1) (h.0).0 (Lacks-listed g.1 (h.0).1), group_lines-Lacks gs h.1)

lines-Lacks : (cfg : TeamConfig) → IsPrintable cfg → All (Lacks 10) (lines_of cfg)
lines-Lacks cfg p = (
  Lacks-setting (codes "username") cfg.username
      (refl, (refl, (refl, (refl, (refl, (refl, (refl, (refl, tt)))))))) p.username_line,
  (
    Lacks-setting (codes "push_url") cfg.push_url
        (refl, (refl, (refl, (refl, (refl, (refl, (refl, (refl, tt)))))))) p.url_line,
    (refl, group_lines-Lacks cfg.members p.groups),
  ),
)

-- m[k] = v for a new key, and for a list of new keys.
abbrev add_group : Assoc Text (List Text) → Text × List Text → Assoc Text (List Text)
add_group m g = insert g.0 g.1 m

abbrev IsNew : Assoc Text (List Text) → Text × List Text → Type 0
IsNew m g = has_key g.0 m ≡ false

add_group-new :
    (m : Assoc Text (List Text)) (g : Text × List Text) → IsNew m g → add_group m g ≡ m ++ (g ∷ [])
unfolding has_key upsert
add_group-new [] g h = refl
add_group-new ((k, v) ∷ m) g h =
    let other : (g.0 == k) ≡ false = ground arith in
    let rest : IsNew m g = ground arith in rw other (ap (λ l. (k, v) ∷ l) (add_group-new m g rest))

has_key-cons :
    (k : Text) (g : Text × List Text) (m : Assoc Text (List Text))
    → has_key k (g ∷ m) ≡ (k == g.0 || has_key k m)
unfolding has_key
has_key-cons k g m = refl

other_way : (s t : Text) → (s == t) ≡ false → (t == s) ≡ false
other_way s t h = ground (arith, text_eq.beq_iff s t, text_eq.beq_iff t s)

or_false : {a b : Bool} → (a || b) ≡ false → (a ≡ false) × (b ≡ false)
or_false {a} {b} h = ground arith

IsNew-grown :
    (m : Assoc Text (List Text)) (g : Text × List Text) (gs : List (Text × List Text))
    → All (IsNew m) gs
    → has_key g.0 gs ≡ false
    → All (IsNew (add_group m g)) gs
IsNew-grown m g [] a h = tt
IsNew-grown m g (j ∷ gs) a h =
    let both = rw (has_key-cons g.0 j gs) at h in
    let other : (j.0 == g.0) ≡ false = other_way g.0 j.0 (or_false both).0 in
    (
      has_key-upsert g.1 g.0 (λ v. g.1) m j.0 ∙ rw (other, a.0) refl,
      IsNew-grown m g gs a.1 (or_false both).1,
    )

foldl-add_group :
    (gs : List (Text × List Text)) (m : Assoc Text (List Text))
    → All (IsNew m) gs
    → IsMap gs
    → foldl add_group m gs ≡ m ++ gs
foldl-add_group [] m a h = sym (append-nil m)
foldl-add_group (g ∷ gs) m a h =
    foldl-add_group gs (add_group m g) (IsNew-grown m g gs a.1 h.0) h.1
    ∙ ap (λ l. l ++ gs) (add_group-new m g a.0)
    ∙ append_assoc m (g ∷ []) gs

abbrev with_members : TeamConfig → Assoc Text (List Text) → State
with_members cfg m = record { config = record cfg { members = m }; in_members = true }

set_members :
    (cfg : TeamConfig) (m : Assoc Text (List Text)) (g : Text × List Text)
    → All IsName g.1
    → set_value (with_members cfg m) g.0 (listed g.1) ≡ with_members cfg (add_group m g)
unfolding set_value
set_members cfg m g h = ap (λ us. with_members cfg (insert g.0 us m)) (members_of-listed g.1 h)

foldl-group_line :
    (cfg : TeamConfig) (gs : List (Text × List Text)) (m : Assoc Text (List Text))
    → All IsGroup gs
    → foldl parse_line (with_members cfg m) (map group_line gs)
      ≡ with_members cfg (foldl add_group m gs)
foldl-group_line cfg [] m h = refl
foldl-group_line cfg (g ∷ gs) m h =
    let step : parse_line (with_members cfg m) (group_line g) ≡ with_members cfg (add_group m g) =
      setting_lem (with_members cfg m) g.0 (listed g.1) (h.0).0 (trim_space-listed g.1 (h.0).1)
      ∙ set_members cfg m g (h.0).1 in
    ap (λ s. foldl parse_line s (map group_line gs)) step
    ∙ foldl-group_line cfg gs (add_group m g) h.1

All-IsNew : (gs : List (Text × List Text)) → All (IsNew []) gs
unfolding has_key
All-IsNew [] = tt
All-IsNew (g ∷ gs) = (refl, All-IsNew gs)

-- The lines before the groups.
head_lines :
    (cfg : TeamConfig)
    → IsPrintable cfg
    → parse_line
        (parse_line
          (parse_line no_config (setting (codes "username") cfg.username))
          (setting (codes "push_url") cfg.push_url))
        (codes "[members]")
      ≡ with_members cfg []
unfolding set_value
head_lines cfg p =
    let named : State = record no_config {
      config = record (no_config.config) { username = cfg.username };
    } in
    let first : parse_line no_config (setting (codes "username") cfg.username) ≡ named =
      setting_lem no_config (codes "username") cfg.username
        (refl, (refl, (refl, (refl, (refl, (refl, (refl, (refl, tt))))))))
        (trim_space-Starts cfg.username p.username_Starts p.username_Ends) in
    ap
      (λ s. parse_line (parse_line s (setting (codes "push_url") cfg.push_url)) (codes "[members]"))
      first
    ∙ ap (λ s. parse_line s (codes "[members]"))
        (setting_lem named (codes "push_url") cfg.push_url
          (refl, (refl, (refl, (refl, (refl, (refl, (refl, (refl, tt)))))))) p.url_trimmed)
    ∙ members_line (set_value named (codes "push_url") cfg.push_url)

-- A config that is written in the documented format is read back: the parser returns the same user, URL
-- and groups of members.
pub parse-print : (cfg : TeamConfig) → IsPrintable cfg → parse (print cfg) ≡ ok cfg
unfolding parse
parse-print cfg p =
    let read : foldl parse_line no_config (lines_of cfg) ≡ with_members cfg cfg.members =
      ap (λ s. foldl parse_line s (map group_line cfg.members)) (head_lines cfg p)
      ∙ foldl-group_line cfg cfg.members [] p.groups
      ∙ ap (with_members cfg) (foldl-add_group cfg.members [] (All-IsNew cfg.members) p.distinct) in
    let split =
      split_at-join 10 (setting (codes "username") cfg.username)
        (setting (codes "push_url") cfg.push_url ∷ (codes "[members]" ∷ map group_line cfg.members))
        (lines-Lacks cfg p) in
    rw (split, read) (rw (Starts-ne-nil cfg.username p.username_Starts) refl)
