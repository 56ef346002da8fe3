-- ===== src/Team/Config/Print.antt =====
-- The config in the format that the comment on Parse gives.
use codeburn_watcher.Prelude.{
  Lacks, Ends, Starts, ◌≡◌, true, List, [], ◌∷◌, ◌++◌, map, Text, text_eq, nat_eq, codes, IsMap,
  trim_space, join, All,
}
use codeburn_watcher.Team.Export.{TeamConfig}
use codeburn_watcher.Team.Config.{is_word}

-- A key: word characters, one at least.
abbrev pub IsKey : Text → Type 0
IsKey [] = ⊥
IsKey (c ∷ s) = All (λ d. is_word d ≡ true) (c ∷ s)

abbrev pub setting : Text → Text → Text
setting key val = key ++ (codes " = " ++ val)

-- The members of a group, as they are written.
abbrev pub parts : List Text → List Text
parts [] = [] ∷ []
parts (u ∷ us) = u ∷ map (λ v. 32 ∷ v) us

abbrev pub listed : List Text → Text
listed us = join (codes ",") (parts us)

-- A name that can stand in a list of names.
abbrev pub IsName : Text → Type 0
IsName u = Starts u × Ends u × Lacks 10 u × Lacks b',' u

abbrev pub group_line : Text × List Text → Text
group_line g = setting g.0 (listed g.1)

abbrev pub IsGroup : Text × List Text → Type 0
IsGroup g = IsKey g.0 × All IsName g.1

abbrev pub lines_of : TeamConfig → List Text
lines_of cfg =
    setting (codes "username") cfg.username
    ∷ (setting (codes "push_url") cfg.push_url ∷ (codes "[members]" ∷ map group_line cfg.members))

-- A config in the documented format.
abbrev pub print : TeamConfig → Text
print cfg = join (10 ∷ []) (lines_of cfg)

-- The user has a name, the URL is trimmed, both are on one line, and the members are groups of names, each
-- group once.
pub record IsPrintable (cfg : TeamConfig) : Type 0 where
  pub username_Starts : Starts cfg.username
  pub username_Ends : Ends cfg.username
  pub username_line : Lacks 10 cfg.username
  pub url_trimmed : trim_space cfg.push_url ≡ cfg.push_url
  pub url_line : Lacks 10 cfg.push_url
  pub groups : All IsGroup cfg.members
  pub distinct : IsMap cfg.members
