-- ===== src/Team/Config.antt =====
-- internal/team/team_config.go: the parser of the team's config. Its regular expressions are functions: on
-- one line without a line feed each of them has at most one way to match that the code can tell apart.
pub mod Print
pub mod Settings
pub mod RoundTrip
use codeburn_watcher.Prelude.{
  ℕ, ◌≡◌, Bool, true, false, not, ◌&&◌, ◌||◌, Option, none, some, List, [], ◌∷◌, ◌++◌, foldl, Text,
  text_eq, nat_eq, codes, Assoc, insert, leb, nat_beq, split_at, trim_space, to_lower, any,
  if◌then◌else◌, ◌==◌,
}
use codeburn_watcher.Prelude.Results.{Result, ok, err}
use codeburn_watcher.Team.Export.{TeamConfig}

-- \s: tab, line feed, form feed, carriage return and blank.
abbrev pub is_blank : ℕ → Bool
is_blank c = nat_beq c 9 || nat_beq c 10 || nat_beq c 12 || nat_beq c 13 || nat_beq c 32

-- \w
abbrev pub is_word : ℕ → Bool
is_word c =
    (leb b'0' c && leb c b'9')
    || (leb b'A' c && leb c b'Z')
    || (leb b'a' c && leb c b'z')
    || nat_beq c b'_'

-- The rest after \s*.
unfoldable pub skip_blanks : Text → Text
skip_blanks [] = []
skip_blanks (c ∷ s) = let rest = skip_blanks s in if is_blank c then rest else c ∷ s

-- \w* and the rest.
unfoldable pub take_word : Text → Text × Text
take_word [] = ([], [])
take_word (c ∷ s) =
    let (word, rest) = take_word s in if is_word c then (c ∷ word, rest) else ([], c ∷ s)

-- reComment: ^\s*[#;]
abbrev starts_comment : Text → Bool
starts_comment [] = false
starts_comment (c ∷ s) = nat_beq c b'#' || nat_beq c b';'

unfoldable pub is_comment : Text → Bool
is_comment line = starts_comment (skip_blanks line)

-- The part of reSection after its opening bracket: (\w+)\]\s*$
unfoldable pub section_name : Text × Text → Option Text
section_name ([], rest) = none
section_name (c ∷ word, []) = none
section_name (c ∷ word, d ∷ rest) =
    if nat_beq d b']' && (skip_blanks rest == []) then some (c ∷ word) else none

-- reSection: ^\s*\[(\w+)\]\s*$
abbrev after_bracket : Text → Option Text
after_bracket [] = none
after_bracket (c ∷ s) = if nat_beq c b'[' then section_name (take_word s) else none

unfoldable pub section_of : Text → Option Text
section_of line = after_bracket (skip_blanks line)

-- What follows the key in reKeyValue, =\s*(.+)$: a byte at least after the equals sign. The value is
-- trimmed, so that the blanks between may count to it.
abbrev pub value_of : Text → Text → Option (Text × Text)
value_of key [] = none
value_of key (e ∷ []) = none
value_of key (e ∷ (c ∷ s)) = if nat_beq e b'=' then some (key, trim_space (c ∷ s)) else none

abbrev pub key_value : Text × Text → Option (Text × Text)
key_value ([], rest) = none
key_value (c ∷ word, rest) = value_of (c ∷ word) (skip_blanks rest)

-- reKeyValue: ^\s*(\w+)\s*=\s*(.+)$, with the key and the value trimmed.
unfoldable pub key_value_of : Text → Option (Text × Text)
key_value_of line = key_value (take_word (skip_blanks line))

-- The loop over the parts between commas.
unfoldable pub members_of : List Text → List Text
members_of [] = []
members_of (u ∷ us) =
    let rest = members_of us in if trim_space u == [] then rest else trim_space u ∷ rest

pub record State : Type 0 where
  pub config : TeamConfig
  pub in_members : Bool

unfoldable pub set_value : State → Text → Text → State
set_value s key val =
    if s.in_members
    then record s {
      config = record (s.config) {
        members = insert key (members_of (split_at b',' val)) (s.config).members;
      };
    }
    else if key == codes "username"
    then record s { config = record (s.config) { username = val } }
    else if key == codes "push_url"
    then record s { config = record (s.config) { push_url = val } }
    else s

-- The body of the loop over the lines.
unfoldable pub parse_line : State → Text → State
parse_line s line =
    if is_comment line || (trim_space line == []) then s else elim (section_of line) [
      | some name ↦ record s { in_members = to_lower name == codes "members" }
      | none ↦ elim (key_value_of line) [ none ↦ s | some (key, val) ↦ set_value s key val ]
    ]

abbrev pub no_config : State
no_config = record {
  config = record { username = []; push_url = []; members = [] };
  in_members = false;
}

unfoldable pub parse : Text → Result Text TeamConfig
parse raw =
    let s = foldl parse_line no_config (split_at 10 raw) in
    if (s.config).username == []
    then err (codes "team config missing required field: username")
    else ok (s.config)
