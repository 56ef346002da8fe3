-- ===== src/Adapters/Cursor.antt =====
-- infrastructure/adapters/cursor/adapter.go: the workspace databases of Cursor.
use codeburn_watcher.Prelude.{◌≡◌, refl, ◌∙◌, List, [], ◌∷◌, Option, none, some, foldl, Text, ap}
use codeburn_watcher.Shared.{cursor}
use codeburn_watcher.Collection.Event.{UsageEvent}
use codeburn_watcher.Adapters.{Gathered, nothing, keep, Collected, collected}

abbrev pub key_of : UsageEvent → Text
key_of ev = ev.event_key

unfoldable pub parse_cursor_value : Text → List UsageEvent
parse_cursor_value value = []

-- The values that the query on a copy of a database gives, `none` where copying, opening or querying
-- fails; a value that does not scan is not among them.
abbrev pub Database : Type 0
Database = Option (List Text)

unfoldable pub add_value : Gathered → Text → Gathered
add_value g value = foldl (keep key_of) g (parse_cursor_value value)

unfoldable pub add_database : Gathered → Database → Gathered
add_database g none = g
add_database g (some values) = foldl add_value g values

unfoldable pub collect : List Database → Collected
collect databases =
    let g = foldl add_database nothing databases in collected cursor g.found g.events

-- parse_cursor_value is empty, so no value adds an event.
pub foldl-add_value : (g : Gathered) (values : List Text) → foldl add_value g values ≡ g
unfolding add_value parse_cursor_value
foldl-add_value g [] = refl
foldl-add_value g (v ∷ vs) = foldl-add_value g vs

pub foldl-add_database :
    (g : Gathered) (databases : List Database) → foldl add_database g databases ≡ g
unfolding add_database
foldl-add_database g [] = refl
foldl-add_database g (none ∷ ds) = foldl-add_database g ds
foldl-add_database g (some values ∷ ds) =
    ap (λ h. foldl add_database h ds) (foldl-add_value g values) ∙ foldl-add_database g ds
