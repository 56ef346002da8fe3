-- ===== src/Tests/CollectionRuns.antt =====
-- The theorems on internal/collection/classifier.go at a concrete input.
use mathlib.Core.Path.{◌≡◌, refl}
use codeburn_watcher.Prelude.{List, [], ◌∷◌, Text, codes, map, join, All}
use codeburn_watcher.Shared.{thinking, shipping}
use codeburn_watcher.Collection.Classifier.{classify, norm, is_in, flag_tool, choose, has_word}
use codeburn_watcher.Collection.Classifier.Priority.{
  flags_of, by_kind, IsUnknown, classify_priority,
}

abbrev tools : List Text
tools = codes " Bash" ∷ codes "run_pytest" ∷ []

classify_priority_example :
    (classify [] ≡ thinking)
    × (classify (codes "edit_file" ∷ tools)
        ≡ by_kind
            (flags_of (map norm (codes "edit_file" ∷ tools)))
            (join (codes " ") (map norm (codes "edit_file" ∷ tools))))
classify_priority_example = classify_priority (codes "edit_file") tools

write-IsUnknown : All IsUnknown (codes "Write" ∷ codes "Edit" ∷ [])
unfolding is_in norm
write-IsUnknown = ((refl, refl, refl, refl), ((refl, refl, refl, refl), tt))

-- A ship word that only the names together hold.
joined_names : classify (codes "bash" ∷ codes "git" ∷ codes "push" ∷ []) ≡ shipping
unfolding classify flag_tool choose is_in has_word norm
joined_names = refl
