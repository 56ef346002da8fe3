-- ===== src/Collection/Classifier.antt =====
-- internal/collection/classifier.go: the activity of a turn, from the names of its tools.
pub mod Priority
use codeburn_watcher.Prelude.{
  ℕ, Bool, true, false, not, ◌&&◌, ◌||◌, List, [], ◌∷◌, map, foldl, Text, text_eq, codes,
  has_prefix, contains, to_lower, trim_space, join, any, if◌then◌else◌, ◌==◌,
}
use codeburn_watcher.Shared.{
  Activity, thinking, exploration, coding, testing, shipping, conversation,
}

abbrev pub write_tools : List Text
write_tools =
    codes "write_file"
    ∷ codes "edit_file"
    ∷ codes "create_file"
    ∷ codes "str_replace_editor"
    ∷ codes "str_replace_based_edit_tool"
    ∷ codes "multiedit"
    ∷ codes "insert_edit_into_file"
    ∷ codes "text_editor_20250429"
    ∷ codes "text_editor_20241022"
    ∷ codes "computer_20250124"
    ∷ []

abbrev pub shell_tools : List Text
shell_tools =
    codes "bash"
    ∷ codes "execute_command"
    ∷ codes "run_command"
    ∷ codes "shell"
    ∷ codes "terminal"
    ∷ codes "execute_bash"
    ∷ codes "computer"
    ∷ []

abbrev pub read_tools : List Text
read_tools =
    codes "read_file"
    ∷ codes "view_file"
    ∷ codes "cat"
    ∷ codes "list_directory"
    ∷ codes "ls"
    ∷ codes "find_files"
    ∷ codes "glob"
    ∷ codes "grep"
    ∷ codes "search_files"
    ∷ codes "codebase_search"
    ∷ codes "file_search"
    ∷ []

abbrev pub plan_tools : List Text
plan_tools = codes "todowrite" ∷ codes "todoupdate" ∷ codes "task" ∷ codes "plan" ∷ []

abbrev pub interactive_tools : List Text
interactive_tools =
    codes "web_search" ∷ codes "browser_action" ∷ codes "web_fetch" ∷ codes "mcp__" ∷ []

-- A lookup in one of these sets.
unfoldable pub is_in : List Text → Text → Bool
is_in set t = any (λ s. t == s) set

-- The alternatives of testRE. The expressions are not anchored, so a match is the occurrence of one of
-- the alternatives; the text is in lower case already, so (?i) changes nothing on ASCII.
abbrev pub test_words : List Text
test_words =
    codes "test"
    ∷ codes "spec"
    ∷ codes "jest"
    ∷ codes "pytest"
    ∷ codes "go test"
    ∷ codes "cargo test"
    ∷ codes "rspec"
    ∷ codes "mocha"
    ∷ codes "vitest"
    ∷ codes "bun test"
    ∷ []

-- The alternatives of shipRE, its inner groups multiplied out.
abbrev pub ship_words : List Text
ship_words =
    codes "git commit"
    ∷ codes "git push"
    ∷ codes "git tag"
    ∷ codes "npm publish"
    ∷ codes "npm pack"
    ∷ codes "cargo publish"
    ∷ codes "deploy"
    ∷ codes "release"
    ∷ codes "docker build"
    ∷ codes "docker push"
    ∷ codes "kubectl apply"
    ∷ []

-- MatchString
unfoldable pub has_word : List Text → Text → Bool
has_word words s = any (λ w. contains w s) words

unfoldable pub norm : Text → Text
norm s = to_lower (trim_space s)

pub record Flags : Type 0 where
  pub has_shell : Bool
  pub has_write : Bool
  pub has_plan : Bool
  pub has_read : Bool
  pub has_interactive : Bool

abbrev pub no_flags : Flags
no_flags = record {
  has_shell = false;
  has_write = false;
  has_plan = false;
  has_read = false;
  has_interactive = false;
}

abbrev pub is_interactive : Text → Bool
is_interactive t = is_in interactive_tools t || has_prefix (codes "mcp__") t

-- The first switch: a tool sets one flag at most.
unfoldable pub flag_tool : Flags → Text → Flags
flag_tool f t =
    if is_in shell_tools t
    then record f { has_shell = true }
    else if is_in write_tools t
    then record f { has_write = true }
    else if is_in plan_tools t
    then record f { has_plan = true }
    else if is_in read_tools t
    then record f { has_read = true }
    else if is_interactive t
    then record f { has_interactive = true }
    else f

-- The second switch.
unfoldable pub choose : Flags → Text → Activity
choose f joined =
    if f.has_shell && has_word test_words joined
    then testing
    else if f.has_shell && has_word ship_words joined
    then shipping
    else if f.has_shell
    then coding
    else if f.has_write
    then coding
    else if f.has_plan
    then exploration
    else if f.has_read && not f.has_interactive
    then exploration
    else if f.has_interactive
    then conversation
    else exploration

unfoldable pub classify : List Text → Activity
classify [] = thinking
classify (t ∷ ts) =
    let normed = map norm (t ∷ ts) in
    choose (foldl flag_tool no_flags normed) (join (codes " ") normed)
