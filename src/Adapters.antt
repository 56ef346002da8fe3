-- ===== src/Adapters.antt =====
-- infrastructure/adapters: the adapters that read the logs of the tools. What they share: the files that
-- filepath.Walk visits, the loop that skips the events whose keys it has seen, and the zero values.
pub mod Seen
pub mod ClaudeCode
pub mod Codex
pub mod Copilot
pub mod GeminiCli
pub mod Antigravity
pub mod Cursor
use codeburn_watcher.Prelude.{
  ℕ, ◌+◌, ◌≡◌, Bool, true, false, not, ◌&&◌, ◌||◌, Option, none, some, List, [], ◌∷◌, ◌++◌, map,
  Text, text_eq, codes, any, has_suffix, length, if◌then◌else◌, ◌==◌,
}
use codeburn_watcher.Shared.{Source, Activity, thinking}
use codeburn_watcher.Collection.Event.{UsageEvent, CollectResult}

-- A call of the function that filepath.Walk is given: whether its error is set, whether the path is a
-- directory, and what reading the file gives, `none` for an error.
pub record Visit : Type 0 where
  pub path : Text
  pub is_failed : Bool
  pub is_dir : Bool
  pub content : Option Text

-- A log directory: `none` where os.Stat says that it does not exist.
abbrev pub Directory : Type 0
Directory = Option (List Visit)

-- The test at the head of each callback.
abbrev pub is_skipped : Text → Visit → Bool
is_skipped suffix v = v.is_failed || v.is_dir || not (has_suffix suffix v.path)

-- The paths and contents of the files that a callback reads.
abbrev pub readable : Text → List Visit → List (Text × Text)
readable suffix [] = []
readable suffix (v ∷ vs) =
    let rest = readable suffix vs in
    if is_skipped suffix v
    then rest
    else elim v.content [ none ↦ rest | some text ↦ (v.path, text) ∷ rest ]

-- The variables of the loops that skip what they have seen.
pub record Gathered : Type 0 where
  pub seen : List Text
  pub events : List UsageEvent
  pub found : ℕ

abbrev pub nothing : Gathered
nothing = record { seen = []; events = []; found = 0 }

abbrev pub is_seen : Text → Gathered → Bool
is_seen k g = any (λ j. k == j) g.seen

-- if !seen[key] { seen[key] = true; events = append(events, e) }
unfoldable pub keep : (UsageEvent → Text) → Gathered → UsageEvent → Gathered
keep key g ev =
    if is_seen (key ev) g
    then record g { found = g.found + 1 }
    else record { seen = key ev ∷ g.seen; events = g.events ++ (ev ∷ []); found = g.found + 1 }

-- What Collect returns, its error being nil.
pub record Collected : Type 0 where
  pub events : List UsageEvent
  pub result : CollectResult

abbrev pub collected : Source → ℕ → List UsageEvent → Collected
collected source found events = record {
  events = events;
  result = record { source = source; found = found; inserted = length events };
}

-- An event with the zero values in all fields but the source.
abbrev pub blank_event : Source → UsageEvent
blank_event source = record {
  source = source;
  session_id = [];
  event_key = [];
  project = [];
  branch = [];
  model = [];
  tools = [];
  activity = thinking;
  ts = [];
  input_tokens = 0;
  output_tokens = 0;
  cache_read_tokens = 0;
  cache_creation_tokens = 0;
  is_error = false;
}

-- The tokens of an event.
abbrev pub event_tokens : UsageEvent → ℕ
event_tokens ev =
    ev.input_tokens + ev.output_tokens + ev.cache_read_tokens + ev.cache_creation_tokens
