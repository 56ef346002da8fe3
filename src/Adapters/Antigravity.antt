-- ===== src/Adapters/Antigravity.antt =====
-- infrastructure/adapters/antigravity/adapter.go: the step logs of Antigravity.
pub mod Steps
use codeburn_watcher.Prelude.{
  ℕ, ◌+◌, Bool, true, false, Option, none, some, List, [], ◌∷◌, ◌++◌, foldl, Text, text_eq, nat_eq,
  codes, length, if◌then◌else◌, ◌==◌,
}
use codeburn_watcher.Shared.{antigravity}
use codeburn_watcher.Collection.Event.{UsageEvent}
use codeburn_watcher.Collection.Classifier.{classify}
use codeburn_watcher.Adapters.{
  Visit, Directory, readable, Gathered, nothing, is_seen, Collected, collected,
}

pub record Step : Type 0 where
  pub id : Text
  pub type_name : Text
  pub timestamp_ms : ℕ
  pub input_tokens : ℕ
  pub output_tokens : ℕ
  pub is_error : Bool

pub record Log : Type 0 where
  pub session_id : Text
  pub project : Text
  pub model : Text
  pub steps : List Step

-- What the adapter calls: json.Unmarshal, and the time of a Unix time in milliseconds, in RFC 3339.
pub record Calls : Type 0 where
  pub log_of : Text → Option Log
  pub time_of : ℕ → Text

-- stepTools
abbrev pub step_tools : Text → List Text
step_tools type_name =
    if type_name == codes "gen"
    then codes "Write" ∷ []
    else if type_name == codes "step"
    then codes "Bash" ∷ []
    else if type_name == codes "read"
    then codes "Read" ∷ []
    else if type_name == codes "search"
    then codes "WebSearch" ∷ []
    else []

abbrev pub step_event : Calls → Log → Step → UsageEvent
step_event calls log step = record {
  source = antigravity;
  session_id = log.session_id;
  event_key = step.id;
  project = log.project;
  branch = [];
  model = log.model;
  tools = step_tools step.type_name;
  activity = classify (step_tools step.type_name);
  ts = calls.time_of step.timestamp_ms;
  input_tokens = step.input_tokens;
  output_tokens = step.output_tokens;
  cache_read_tokens = 0;
  cache_creation_tokens = 0;
  is_error = step.is_error;
}

-- The body of the loop over the steps.
unfoldable pub add_step : Calls → Log → Gathered → Step → Gathered
add_step calls log g step =
    let counted = record g { found = g.found + 1 } in
    if is_seen step.id g
    then counted
    else if step.input_tokens + step.output_tokens == 0
    then counted
    else record {
      seen = step.id ∷ g.seen;
      events = g.events ++ (step_event calls log step ∷ []);
      found = g.found + 1;
    }

unfoldable pub add_file : Calls → Gathered → Text × Text → Gathered
add_file calls g file = elim (calls.log_of file.1) [
  | none ↦ g
  | some log ↦ foldl (add_step calls log) g log.steps
]

unfoldable pub collect : Calls → Directory → Collected
collect calls none = collected antigravity 0 []
collect calls (some visits) =
    let g = foldl (add_file calls) nothing (readable (codes ".json") visits) in
    collected antigravity g.found g.events
