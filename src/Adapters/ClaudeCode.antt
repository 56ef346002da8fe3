-- ===== src/Adapters/ClaudeCode.antt =====
-- infrastructure/adapters/claudecode/adapter.go: the session logs of Claude Code.
pub mod Turns
use codeburn_watcher.Prelude.{
  ℕ, ◌+◌, ◌-◌, ◌^◌, ◌≡◌, Bool, true, false, not, ◌&&◌, ◌||◌, Option, none, some, List, [], ◌∷◌,
  ◌++◌, map, foldl, Text, text_eq, nat_eq, codes, any, has_suffix, contains, to_lower, split_at,
  insert_new, length, if◌then◌else◌, ◌==◌, leb, nat_beq,
}
use codeburn_watcher.Prelude.Results.{Result, ok, err}
use codeburn_watcher.Shared.{Source, source_name, claude_code}
use codeburn_watcher.Collection.Event.{UsageEvent}
use codeburn_watcher.Collection.Classifier.{classify}
use codeburn_watcher.Adapters.{
  Visit, Directory, is_skipped, Gathered, nothing, keep, Collected, collected,
}

pub record Usage : Type 0 where
  pub input_tokens : ℕ
  pub output_tokens : ℕ
  pub cache_read_input_tokens : ℕ
  pub cache_creation_input_tokens : ℕ

pub record Message : Type 0 where
  pub role : Text
  pub model : Text
  pub content : Text
  pub usage : Usage

-- A line of a log, as far as the code reads its fields.
pub record LogLine : Type 0 where
  pub uuid : Text
  pub timestamp : Text
  pub session_id : Text
  pub message : Message

pub record ContentBlock : Type 0 where
  pub type_name : Text
  pub name : Text

-- What the adapter calls: json.Unmarshal at the two types, filepath.Base, filepath.Dir and the time.
pub record Calls : Type 0 where
  pub line_of : Text → Option LogLine
  pub blocks_of : Text → Option (List ContentBlock)
  pub base : Text → Text
  pub dir : Text → Text
  pub now : Text

abbrev strip_return : Text → Text
strip_return [] = []
strip_return (c ∷ []) = if nat_beq c 13 then [] else c ∷ []
strip_return (c ∷ (d ∷ s)) = c ∷ strip_return (d ∷ s)

abbrev drop_empty_end : List Text → List Text
drop_empty_end [] = []
drop_empty_end ([] ∷ []) = []
drop_empty_end ((c ∷ s) ∷ []) = (c ∷ s) ∷ []
drop_empty_end (s ∷ (t ∷ ts)) = s ∷ drop_empty_end (t ∷ ts)

-- The scanner's buffer is 1 << 20 bytes: a line that is as long stops it with an error.
abbrev pub buffer_size : ℕ
buffer_size = 2 ^ 20

abbrev pub raw_lines : Text → List Text
raw_lines text = drop_empty_end (split_at 10 text)

abbrev pub is_too_long : Text → Bool
is_too_long line = leb buffer_size (length line)

-- declinedRE: none of its letters folds to one outside ASCII.
abbrev pub is_declined : Text → Bool
is_declined raw =
    any (λ w. contains w (to_lower raw))
      (codes "declined" ∷ codes "rejected" ∷ codes "forbidden" ∷ codes "not allowed" ∷ [])

abbrev pub is_tool_use : ContentBlock → Bool
is_tool_use b = (b.type_name == codes "tool_use") && not (b.name == [])

-- The keys of the set of tool names.
abbrev pub add_tool : List Text → ContentBlock → List Text
add_tool tools b = if is_tool_use b then insert_new (λ t. t) tools b.name else tools

unfoldable pub extract_tools : Calls → Text → List Text × Bool
extract_tools calls raw = elim (calls.blocks_of raw) [
  | none ↦ ([], false)
  | some blocks ↦ (foldl add_tool [] blocks, is_declined raw)
]

abbrev pub total_of : Usage → ℕ
total_of u =
    u.input_tokens + u.output_tokens + u.cache_read_input_tokens + u.cache_creation_input_tokens

abbrev pub timestamp_of : Calls → LogLine → Text
timestamp_of calls line =
    let ts = if line.timestamp == [] then calls.now else line.timestamp in
    if not (has_suffix (codes "Z") ts) && not (contains (codes "+") ts) then ts ++ codes "Z" else ts

abbrev pub event_of_line : Calls → Text → LogLine → UsageEvent
event_of_line calls project line =
    let (tools, is_error) = extract_tools calls line.message.content in
    record {
      source = claude_code;
      session_id = line.session_id;
      event_key = line.uuid;
      project = project;
      branch = [];
      model = line.message.model;
      tools = tools;
      activity = classify tools;
      ts = timestamp_of calls line;
      input_tokens = line.message.usage.input_tokens;
      output_tokens = line.message.usage.output_tokens;
      cache_read_tokens = line.message.usage.cache_read_input_tokens;
      cache_creation_tokens = line.message.usage.cache_creation_input_tokens;
      is_error = is_error;
    }

abbrev pub is_turn : LogLine → Bool
is_turn line = (line.message.role == codes "assistant") && not (total_of line.message.usage == 0)

-- The loop over the lines, and scanner.Err().
unfoldable pub parse_lines : Calls → Text → List Text → Bool × List UsageEvent
parse_lines calls project [] = (false, [])
parse_lines calls project (l ∷ ls) =
    let rest = parse_lines calls project ls in
    if is_too_long l then (true, []) else elim (calls.line_of (strip_return l)) [
      | none ↦ rest
      | some line ↦
          if is_turn line then (rest.0, event_of_line calls project line ∷ rest.1) else rest
    ]

-- The events and whether an error is returned; a file that does not open is an error.
unfoldable pub parse_jsonl : Calls → Text → Option Text → Bool × List UsageEvent
parse_jsonl calls path none = (true, [])
parse_jsonl calls path (some text) =
    parse_lines calls (calls.base (calls.dir path)) (raw_lines text)

abbrev pub full_key : UsageEvent → Text
full_key ev = source_name ev.source ++ (codes "/" ++ ev.event_key)

-- The callback of the walk.
unfoldable pub visit : Calls → Gathered → Visit → Gathered
visit calls g v =
    if is_skipped (codes ".jsonl") v
    then g
    else let (is_error, evs) = parse_jsonl calls v.path v.content in
      if is_error then g else foldl (keep full_key) g evs

unfoldable pub collect : Calls → Directory → Collected
collect calls none = collected claude_code 0 []
collect calls (some visits) =
    let g = foldl (visit calls) nothing visits in collected claude_code g.found g.events
