-- ===== src/Adapters/Codex.antt =====
-- infrastructure/adapters/codex/adapter.go: the logs of Codex, whose counters are cumulative.
pub mod Deltas
use codeburn_watcher.Prelude.{
  ℕ, ◌+◌, ◌-◌, Bool, true, false, Option, none, some, List, [], ◌∷◌, ◌++◌, foldl, Text, text_eq,
  nat_eq, codes, Assoc, get_or, insert, split_at, trim_space, length, ltb, if◌then◌else◌, ◌==◌,
}
use codeburn_watcher.Shared.{codex}
use codeburn_watcher.Collection.Event.{UsageEvent}
use codeburn_watcher.Collection.Classifier.{classify}
use codeburn_watcher.Adapters.{Visit, Directory, readable, Collected, collected}

-- A line of a log; `timestamp` is in milliseconds.
pub record CodexEvent : Type 0 where
  pub id : Text
  pub model : Text
  pub project : Text
  pub session_id : Text
  pub timestamp : ℕ
  pub total_input : ℕ
  pub total_output : ℕ
  pub tools : List Text
  pub is_error : Bool

-- What the adapter calls: json.Unmarshal, and the time of a Unix time in milliseconds, in RFC 3339.
pub record Calls : Type 0 where
  pub event_of : Text → Option CodexEvent
  pub time_of : ℕ → Text

-- The variables of Collect.
pub record State : Type 0 where
  pub last_input : Assoc Text ℕ
  pub last_output : Assoc Text ℕ
  pub events : List UsageEvent
  pub found : ℕ

abbrev pub initial : State
initial = record { last_input = []; last_output = []; events = []; found = 0 }

-- total - last, or total where that is negative.
abbrev pub delta : ℕ → ℕ → ℕ
delta last total = if ltb total last then total else total - last

abbrev pub usage_event : Calls → CodexEvent → ℕ → ℕ → UsageEvent
usage_event calls e input output = record {
  source = codex;
  session_id = e.session_id;
  event_key = e.id;
  project = e.project;
  branch = [];
  model = e.model;
  tools = e.tools;
  activity = classify e.tools;
  ts = calls.time_of e.timestamp;
  input_tokens = input;
  output_tokens = output;
  cache_read_tokens = 0;
  cache_creation_tokens = 0;
  is_error = e.is_error;
}

-- The body of the loop over the lines, after json.Unmarshal.
unfoldable pub add_reading : Calls → State → CodexEvent → State
add_reading calls s e =
    let input = delta (get_or 0 e.session_id s.last_input) e.total_input in
    let output = delta (get_or 0 e.session_id s.last_output) e.total_output in
    record {
      last_input = insert e.session_id e.total_input s.last_input;
      last_output = insert e.session_id e.total_output s.last_output;
      events =
          if input + output == 0
          then s.events
          else s.events ++ (usage_event calls e input output ∷ []);
      found = s.found + 1;
    }

unfoldable pub add_line : Calls → State → Text → State
add_line calls s line =
    if trim_space line == []
    then s
    else elim (calls.event_of line) [ none ↦ s | some e ↦ add_reading calls s e ]

unfoldable pub collect : Calls → Directory → Collected
collect calls none = collected codex 0 []
collect calls (some visits) =
    let s =
      foldl (λ t file. foldl (add_line calls) t (split_at 10 file.1)) initial
        (readable (codes ".jsonl") visits) in
    collected codex s.found s.events
