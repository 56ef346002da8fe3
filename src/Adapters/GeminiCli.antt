-- ===== src/Adapters/GeminiCli.antt =====
-- infrastructure/adapters/geminicli/adapter.go: the chat logs of the Gemini CLI.
pub mod Numbered
use codeburn_watcher.Prelude.{
  ℕ, ◌+◌, Bool, true, false, not, ◌||◌, Option, none, some, List, [], ◌∷◌, ◌++◌, foldl, Text,
  text_eq, nat_eq, codes, to_lower, ltb, if◌then◌else◌, ◌==◌, length,
}
use codeburn_watcher.Shared.{gemini_cli}
use codeburn_watcher.Collection.Event.{UsageEvent}
use codeburn_watcher.Collection.Classifier.{classify}
use codeburn_watcher.Adapters.{
  Visit, Directory, readable, Collected, collected, blank_event, Gathered, is_seen, nothing,
}

-- An entry of a chat, as far as the code reads its fields.
pub record ChatEntry : Type 0 where
  pub role : Text
  pub project : Text
  pub input_token_count : ℕ
  pub output_token_count : ℕ
  pub model : Text
  pub prompt_token_count : ℕ
  pub candidates_token_count : ℕ

-- What the adapter calls: json.Unmarshal, the file's name without .json, the name of its directory,
-- strconv.Itoa and the time.
pub record Calls : Type 0 where
  pub entries_of : Text → Option (List ChatEntry)
  pub name : Text → Text
  pub dir_name : Text → Text
  pub itoa : ℕ → Text
  pub now : Text

unfoldable pub token_counts : ChatEntry → ℕ × ℕ
token_counts e =
    if ltb 0 e.input_token_count || ltb 0 e.output_token_count
    then (e.input_token_count, e.output_token_count)
    else (e.prompt_token_count, e.candidates_token_count)

abbrev pub model_from_entry : ChatEntry → Text
model_from_entry e = if not (e.model == []) then e.model else codes "gemini-2.0-flash"

abbrev pub is_model : ChatEntry → Bool
is_model e = to_lower e.role == codes "model"

abbrev pub key_at : Calls → Text → ℕ → Text
key_at calls path idx = calls.name path ++ (codes "/" ++ calls.itoa idx)

abbrev pub entry_event : Calls → Text → ChatEntry → ℕ → UsageEvent
entry_event calls path e idx =
    let (input, output) = token_counts e in
    record (blank_event gemini_cli) {
      session_id = calls.name path;
      event_key = key_at calls path idx;
      project = if e.project == [] then calls.dir_name path else e.project;
      model = model_from_entry e;
      activity = classify [];
      ts = calls.now;
      input_tokens = input;
      output_tokens = output;
    }

-- The variables of Collect: those of the loop that skips what it has seen, and idx.
pub record State : Type 0 where
  pub gathered : Gathered
  pub idx : ℕ

-- The body of the loop over the entries.
unfoldable pub add_entry : Calls → Text → State → ChatEntry → State
add_entry calls path s e =
    let (input, output) = token_counts e in
    if not (is_model e)
    then s
    else if input + output == 0
    then s
    else let idx = s.idx + 1 in
      let key = key_at calls path idx in
      let g = s.gathered in
      record {
        gathered = if is_seen key g then record g { found = g.found + 1 } else record {
          seen = key ∷ g.seen;
          events = g.events ++ (entry_event calls path e idx ∷ []);
          found = g.found + 1;
        };
        idx = idx;
      }

unfoldable pub add_file : Calls → State → Text × Text → State
add_file calls s file = elim (calls.entries_of file.1) [
  | none ↦ s
  | some entries ↦ foldl (add_entry calls file.0) s entries
]

unfoldable pub collect : Calls → Directory → Collected
collect calls none = collected gemini_cli 0 []
collect calls (some visits) =
    let s =
      foldl (add_file calls) (record { gathered = nothing; idx = 0 })
        (readable (codes ".json") visits) in
    collected gemini_cli s.gathered.found s.gathered.events
