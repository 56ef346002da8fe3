-- ===== src/Tests/AdapterRuns.antt =====
-- The theorems on infrastructure/adapters at a concrete input.
use codeburn_watcher.Prelude.{
  ℕ, zero, suc, ◌+◌, ◌*◌, ◌≤◌, ◌≡◌, ◌≢◌, refl, ap, false, Option, none, some, List, [], ◌∷◌, ◌++◌,
  map, arith, Text, codes, length, select, any, All, firsts_by, HasDistinct, text_eq, nat_eq,
  nat_beq, sum_by, if◌then◌else◌, ◌==◌, split_at,
}
use codeburn_watcher.Adapters.{Visit, readable, event_tokens, keep}
use codeburn_watcher.Adapters.ClaudeCode
use codeburn_watcher.Adapters.ClaudeCode.Turns
use codeburn_watcher.Adapters.Codex
use codeburn_watcher.Adapters.Codex.Deltas
use codeburn_watcher.Adapters.Antigravity
use codeburn_watcher.Adapters.Antigravity.Steps
use codeburn_watcher.Adapters.Copilot
use codeburn_watcher.Adapters.Copilot.Sessions
use codeburn_watcher.Adapters.GeminiCli
use codeburn_watcher.Adapters.GeminiCli.Numbered

abbrev file : Text → Text → Visit
file path text = record { path = path; is_failed = false; is_dir = false; content = some text }

-- A log of two equal lines and one that does not decode.
abbrev claude_visits : List Visit
claude_visits =
    file (codes "a.jsonl") (codes "x" ++ (10 ∷ (codes "x" ++ (10 ∷ codes "?"))))
    ∷ file (codes "b.txt") (codes "x")
    ∷ []

abbrev claude_line : ClaudeCode.LogLine
claude_line = record {
  uuid = codes "u";
  timestamp = codes "2026-01-01T00:00:00";
  session_id = codes "s";
  message = record {
    role = codes "assistant";
    model = codes "m";
    content = codes "declined";
    usage = record {
      input_tokens = 1;
      output_tokens = 2;
      cache_read_input_tokens = 0;
      cache_creation_input_tokens = 0;
    };
  };
}

abbrev claude_calls : ClaudeCode.Calls
claude_calls = record {
  line_of = λ t. if t == codes "x" then some claude_line else none;
  blocks_of = λ t. some (record { type_name = codes "tool_use"; name = codes "Bash" } ∷ []);
  base = λ t. t;
  dir = λ t. t;
  now = codes "2026-01-01T00:00:00Z";
}

collect-turns_example :
    let c = ClaudeCode.collect claude_calls (some claude_visits) in
    (c.events ≡ firsts_by ClaudeCode.full_key (Turns.turns claude_calls claude_visits))
    × HasDistinct ClaudeCode.full_key c.events
    × All (λ ev. event_tokens ev ≢ 0) c.events
    × (c.result.found ≡ length (Turns.turns claude_calls claude_visits))
    × (c.result.inserted ≡ length c.events)
collect-turns_example = Turns.collect-turns claude_calls claude_visits

-- The log counts two turns and gives one event.
claude_counts :
    let c = ClaudeCode.collect claude_calls (some claude_visits) in
    (c.result.found ≡ 2) × (c.result.inserted ≡ 1)
unfolding ClaudeCode.collect ClaudeCode.visit ClaudeCode.parse_jsonl ClaudeCode.parse_lines
    ClaudeCode.extract_tools keep split_at
claude_counts = (refl, refl)

abbrev codex_event : ℕ → ℕ → Codex.CodexEvent
codex_event input output = record {
  id = codes "e";
  model = codes "m";
  project = codes "p";
  session_id = codes "s";
  timestamp = 0;
  total_input = input;
  total_output = output;
  tools = [];
  is_error = false;
}

-- The first byte of a line is its input counter, and the second its output counter.
abbrev codex_line : Text → Option Codex.CodexEvent
codex_line [] = none
codex_line (i ∷ []) = none
codex_line (i ∷ (o ∷ t)) = some (codex_event i o)

abbrev codex_calls : Codex.Calls
codex_calls = record { event_of = codex_line; time_of = λ n. codes "2026-01-01T00:00:00Z" }

abbrev codex_visits : List Visit
codex_visits = file (codes "a.jsonl") (50 ∷ 60 ∷ 10 ∷ 70 ∷ 60 ∷ 10 ∷ 40 ∷ 61 ∷ []) ∷ []

abbrev codex_found : List Codex.CodexEvent
codex_found = Deltas.file_events codex_calls (readable (codes ".jsonl") codex_visits)

collect-increases_example :
    let evs = (Codex.collect codex_calls (some codex_visits)).events in
    let inputs = Deltas.readings codex_calls (λ e. e.total_input) (codes "s") codex_found in
    let outputs = Deltas.readings codex_calls (λ e. e.total_output) (codes "s") codex_found in
    (sum_by (λ ev. Deltas.of_session codex_calls (codes "s") ev.session_id ev.input_tokens) evs
      ≡ Deltas.increases 0 inputs)
    × (sum_by (λ ev. Deltas.of_session codex_calls (codes "s") ev.session_id ev.output_tokens) evs
        ≡ Deltas.increases 0 outputs)
    × (Deltas.IsRising 0 inputs → Deltas.increases 0 inputs ≡ Deltas.last_of 0 inputs)
    × (Deltas.IsRising 0 outputs → Deltas.increases 0 outputs ≡ Deltas.last_of 0 outputs)
collect-increases_example = Deltas.collect-increases codex_calls (codes "s") codex_visits

abbrev one_file : List Visit
one_file = file (codes "a.json") (codes "x") ∷ []

abbrev steps_log : Antigravity.Log
steps_log = record {
  session_id = codes "s";
  project = codes "p";
  model = codes "m";
  steps =
      record {
        id = codes "1";
        type_name = codes "gen";
        timestamp_ms = 0;
        input_tokens = 0;
        output_tokens = 0;
        is_error = false;
      }
      ∷ record {
        id = codes "1";
        type_name = codes "step";
        timestamp_ms = 0;
        input_tokens = 5;
        output_tokens = 1;
        is_error = false;
      }
      ∷ record {
        id = codes "1";
        type_name = codes "read";
        timestamp_ms = 0;
        input_tokens = 7;
        output_tokens = 1;
        is_error = false;
      }
      ∷ [];
}

abbrev step_calls : Antigravity.Calls
step_calls = record { log_of = λ t. some steps_log; time_of = λ n. [] }

collect-steps_example :
    let c = Antigravity.collect step_calls (some one_file) in
    let ls = Steps.logs step_calls (readable (codes ".json") one_file) in
    (c.events ≡ firsts_by Steps.key_of (Steps.all_events step_calls ls))
    × HasDistinct Steps.key_of c.events
    × (c.result.found ≡ sum_by (λ log. length log.steps) ls)
    × (c.result.inserted ≡ length c.events)
collect-steps_example = Steps.collect-steps step_calls one_file

abbrev chat : Copilot.Session
chat = record {
  request_id = [];
  model = codes "m";
  project = codes "p";
  turns =
      record { role = codes "User"; content = codes "hello"; ts = 2 }
      ∷ record { role = codes "assistant"; content = codes "hi"; ts = 1 }
      ∷ [];
}

abbrev chat_calls : Copilot.Calls
chat_calls = record { session_of = λ t. some chat; base = λ t. t; time_of = λ n. n ∷ []; now = [] }

collect-sessions_example :
    let c = Copilot.collect chat_calls (some one_file) in
    let found = Sessions.sessions chat_calls (readable (codes ".json") one_file) in
    (c.events ≡ map (Sessions.event_of chat_calls) (select (Sessions.has_text chat_calls) found))
    × (c.result.found ≡ length found)
    × (c.result.inserted ≡ length c.events)
    × ((s : Text)
        → (length s ≤ 4 * Copilot.estimate_tokens s)
          × (4 * Copilot.estimate_tokens s ≤ length s + 3))
collect-sessions_example = Sessions.collect-sessions chat_calls one_file

abbrev entry : ℕ → GeminiCli.ChatEntry
entry n = record {
  role = codes "Model";
  project = [];
  input_token_count = 0;
  output_token_count = 0;
  model = [];
  prompt_token_count = n;
  candidates_token_count = 1;
}

-- Numbers in unary.
abbrev ones : ℕ → Text
ones zero = []
ones (suc n) = b'1' ∷ ones n

ones-digits : (n : ℕ) → any (λ c. nat_beq c b'/') (ones n) ≡ false
ones-digits zero = refl
ones-digits (suc n) = ones-digits n

length-ones : (n : ℕ) → length (ones n) ≡ n
length-ones zero = refl
length-ones (suc n) = ap (λ m. suc m) (length-ones n)

ones-injective : (m n : ℕ) → ones m ≡ ones n → m ≡ n
ones-injective m n h = omega (arith, length-ones m, length-ones n, ap length h)

abbrev gemini_calls : GeminiCli.Calls
gemini_calls = record {
  entries_of = λ t. some (entry 3 ∷ entry 4 ∷ []);
  name = λ t. t;
  dir_name = λ t. t;
  itoa = ones;
  now = [];
}

collect-numbered_example :
    let c = GeminiCli.collect gemini_calls (some one_file) in
    let ts = Numbered.turns gemini_calls (readable (codes ".json") one_file) in
    (c.events ≡ Numbered.numbered gemini_calls 0 ts)
    × (c.result.found ≡ length ts)
    × (c.result.inserted ≡ length c.events)
collect-numbered_example =
    Numbered.collect-numbered gemini_calls
      (record { digits = ones-digits; injective = ones-injective }) one_file
