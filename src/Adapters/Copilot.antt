-- ===== src/Adapters/Copilot.antt =====
-- infrastructure/adapters/copilot/adapter.go: the chat sessions of Copilot, whose tokens are estimated.
pub mod Sessions
use codeburn_watcher.Prelude.{
  ℕ, ◌+◌, ◌/◌, Bool, true, false, Option, none, some, List, [], ◌∷◌, ◌++◌, foldl, Text, text_eq,
  nat_eq, codes, to_lower, length, ltb, if◌then◌else◌, ◌==◌,
}
use codeburn_watcher.Shared.{copilot}
use codeburn_watcher.Collection.Event.{UsageEvent}
use codeburn_watcher.Collection.Classifier.{classify}
use codeburn_watcher.Adapters.{Visit, Directory, readable, Collected, collected, blank_event}

pub record Turn : Type 0 where
  pub role : Text
  pub content : Text
  pub ts : ℕ

pub record Session : Type 0 where
  pub request_id : Text
  pub model : Text
  pub project : Text
  pub turns : List Turn

-- What the adapter calls: json.Unmarshal, filepath.Base, the time of a Unix time in milliseconds and the
-- time of the call, in RFC 3339.
pub record Calls : Type 0 where
  pub session_of : Text → Option Session
  pub base : Text → Text
  pub time_of : ℕ → Text
  pub now : Text

unfoldable pub estimate_tokens : Text → ℕ
estimate_tokens s = if length s == 0 then 0 else (length s + 3) / 4

-- The variables of the loop over the turns.
pub record Totals : Type 0 where
  pub input : ℕ
  pub output : ℕ
  pub last_ts : ℕ

unfoldable pub count_turn : Totals → Turn → Totals
count_turn s t =
    let role = to_lower t.role in
    let last = if ltb s.last_ts t.ts then t.ts else s.last_ts in
    if role == codes "user"
    then record s { input = s.input + estimate_tokens t.content; last_ts = last }
    else if role == codes "assistant"
    then record s { output = s.output + estimate_tokens t.content; last_ts = last }
    else record s { last_ts = last }

abbrev pub no_totals : Totals
no_totals = record { input = 0; output = 0; last_ts = 0 }

abbrev pub session_name : Calls → Text → Session → Text
session_name calls path session =
    if session.request_id == [] then calls.base path else session.request_id

abbrev pub session_event : Calls → Text → Session → Totals → UsageEvent
session_event calls path session s = record (blank_event copilot) {
  session_id = session_name calls path session;
  event_key = session_name calls path session;
  project = session.project;
  model = session.model;
  activity = classify [];
  ts = if s.last_ts == 0 then calls.now else calls.time_of s.last_ts;
  input_tokens = s.input;
  output_tokens = s.output;
}

pub record State : Type 0 where
  pub events : List UsageEvent
  pub found : ℕ

-- The rest of the callback, after json.Unmarshal.
unfoldable pub add_session : Calls → Text → State → Session → State
add_session calls path s session =
    let totals = foldl count_turn no_totals session.turns in
    record {
      events =
          if totals.input + totals.output == 0
          then s.events
          else s.events ++ (session_event calls path session totals ∷ []);
      found = s.found + 1;
    }

unfoldable pub add_file : Calls → State → Text × Text → State
add_file calls s file = elim (calls.session_of file.1) [
  | none ↦ s
  | some session ↦ add_session calls file.0 s session
]

unfoldable pub collect : Calls → Directory → Collected
collect calls none = collected copilot 0 []
collect calls (some visits) =
    let s =
      foldl (add_file calls) (record { events = []; found = 0 })
        (readable (codes ".json") visits) in
    collected copilot s.found s.events
