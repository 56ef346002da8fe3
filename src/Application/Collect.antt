-- ===== src/Application/Collect.antt =====
-- application/collect.go: the collect command, which runs the adapters and writes their events.
pub mod Handled
use codeburn_watcher.Prelude.{
  ℕ, Bool, true, false, not, ◌&&◌, Option, none, some, List, [], ◌∷◌, ◌++◌, map, foldl, Text, codes,
  if◌then◌else◌, ◌==◌, nat_eq, length,
}
use codeburn_watcher.Prelude.Results.{Result, ok, err}
use codeburn_watcher.Shared.{Source, source_eq}
use codeburn_watcher.Collection.Event.{UsageEvent, CollectResult, RawUsageEvent}
use codeburn_watcher.Store.{Engine, Written, write_events}

-- What a call of an adapter's Collect returns.
pub record Report : Type 0 where
  pub events : List UsageEvent
  pub result : CollectResult
  pub error : Option Text

abbrev pub usage_event_to_raw : UsageEvent → RawUsageEvent
usage_event_to_raw e = record {
  source = e.source;
  session_id = e.session_id;
  event_key = e.event_key;
  project = e.project;
  branch = e.branch;
  model = e.model;
  tools = e.tools;
  activity = e.activity;
  ts = e.ts;
  input_tokens = e.input_tokens;
  output_tokens = e.output_tokens;
  cache_read_tokens = e.cache_read_tokens;
  cache_creation_tokens = e.cache_creation_tokens;
  is_error = e.is_error;
}

-- The variables of the loop; a result stands for the UsageEventsCollected with its fields.
pub record Batch : Type 0 where
  pub all_raw : List RawUsageEvent
  pub results : List CollectResult

-- cmd.Source != "" && result.Source != cmd.Source
abbrev pub is_other : Option Source → Source → Bool
is_other none s = false
is_other (some wanted) s = not (s == wanted)

-- The body of the loop over the adapters.
unfoldable pub add_report : Option Source → Batch → Report → Batch
add_report source b r = elim r.error [
  | some m ↦ b
  | none ↦ if is_other source r.result.source then b else record {
    all_raw = b.all_raw ++ map usage_event_to_raw r.events;
    results = b.results ++ (r.result ∷ []);
  }
]

abbrev pub no_batch : Batch
no_batch = record { all_raw = []; results = [] }

-- The database after the command, and what it returns.
pub record Outcome (S : Type 0) : Type 0 where
  pub db : S
  pub answer : Result Text (List CollectResult)

abbrev pub returned : List CollectResult → Option Text → Result Text (List CollectResult)
returned results none = ok results
returned results (some m) = err (codes "writing events: " ++ m)

-- The part after the loop.
unfoldable pub write_batch : {S : Type 0} → Engine S → (List Text → Text) → S → Batch → Outcome S
write_batch e marshal s b =
    if length b.all_raw == 0
    then record { db = s; answer = ok b.results }
    else let w = write_events e marshal s b.all_raw in
      record { db = w.db; answer = returned b.results w.error }

unfoldable pub handle :
    {S : Type 0} → Engine S → (List Text → Text) → Option Source → List Report → S → Outcome S
handle e marshal source reports s =
    write_batch e marshal s (foldl (add_report source) no_batch reports)
