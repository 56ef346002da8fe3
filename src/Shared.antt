-- ===== src/Shared.antt =====
-- internal/shared/event.go and internal/shared/ports/event_writer.go: the sources, the activities and
-- the event record that all components read.
use codeburn_watcher.Prelude.{
  ◌↔◌, text_eq, ℕ, ◌+◌, ◌≡◌, Bool, true, false, List, [], ◌∷◌, arith, Text, KeyEq, codes,
}

pub data Source : Type 0 where
  claude_code gemini_cli codex copilot cursor antigravity : Source

pub data Activity : Type 0 where
  thinking exploration coding testing shipping conversation : Activity

abbrev pub activities : List Activity
activities = thinking ∷ exploration ∷ coding ∷ testing ∷ shipping ∷ conversation ∷ []

-- Token counts are Go ints that no log makes negative, so they are numbers.
pub record StoredEvent : Type 0 where
  pub source : Source
  pub session_id : Text
  pub event_key : Text
  pub project : Text
  pub branch : Text
  pub model : Text
  pub tools : List Text
  pub activity : Activity
  pub ts : Text
  pub input_tokens : ℕ
  pub output_tokens : ℕ
  pub cache_read_tokens : ℕ
  pub cache_creation_tokens : ℕ
  pub is_error : Bool

-- The sums of token counts that the components form of an event.
abbrev pub spend : StoredEvent → ℕ
spend ev = ev.input_tokens + ev.output_tokens

abbrev pub all_tokens : StoredEvent → ℕ
all_tokens ev = ev.input_tokens + ev.output_tokens + ev.cache_read_tokens + ev.cache_creation_tokens

abbrev pub activity_beq : Activity → Activity → Bool
activity_beq thinking thinking = true
activity_beq exploration exploration = true
activity_beq coding coding = true
activity_beq testing testing = true
activity_beq shipping shipping = true
activity_beq conversation conversation = true
activity_beq _ _ = false

pub activity_beq_iff :
    (a b : Activity) → (activity_beq a b ≡ true → a ≡ b) × (a ≡ b → activity_beq a b ≡ true)
activity_beq_iff a b = ground arith

instance abbrev pub activity_eq : KeyEq Activity
activity_eq = record { beq = activity_beq; beq_iff = activity_beq_iff }

-- The strings that name the sources.
abbrev pub source_name : Source → Text
source_name claude_code = codes "claude-code"
source_name gemini_cli = codes "gemini-cli"
source_name codex = codes "codex"
source_name copilot = codes "copilot"
source_name cursor = codes "cursor"
source_name antigravity = codes "antigravity"

abbrev pub source_beq : Source → Source → Bool
source_beq a b = text_eq.beq (source_name a) (source_name b)

pub source_beq_iff : (a b : Source) → (source_beq a b ≡ true) ↔ (a ≡ b)
source_beq_iff a b = ground arith

instance abbrev pub source_eq : KeyEq Source
source_eq = record { beq = source_beq; beq_iff = source_beq_iff }

-- An event with the given session, model and activity, of `n` input tokens: test data.
abbrev pub sample_event : Text → Text → Activity → Text → ℕ → Bool → StoredEvent
sample_event session model act ts n is_error = record {
  source = claude_code;
  session_id = session;
  event_key = codes "k";
  project = codes "p";
  branch = [];
  model = model;
  tools = [];
  activity = act;
  ts = ts;
  input_tokens = n;
  output_tokens = 10;
  cache_read_tokens = 5;
  cache_creation_tokens = 0;
  is_error = is_error;
}
