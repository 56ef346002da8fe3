-- ===== src/Collection/Event.antt =====
-- internal/collection/usage_event.go and internal/shared/ports/event_writer.go: the event that an
-- adapter produces and the event that the store takes.
use codeburn_watcher.Prelude.{ℕ, Bool, List, Text}
use codeburn_watcher.Shared.{Source, Activity}

pub record UsageEvent : Type 0 where
  pub source : Source
  pub session_id : Text
  pub event_key : Text
  pub project : Text
  pub branch : Text
  pub model : Text
  pub tools : List Text
  pub activity : Activity
  pub ts : Text
  pub input_tokens : ℕ
  pub output_tokens : ℕ
  pub cache_read_tokens : ℕ
  pub cache_creation_tokens : ℕ
  pub is_error : Bool

pub record CollectResult : Type 0 where
  pub source : Source
  pub found : ℕ
  pub inserted : ℕ

pub record DeduplicationKey : Type 0 where
  pub source : Source
  pub event_key : Text

-- The event that the store's port takes.
pub record RawUsageEvent : Type 0 where
  pub source : Source
  pub session_id : Text
  pub event_key : Text
  pub project : Text
  pub branch : Text
  pub model : Text
  pub tools : List Text
  pub activity : Activity
  pub ts : Text
  pub input_tokens : ℕ
  pub output_tokens : ℕ
  pub cache_read_tokens : ℕ
  pub cache_creation_tokens : ℕ
  pub is_error : Bool
