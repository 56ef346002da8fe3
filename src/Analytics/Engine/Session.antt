-- ===== src/Analytics/Engine/Session.antt =====
-- What holds of one session's state after any number of turns.
use codeburn_watcher.Prelude.{
  ℕ, ◌+◌, ◌≤◌, ◌≡◌, List, [], ◌∷◌, arith, length, length-append, sum_by, All,
}
use codeburn_watcher.Shared.{StoredEvent}
use codeburn_watcher.Analytics.Engine.{SessionState, new_session, add_turn}

pub record IsSound (ss : SessionState) : Type 0 where
  pub spend_split : ss.spend_tokens ≡ ss.input_tokens + ss.output_tokens
  pub retry_le : ss.retry_tokens ≤ ss.spend_tokens
  pub cold_le : ss.cold_restart_tokens ≤ ss.input_tokens
  pub errors_le : ss.error_turns ≤ ss.turns
  pub context_turns : length ss.context_per_turn ≡ ss.turns

pub new_session-IsSound : IsSound new_session
new_session-IsSound = omega arith

pub add_turn-IsSound :
    (ts : ℕ) (ev : StoredEvent) (ss : SessionState) → IsSound ss → IsSound (add_turn ts ev ss)
unfolding add_turn
add_turn-IsSound ts ev ss h =
    ground
      (arith, length-append ss.context_per_turn ((ev.input_tokens + ev.cache_read_tokens) ∷ []))

-- Sums over sound sessions keep the order of their summands.
pub retry-le-spend :
    (l : List SessionState)
    → All IsSound l
    → sum_by (λ ss. ss.retry_tokens) l ≤ sum_by (λ ss. ss.spend_tokens) l
retry-le-spend [] h = omega arith
retry-le-spend (ss ∷ l) h = omega (arith, h.0.retry_le, retry-le-spend l h.1)

pub cold-le-input :
    (l : List SessionState)
    → All IsSound l
    → sum_by (λ ss. ss.cold_restart_tokens) l ≤ sum_by (λ ss. ss.input_tokens) l
cold-le-input [] h = omega arith
cold-le-input (ss ∷ l) h = omega (arith, h.0.cold_le, cold-le-input l h.1)
