-- ===== src/Insights/Trend/Movers.antt =====
-- The project movers against the events of the two windows.
use codeburn_watcher.Prelude.{
  ℕ, ◌≡◌, ◌≢◌, true, List, Text, text_eq, weight_at, All, any, if◌then◌else◌, ltb, ◌==◌,
}
use codeburn_watcher.Prelude.Int.{sub_ℕ}
use codeburn_watcher.Prelude.Sort.{IsSorted}
use codeburn_watcher.Shared.{StoredEvent, spend}
use codeburn_watcher.Insights.Trend.{ProjectMover, trend_up, trend_down, moves_more}

-- The input and output tokens of a project's events.
abbrev pub spend_at : Text → List StoredEvent → ℕ
spend_at = weight_at (λ ev. ev.project) spend

-- A mover has the spends of its project in the two windows, which differ, and their difference.
pub record IsMover (current previous : List StoredEvent) (mv : ProjectMover) : Type 0 where
  pub current_eq : mv.current ≡ spend_at mv.project current
  pub previous_eq : mv.previous ≡ spend_at mv.project previous
  pub moved : mv.current ≢ mv.previous
  pub delta_eq : mv.delta ≡ sub_ℕ mv.current mv.previous
  pub verdict_eq : mv.verdict ≡ (if ltb mv.current mv.previous then trend_down else trend_up)

-- The list of movers of two windows.
pub record AreMovers (current previous : List StoredEvent) (movers : List ProjectMover)
    : Type 0 where
  pub each : All (IsMover current previous) movers
  pub complete :
      (p : Text)
      → spend_at p current ≢ spend_at p previous
      → any (λ mv. p == mv.project) movers ≡ true
  pub sorted : IsSorted moves_more movers
