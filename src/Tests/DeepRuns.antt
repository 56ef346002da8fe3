-- ===== src/Tests/DeepRuns.antt =====
-- The theorems on internal/deepanalysis at a concrete input.
use codeburn_watcher.Prelude.{true, false, List, [], ◌∷◌, Text, codes}
use codeburn_watcher.Prelude.Int.{ℤ}
use codeburn_watcher.Prelude.Float.{Micro, micro_float}
use codeburn_watcher.Shared.{StoredEvent, testing, coding, sample_event}
use codeburn_watcher.DeepAnalysis.Tools.{compute_tool_stats}
use codeburn_watcher.DeepAnalysis.Tools.Counts.{AreToolStats, compute_tool_stats-AreToolStats}
use codeburn_watcher.DeepAnalysis.Sessions.{SessionStat, compute_session_stats}
use codeburn_watcher.DeepAnalysis.Sessions.Stats.{AreStats, compute_session_stats-AreStats}
use codeburn_watcher.Tests.Samples.{clock, micro_pricing, sample_events}

abbrev with_tools : List Text → StoredEvent → StoredEvent
with_tools tools ev = record ev { tools = tools }

abbrev tool_events : List StoredEvent
tool_events =
    with_tools (codes "Bash" ∷ codes " bash" ∷ []) (sample_event (codes "s") [] testing [] 10 true)
    ∷ with_tools (codes "edit" ∷ codes "bash" ∷ codes " " ∷ [])
        (sample_event (codes "s") [] coding [] 20 false)
    ∷ []

compute_tool_stats-AreToolStats_example :
    AreToolStats {F = Micro} tool_events (compute_tool_stats tool_events)
compute_tool_stats-AreToolStats_example = compute_tool_stats-AreToolStats tool_events

abbrev in_micro : ℤ → Micro
in_micro z = z

compute_session_stats-AreStats_example :
    AreStats clock in_micro micro_pricing sample_events
      (compute_session_stats clock in_micro micro_pricing sample_events)
compute_session_stats-AreStats_example =
    compute_session_stats-AreStats clock in_micro micro_pricing sample_events

abbrev sample_stats : List (SessionStat Micro)
sample_stats = compute_session_stats clock in_micro micro_pricing sample_events
