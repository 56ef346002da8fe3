-- ===== src/Tests/Samples.antt =====
-- The inputs that the runs share: a clock, a window of events, and the metrics of it.
use codeburn_watcher.Prelude.{ℕ, ◌*◌, true, false, Option, some, List, [], ◌∷◌, Text, codes, length}
use codeburn_watcher.Prelude.Float.{Micro, micro_float}
use codeburn_watcher.Shared.{StoredEvent, coding, exploration, testing, sample_event}
use codeburn_watcher.Analytics.Price.{PricingService, new_pricing_service}
use codeburn_watcher.Analytics.Metrics.{Metrics}
use codeburn_watcher.Analytics.Engine.Compute.{compute}

-- Reads a time as the number of its characters, in hours.
abbrev pub clock : Text → Option ℕ
clock ts = some (length ts * 3_600_000_000_000)

abbrev pub micro_pricing : PricingService Micro
micro_pricing = new_pricing_service

-- Two sessions: the first is cold after nine hours; the second works for little with a premium model.
abbrev pub sample_events : List StoredEvent
sample_events =
    sample_event (codes "s1") (codes "claude-sonnet-4") coding (codes "1") 1000 false
    ∷ sample_event (codes "s1") (codes "claude-sonnet-4") testing (codes "1234567890") 500 true
    ∷ sample_event (codes "s2") (codes "claude-opus-4") exploration (codes "12") 2000 false
    ∷ []

abbrev pub sample_metrics : Metrics Micro
sample_metrics = compute clock micro_pricing sample_events

-- Prints nothing of a number.
abbrev pub blank : ℕ → Micro → Text
blank n x = []
