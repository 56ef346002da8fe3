-- ===== src/DeepAnalysis/Tools.antt =====
-- internal/deepanalysis/tool_analyzer.go, and ToolStat of session_stat.go.
pub mod Counts
use codeburn_watcher.Prelude.{
  ℕ, ◌+◌, Bool, true, false, List, [], ◌∷◌, map, foldl, Text, text_eq, to_lower, trim_space, Assoc,
  upsert, take, if◌then◌else◌, ltb, ◌==◌,
}
use codeburn_watcher.Prelude.Float.{Float64, of_nat}
use codeburn_watcher.Prelude.Sort.{sort_by}
use codeburn_watcher.Shared.{StoredEvent, all_tokens}

pub record ToolStat (F : Type 0) : Type 0 where
  pub tool : Text
  pub turns : ℕ
  pub error_turns : ℕ
  pub error_rate : F
  pub retry_tokens : ℕ

pub record ToolAccum : Type 0 where
  pub turns : ℕ
  pub error_turns : ℕ
  pub retry_tokens : ℕ

abbrev pub new_accum : ToolAccum
new_accum = record { turns = 0; error_turns = 0; retry_tokens = 0 }

abbrev pub top_tool_n : ℕ
top_tool_n = 15

abbrev pub norm_tool : Text → Text
norm_tool raw = to_lower (trim_space raw)

abbrev pub add_use : StoredEvent → ToolAccum → ToolAccum
add_use ev a = record {
  turns = a.turns + 1;
  error_turns = if ev.is_error then a.error_turns + 1 else a.error_turns;
  retry_tokens = if ev.is_error then a.retry_tokens + all_tokens ev else a.retry_tokens;
}

-- The loop over the tools of one event, and that over the events.
unfoldable pub tool_step : StoredEvent → Assoc Text ToolAccum → Text → Assoc Text ToolAccum
tool_step ev by_tool raw =
    let tool = norm_tool raw in
    if tool == [] then by_tool else upsert new_accum tool (add_use ev) by_tool

unfoldable pub count_tools : List StoredEvent → Assoc Text ToolAccum
count_tools = foldl (λ m ev. foldl (tool_step ev) m ev.tools) []

module _ {F : Type 0} ⦃d : Float64 F⦄ where
  abbrev pub tool_stat : Text × ToolAccum → ToolStat F
  tool_stat (tool, a) = record {
    tool = tool;
    turns = a.turns;
    error_turns = a.error_turns;
    error_rate = if ltb 0 a.turns then d.div (of_nat a.error_turns) (of_nat a.turns) else of_nat 0;
    retry_tokens = a.retry_tokens;
  }

  abbrev pub more_turns : ToolStat F → ToolStat F → Bool
  more_turns a b = ltb b.turns a.turns

  unfoldable pub compute_tool_stats : List StoredEvent → List (ToolStat F)
  compute_tool_stats events =
      take top_tool_n (sort_by more_turns (map tool_stat (count_tools events)))
