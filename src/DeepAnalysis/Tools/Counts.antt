-- ===== src/DeepAnalysis/Tools/Counts.antt =====
-- The statistics of the tools against the uses of the tools in the events.
use codeburn_watcher.Prelude.{
  ℕ, ◌+◌, ◌≤◌, ◌≡◌, refl, sym, ap, ◌∙◌, not, true, false, List, [], ◌∷◌, ◌++◌, map, foldl, arith,
  Text, text_eq, Assoc, keys, get_or, get_or-upsert, has_key, has_key-upsert, IsMap, upsert-IsMap,
  upsert, if◌then◌else◌, ◌==◌, sum_by, All, All-imp, select, take, insert_new,
  foldl-insert_new_start, foldl-append, distinct, keys-upsert, Bool-cases, inl, inr,
}
use codeburn_watcher.Prelude.Float.{Float64}
use codeburn_watcher.Prelude.Sort.{sort_by, IsSorted, sort_by-IsSorted, sort_by-All, sort_by-perm}
use mathlib.Core.List.{Perm, map-map}
use mathlib.Core.List.Perm
use codeburn_watcher.Shared.{StoredEvent, all_tokens}
use codeburn_watcher.DeepAnalysis.Tools.{
  ToolStat, ToolAccum, new_accum, norm_tool, add_use, tool_step, count_tools, tool_stat, more_turns,
  compute_tool_stats,
}

-- A weight of an event for each time that it names the tool.
abbrev pub used : (StoredEvent → ℕ) → Text → StoredEvent → ℕ
used w tool ev = sum_by (λ raw. if tool == norm_tool raw then w ev else 0) ev.tools

abbrev pub one : StoredEvent → ℕ
one ev = 1

abbrev pub failed : StoredEvent → ℕ
failed ev = if ev.is_error then 1 else 0

abbrev pub failed_tokens : StoredEvent → ℕ
failed_tokens ev = if ev.is_error then all_tokens ev else 0

module _ (f : ToolAccum → ℕ) (w : StoredEvent → ℕ)
    (raises : (ev : StoredEvent) (a : ToolAccum) → f (add_use ev a) ≡ f a + w ev) (tool : Text)
    (named : (tool == []) ≡ false) where
  step-used :
      (ev : StoredEvent) (m : Assoc Text ToolAccum) (raw : Text)
      → f (get_or new_accum tool (tool_step ev m raw))
        ≡ f (get_or new_accum tool m) + (if tool == norm_tool raw then w ev else 0)
  unfolding tool_step
  step-used ev m raw = ground (
    arith,
    text_eq.beq_iff tool (norm_tool raw),
    text_eq.beq_iff (norm_tool raw) [],
    text_eq.beq_iff tool [],
    raises ev (get_or new_accum (norm_tool raw) m),
    get_or-upsert new_accum (norm_tool raw) (add_use ev) m tool,
  )

  tools-used :
      (ev : StoredEvent) (raws : List Text) (m : Assoc Text ToolAccum)
      → f (get_or new_accum tool (foldl (tool_step ev) m raws))
        ≡ f (get_or new_accum tool m)
          + sum_by (λ raw. if tool == norm_tool raw then w ev else 0) raws
  tools-used ev [] m = omega arith
  tools-used ev (raw ∷ raws) m =
      omega (arith, tools-used ev raws (tool_step ev m raw), step-used ev m raw)

  events-used :
      (events : List StoredEvent) (m : Assoc Text ToolAccum)
      → f (get_or new_accum tool (foldl (λ m ev. foldl (tool_step ev) m ev.tools) m events))
        ≡ f (get_or new_accum tool m) + sum_by (used w tool) events
  events-used [] m = omega arith
  events-used (ev ∷ events) m =
      omega (arith, events-used events (foldl (tool_step ev) m ev.tools), tools-used ev ev.tools m)

-- The keys are distinct, and none is empty.
abbrev IsToolMap : Assoc Text ToolAccum → Type 0
IsToolMap m = IsMap m × (has_key [] m ≡ false)

tool_step-IsToolMap :
    (ev : StoredEvent) (m : Assoc Text ToolAccum) (raw : Text)
    → IsToolMap m
    → IsToolMap (tool_step ev m raw)
unfolding tool_step
tool_step-IsToolMap ev m raw (h, k) = ground (
  arith,
  text_eq.beq_iff [] (norm_tool raw),
  text_eq.beq_iff (norm_tool raw) [],
  upsert-IsMap new_accum (norm_tool raw) (add_use ev) m h,
  has_key-upsert new_accum (norm_tool raw) (add_use ev) m [],
)

tools-IsToolMap :
    (ev : StoredEvent) (raws : List Text) (m : Assoc Text ToolAccum)
    → IsToolMap m
    → IsToolMap (foldl (tool_step ev) m raws)
tools-IsToolMap ev [] m h = h
tools-IsToolMap ev (raw ∷ raws) m h =
    tools-IsToolMap ev raws (tool_step ev m raw) (tool_step-IsToolMap ev m raw h)

events-IsToolMap :
    (events : List StoredEvent) (m : Assoc Text ToolAccum)
    → IsToolMap m
    → IsToolMap (foldl (λ m ev. foldl (tool_step ev) m ev.tools) m events)
events-IsToolMap [] m h = h
events-IsToolMap (ev ∷ events) m h =
    events-IsToolMap events (foldl (tool_step ev) m ev.tools) (tools-IsToolMap ev ev.tools m h)

count_tools-IsToolMap : (events : List StoredEvent) → IsToolMap (count_tools events)
unfolding count_tools has_key
count_tools-IsToolMap events = events-IsToolMap events [] (tt, refl)

entries-get_or :
    (m all : Assoc Text ToolAccum)
    → IsToolMap m
    → ((j : Text) → has_key j m ≡ true → get_or new_accum j all ≡ get_or new_accum j m)
    → All (λ e. ((e.0 == []) ≡ false) × (get_or new_accum e.0 all ≡ e.1)) m
unfolding has_key get_or
entries-get_or [] all h same = tt
entries-get_or ((k, a) ∷ m) all ((fresh, h), named) same = (
  ground (arith, same k, text_eq.beq_iff k k, text_eq.beq_iff [] k, text_eq.beq_iff k []),
  entries-get_or m all (h, ground arith) (λ j p. ground (arith, same j, text_eq.beq_iff j k)),
)

-- The tools that an event names, and those that the events name, in their order.
abbrev pub named_by : StoredEvent → List Text
named_by ev = select (λ tool. not (tool == [])) (map norm_tool ev.tools)

abbrev pub tools_of : List StoredEvent → List Text
tools_of [] = []
tools_of (ev ∷ events) = named_by ev ++ tools_of events

keys-tools :
    (ev : StoredEvent) (raws : List Text) (m : Assoc Text ToolAccum)
    → keys (foldl (tool_step ev) m raws)
      ≡ foldl
          (insert_new (λ k. k))
          (keys m)
          (select (λ tool. not (tool == [])) (map norm_tool raws))
unfolding tool_step select
keys-tools ev [] m = refl
keys-tools ev (raw ∷ raws) m = elim (Bool-cases (norm_tool raw == [])) [
  | inl p ↦ rw p (keys-tools ev raws m)
  | inr p ↦ rw p (
      keys-tools ev raws (upsert new_accum (norm_tool raw) (add_use ev) m)
      ∙ ap
          (λ ks.
            foldl (insert_new (λ k. k)) ks (select (λ tool. not (tool == [])) (map norm_tool raws)))
          (keys-upsert new_accum (norm_tool raw) (add_use ev) m))
]

keys-events :
    (events : List StoredEvent) (m : Assoc Text ToolAccum)
    → keys (foldl (λ m ev. foldl (tool_step ev) m ev.tools) m events)
      ≡ foldl (insert_new (λ k. k)) (keys m) (tools_of events)
keys-events [] m = refl
keys-events (ev ∷ events) m =
    keys-events events (foldl (tool_step ev) m ev.tools)
    ∙ ap (λ ks. foldl (insert_new (λ k. k)) ks (tools_of events)) (keys-tools ev ev.tools m)
    ∙ sym (foldl-append (insert_new (λ k. k)) (keys m) (named_by ev) (tools_of events))

keys-count_tools :
    (events : List StoredEvent) → keys (count_tools events) ≡ distinct (tools_of events)
unfolding count_tools
keys-count_tools events = keys-events events [] ∙ foldl-insert_new_start (λ k. k) (tools_of events)

used-le :
    (tool : Text) (ev : StoredEvent) (raws : List Text)
    → sum_by (λ raw. if tool == norm_tool raw then failed ev else 0) raws
      ≤ sum_by (λ raw. if tool == norm_tool raw then one ev else 0) raws
used-le tool ev [] = omega arith
used-le tool ev (raw ∷ raws) = ground (arith, used-le tool ev raws)

failed-le :
    (tool : Text) (events : List StoredEvent)
    → sum_by (used failed tool) events ≤ sum_by (used one tool) events
failed-le tool [] = omega arith
failed-le tool (ev ∷ events) = omega (arith, failed-le tool events, used-le tool ev ev.tools)

module _ {F : Type 0} ⦃d : Float64 F⦄ where
  -- The counts of a tool: its uses, those in failed turns, and the tokens of these.
  pub record IsToolStat (events : List StoredEvent) (t : ToolStat F) : Type 0 where
    pub turns_eq : t.turns ≡ sum_by (used one t.tool) events
    pub errors_eq : t.error_turns ≡ sum_by (used failed t.tool) events
    pub retry_eq : t.retry_tokens ≡ sum_by (used failed_tokens t.tool) events
    pub errors_le : t.error_turns ≤ t.turns

  entry-IsToolStat :
      (events : List StoredEvent) (e : Text × ToolAccum)
      → ((e.0 == []) ≡ false) × (get_or new_accum e.0 (count_tools events) ≡ e.1)
      → IsToolStat events (tool_stat e)
  unfolding count_tools get_or
  entry-IsToolStat events (tool, a) (named, got) =
      let turns = events-used (λ a. a.turns) one (λ ev a. refl) tool named events [] in
      let errors =
        events-used (λ a. a.error_turns) failed (λ ev a. ground arith) tool named events [] in
      let retry =
        events-used (λ a. a.retry_tokens) failed_tokens (λ ev a. ground arith) tool named events
          [] in
      let turns_eq : a.turns ≡ sum_by (used one tool) events = rw (← got) (omega (arith, turns)) in
      let errors_eq : a.error_turns ≡ sum_by (used failed tool) events =
        rw (← got) (omega (arith, errors)) in
      record {
        turns_eq = turns_eq;
        errors_eq = errors_eq;
        retry_eq = rw (← got) (omega (arith, retry));
        errors_le = omega (arith, turns_eq, errors_eq, failed-le tool events);
      }

  All-map :
      (P : ToolStat F → Type 0) (l : Assoc Text ToolAccum)
      → All (λ e. P (tool_stat e)) l
      → All P (map tool_stat l)
  All-map P [] h = tt
  All-map P (e ∷ l) h = (h.0, All-map P l h.1)

  -- The first fifteen of the statistics of all tools, sorted by their turns.
  pub record AreToolStats (events : List StoredEvent) (ts : List (ToolStat F)) : Type 0 where
    pub all : List (ToolStat F)
    pub tools_perm : Perm (map (λ t. t.tool) all) (distinct (tools_of events))
    pub each : All (IsToolStat events) all
    pub sorted : IsSorted more_turns all
    pub taken_eq : ts ≡ take 15 all

  -- ComputeToolStats has one statistic for each tool that an event names, in lower case and trimmed, if the
  -- name is not empty then; none has more turns than the one before it, and of these statistics
  -- it returns the first fifteen, or all if there are fewer. The turns of a tool are the times that
  -- events name it; its error turns are those in events with an error, and so no more than its turns;
  -- its retry tokens are the tokens of these events with an error.
  pub compute_tool_stats-AreToolStats :
      (events : List StoredEvent) → AreToolStats events (compute_tool_stats events)
  unfolding compute_tool_stats
  compute_tool_stats-AreToolStats events =
      let m = count_tools events in
      let stats : List (ToolStat F) = map tool_stat m in
      let entries = entries-get_or m m (count_tools-IsToolMap events) (λ j p. refl) in
      let each = All-map (IsToolStat events) m (All-imp _ _ m (entry-IsToolStat events) entries) in
      record {
        all = sort_by more_turns stats;
        tools_perm =
            rw (map-map, keys-count_tools events) at
              (Perm.map (λ (t : ToolStat F). t.tool) (sort_by-perm more_turns stats));
        each = sort_by-All more_turns (IsToolStat events) stats each;
        sorted = sort_by-IsSorted more_turns (λ a b h. ground (arith, h)) stats;
        taken_eq = refl;
      }
