-- ===== src/Insights/Persona.antt =====
-- internal/insights/persona.go: the personas and the thresholds that assign them.
use codeburn_watcher.Prelude.{◌&&◌, ◌||◌, List, [], ◌∷◌, Text, codes, get_or, if◌then◌else◌}
use codeburn_watcher.Prelude.Float.{Float64}
use codeburn_watcher.Shared.{exploration, coding, activity_eq}
use codeburn_watcher.Analytics.Metrics.{Metrics, empty_activity}

pub record Persona : Type 0 where
  pub id : Text
  pub label : Text
  pub description : Text
  pub general_recommendations : List Text

abbrev pub firefighter : Persona
firefighter = record {
  id = codes "firefighter";
  label = codes "Firefighter";
  description = codes "High rework and retry — spending most time fixing failures.";
  general_recommendations =
      codes "Break tasks into smaller, verifiable steps."
      ∷ codes "Add tests before making changes."
      ∷ codes "Review error logs before retrying."
      ∷ [];
}

abbrev pub explorer : Persona
explorer = record {
  id = codes "explorer";
  label = codes "Explorer";
  description = codes "High exploration and thinking — lots of discovery, less delivery.";
  general_recommendations =
      codes "Set a time-box for exploration phases."
      ∷ codes "Switch to a cheaper model for initial research."
      ∷ codes "Commit to an approach before asking the agent to implement."
      ∷ [];
}

abbrev pub sprinter : Persona
sprinter = record {
  id = codes "sprinter";
  label = codes "Sprinter";
  description = codes "High coding share and low thinking — fast but may miss context.";
  general_recommendations =
      codes "Add a thinking/planning step before large edits."
      ∷ codes "Check cache hit ratio — fast sessions often skip reuse."
      ∷ [];
}

abbrev pub surgeon : Persona
surgeon = record {
  id = codes "surgeon";
  label = codes "Surgeon";
  description = codes "Very targeted — high cache reuse, low bloat, surgical edits.";
  general_recommendations =
      codes "This is an efficient pattern. Maintain session continuity."
      ∷ codes "Watch for cold-restart waste when resuming long sessions."
      ∷ [];
}

abbrev pub architect : Persona
architect = record {
  id = codes "architect";
  label = codes "Architect";
  description = codes "High thinking-to-code ratio — planning-heavy workflow.";
  general_recommendations =
      codes "Consider using a cheaper model for planning phases."
      ∷ codes "Cache hit ratio matters most in long planning sessions."
      ∷ [];
}

abbrev pub balanced : Persona
balanced = record {
  id = codes "balanced";
  label = codes "Balanced";
  description = codes "No dominant pattern — evenly distributed across activities.";
  general_recommendations =
      codes "Review per-finding recommendations to find optimisation opportunities." ∷ [];
}

abbrev pub personas : List Persona
personas = firefighter ∷ explorer ∷ sprinter ∷ surgeon ∷ architect ∷ balanced ∷ []

-- PersonaAssigner.Assign
unfoldable pub assign : {F : Type 0} ⦃d : Float64 F⦄ → Metrics F → Persona
assign ⦃d⦄ m =
    let explored = (get_or empty_activity exploration m.by_activity).share in
    let coded = (get_or empty_activity coding m.by_activity).share in
    if d.lt (d.lit 25 100) m.rework_ratio || d.lt (d.lit 20 100) m.retry_share
    then firefighter
    else if d.lt (d.lit 60 100) m.think_to_code_ratio
    then architect
    else if d.lt (d.lit 40 100) explored
    then explorer
    else if d.lt (d.lit 50 100) coded && d.lt m.think_to_code_ratio (d.lit 20 100)
    then sprinter
    else if d.lt (d.lit 60 100) m.cache_hit_ratio && d.lt m.context_bloat_share (d.lit 10 100)
    then surgeon
    else balanced
