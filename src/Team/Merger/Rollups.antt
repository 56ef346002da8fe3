-- ===== src/Team/Merger/Rollups.antt =====
-- Rollup against the exports that each rollup stands for.
use codeburn_watcher.Prelude.{
  ◌≡◌, refl, ap, Bool, false, not, List, [], ◌∷◌, ◌++◌, map, arith, Text, codes, text_eq, text_lt,
  keys, get_or, nat_beq, length, sum_by, any, select, All, ◌==◌, inl, inr, Bool-cases,
}
use codeburn_watcher.Prelude.Float.{Float64}
use codeburn_watcher.Prelude.Sort.{sort_by}
use codeburn_watcher.Shared.{exploration}
use codeburn_watcher.Insights.Persona.{assign}
use codeburn_watcher.Team.Export.{SignedExport, Rollup, TeamConfig}
use codeburn_watcher.Team.Merger.{
  merge_metrics, dominant_activity, rollup_of, exports_of, group_rollups, rollup,
}

module _ {F : Type 0} ⦃d : Float64 F⦄ where
  -- A rollup that adds up the given exports.
  pub record IsSum (es : List (SignedExport F)) (r : Rollup F) : Type 0 where
    pub events_eq : r.metrics.events ≡ sum_by (λ e. e.payload.overall.events) es
    pub sessions_eq : r.metrics.sessions ≡ sum_by (λ e. e.payload.overall.sessions) es
    pub spend_eq : r.metrics.spend_tokens ≡ sum_by (λ e. e.payload.overall.spend_tokens) es
    pub persona_eq : r.persona ≡ assign r.metrics
    pub dominant_eq : r.dominant ≡ exploration

  -- A rollup of the group that its label names: of its members, and of their exports alone.
  pub record IsGroup (exports : List (SignedExport F)) (config : TeamConfig) (r : Rollup F)
      : Type 0 where
    pub axis_eq : r.axis ≡ codes "group"
    pub members_eq : r.members ≡ get_or [] r.label config.members
    pub group_sum : IsSum (exports_of r.members exports) r

  -- The rollup of all exports.
  pub record IsWhole (exports : List (SignedExport F)) (r : Rollup F) : Type 0 where
    pub label_eq : r.label ≡ codes "all"
    pub axis_eq : r.axis ≡ codes "all"
    pub members_eq : r.members ≡ map (λ e. e.username) exports
    pub whole_sum : IsSum exports r

  -- Some member of the group has an export.
  abbrev pub has_export : List (SignedExport F) → TeamConfig → Text → Bool
  has_export exports config g =
      any (λ e. any (λ u. e.username == u) (get_or [] g config.members)) exports

  -- The rollups of the groups, and after them that of all exports.
  pub record AreRollups (exports : List (SignedExport F)) (config : TeamConfig)
      (rs : List (Rollup F)) : Type 0 where
    pub groups : List (Rollup F)
    pub whole : Rollup F
    pub split_eq : rs ≡ groups ++ (whole ∷ [])
    pub labels_eq :
        map (λ r. r.label) groups
        ≡ select (has_export exports config) (sort_by text_lt (keys config.members))
    pub each : All (IsGroup exports config) groups
    pub last : IsWhole exports whole

  rollup_of-IsSum :
      (label axis : Text) (members : List Text) (es : List (SignedExport F))
      → IsSum es (rollup_of label axis members es)
  unfolding merge_metrics dominant_activity
  rollup_of-IsSum label axis members [] = record {
    events_eq = refl;
    sessions_eq = refl;
    spend_eq = refl;
    persona_eq = refl;
    dominant_eq = refl;
  }
  rollup_of-IsSum label axis members (e ∷ es) =
      let full : nat_beq (length (e ∷ es)) 0 ≡ false = ground arith in
      record {
        events_eq = rw full refl;
        sessions_eq = rw full refl;
        spend_eq = rw full refl;
        persona_eq = refl;
        dominant_eq = rw full refl;
      }

  no-exports :
      (members : List Text) (exports : List (SignedExport F))
      → nat_beq (length (exports_of members exports)) 0
        ≡ not (any (λ e. any (λ u. e.username == u) members) exports)
  unfolding select
  no-exports members [] = refl
  no-exports members (e ∷ es) = ground (arith, no-exports members es)

  group_rollups_lem :
      (exports : List (SignedExport F)) (config : TeamConfig) (gs : List Text)
      → let rs = group_rollups exports config gs in
        (map (λ r. r.label) rs ≡ select (has_export exports config) gs)
        × All (IsGroup exports config) rs
  unfolding group_rollups select
  group_rollups_lem exports config [] = (refl, tt)
  group_rollups_lem exports config (g ∷ gs) =
      let members = get_or [] g config.members in
      let (labels, each) = group_rollups_lem exports config gs in
      let sum = rollup_of-IsSum g (codes "group") members (exports_of members exports) in
      elim (Bool-cases (has_export exports config g)) [
        | inl p ↦
            rw (no-exports members exports, p)
              (
                ap (λ l. g ∷ l) labels,
                (record { axis_eq = refl; members_eq = refl; group_sum = sum }, each),
              )
        | inr p ↦ rw (no-exports members exports, p) (labels, each)
      ]

  -- Rollup gives, in the order of the group names, one rollup for each group with an export of a member,
  -- and then one for all exports, with the label all. The rollup of a group names the members of the
  -- group and adds up the events, sessions and spend of the exports of these members alone; the last
  -- one names the users of all exports and adds up all of them. Each has the persona of its own
  -- metrics, and the dominant activity of each is exploration.
  pub rollup-AreRollups :
      (exports : List (SignedExport F)) (config : TeamConfig)
      → AreRollups exports config (rollup exports config)
  unfolding rollup
  rollup-AreRollups exports config =
      let gs = sort_by text_lt (keys config.members) in
      let (labels, each) = group_rollups_lem exports config gs in
      let users = map (λ e. e.username) exports in
      record {
        groups = group_rollups exports config gs;
        whole = rollup_of (codes "all") (codes "all") users exports;
        split_eq = refl;
        labels_eq = labels;
        each = each;
        last = record {
          label_eq = refl;
          axis_eq = refl;
          members_eq = refl;
          whole_sum = rollup_of-IsSum (codes "all") (codes "all") users exports;
        };
      }
