-- ===== src/Store/Load.antt =====
-- What LoadEvents returns of the events that WriteEvents was given.
use mathlib.Core.List.{Perm}
use mathlib.Core.List.Perm
use mathlib.Core.Path.{subst, fun_ext}
use codeburn_watcher.Prelude.{
  ℕ, ◌≡◌, refl, sym, ap, ◌∙◌, Bool, true, ◌&&◌, not, none, some, List, [], ◌∷◌, map, Text, text_eq,
  text_lt, arith, firsts_by, firsts_by-map, pair_eq, select, select-map, ◌==◌, nat_eq, inl, inr,
}
use codeburn_watcher.Prelude.Results.{ok, Result-cases}
use codeburn_watcher.Prelude.Sort.{IsSorted}
use codeburn_watcher.Shared.{source_eq, source_name, Source, StoredEvent}
use codeburn_watcher.Collection.Event.{RawUsageEvent}
use codeburn_watcher.Store.{
  Row, Engine, IsEngine, row_of, event_of, load_events, QueryFilter, where_clause, is_selected,
  is_before, is_equal_to, non_empty,
}
use codeburn_watcher.Store.Runs.{Run, write_events-refines}

-- The event as it is read back.
abbrev pub stored : RawUsageEvent → StoredEvent
stored e = record {
  source = e.source;
  session_id = e.session_id;
  event_key = e.event_key;
  project = e.project;
  branch = e.branch;
  model = e.model;
  tools = e.tools;
  activity = e.activity;
  ts = e.ts;
  input_tokens = e.input_tokens;
  output_tokens = e.output_tokens;
  cache_read_tokens = e.cache_read_tokens;
  cache_creation_tokens = e.cache_creation_tokens;
  is_error = e.is_error;
}

-- A name that is not empty has to be equal.
abbrev is_named : Text → Text → Bool
is_named [] t = true
is_named (c ∷ s) t = t == (c ∷ s)

-- The event is not before the cutoff, and of the project and source that the filter names, if any.
abbrev pub is_asked : (ℕ → Text) → QueryFilter → StoredEvent → Bool
is_asked cutoff f e =
    not (text_lt e.ts (cutoff f.days))
    && is_named f.project_filter e.project
    && is_named f.source_filter (source_name e.source)

abbrev pub event_id : StoredEvent → Source × Text
event_id e = (e.source, e.event_key)

-- The events whose pair of source and key no event before them has.
abbrev pub first_writes : List RawUsageEvent → List StoredEvent
first_writes log = firsts_by event_id (map stored log)

module _ (marshal : List Text → Text) (unmarshal : Text → List Text)
    (same_tools : (l : List Text) → unmarshal (marshal l) ≡ l) where
  event_of-row_of : (e : RawUsageEvent) → event_of unmarshal (row_of marshal e) ≡ stored e
  event_of-row_of e = ground (arith, same_tools e.tools)

  map-event_of :
      (l : List RawUsageEvent) → map (event_of unmarshal) (map (row_of marshal) l) ≡ map stored l
  map-event_of [] = refl
  map-event_of (e ∷ l) = rw (event_of-row_of e, map-event_of l)

is_equal_to-is_named : (s t : Text) → is_equal_to (non_empty s) t ≡ is_named s t
is_equal_to-is_named [] t = refl
is_equal_to-is_named (c ∷ s) t = ground arith

is_selected-is_asked :
    (unmarshal : Text → List Text) (cutoff : ℕ → Text) (f : QueryFilter) (r : Row)
    → is_selected (where_clause cutoff f) r ≡ is_asked cutoff f (event_of unmarshal r)
is_selected-is_asked unmarshal cutoff f r = rw (
  is_equal_to-is_named f.project_filter r.project,
  is_equal_to-is_named f.source_filter (source_name r.source),
)

select-event_of :
    (unmarshal : Text → List Text) (cutoff : ℕ → Text) (f : QueryFilter) (l : List Row)
    → map (event_of unmarshal) (select (is_selected (where_clause cutoff f)) l)
      ≡ select (is_asked cutoff f) (map (event_of unmarshal) l)
select-event_of unmarshal cutoff f l =
    rw (fun_ext (is_selected-is_asked unmarshal cutoff f))
      (sym (select-map (is_asked cutoff f) (event_of unmarshal) l))

IsSorted-event_of :
    (unmarshal : Text → List Text) (l : List Row)
    → IsSorted is_before l
    → IsSorted (λ a b. text_lt a.ts b.ts) (map (event_of unmarshal) l)
IsSorted-event_of unmarshal [] h = tt
IsSorted-event_of unmarshal (a ∷ []) h = h
IsSorted-event_of unmarshal (a ∷ (b ∷ l)) h = (h.0, IsSorted-event_of unmarshal (b ∷ l) h.1)

module _ {S : Type 0} (e : Engine S) (laws : IsEngine e) where
  rows_read :
      (marshal : List Text → Text) (unmarshal : Text → List Text)
      → ((l : List Text) → unmarshal (marshal l) ≡ l)
      → {s : S} {log : List RawUsageEvent} → Run e marshal s log
      → map (event_of unmarshal) (e.rows s) ≡ first_writes log
  rows_read marshal unmarshal same_tools {s} {log} r =
      ap (map (event_of unmarshal)) ((write_events-refines e laws marshal r).0)
      ∙ sym (firsts_by-map event_id (event_of unmarshal) (map (row_of marshal) log))
      ∙ ap (firsts_by event_id) (map-event_of marshal unmarshal same_tools log)

  -- What a query returns after any sequence of writes to an empty table, if reading back the tools
  -- returns what was written: of the events that the committed writes hold, the first of each pair of a
  -- source and an event key, if it is not before the cutoff and of the project and source that the filter
  -- names; each of these once, in ascending order of time stamps.
  pub load_events-write_events :
      (marshal : List Text → Text) (unmarshal : Text → List Text) (cutoff : ℕ → Text)
      (f : QueryFilter) {s : S} {log : List RawUsageEvent} (evs : List StoredEvent)
      → ((l : List Text) → unmarshal (marshal l) ≡ l)
      → Run e marshal s log
      → load_events e unmarshal cutoff f s ≡ ok evs
      → Perm evs (select (is_asked cutoff f) (first_writes log))
        × IsSorted (λ a b. text_lt a.ts b.ts) evs
  unfolding load_events
  load_events-write_events marshal unmarshal cutoff f {s} {log} evs same_tools r h =
      elim (Result-cases (e.query (where_clause cutoff f) s)) [
        | inl (m, p) ↦ cc (rw (p, load_events) at h)
        | inr ((l, some m), p) ↦ cc (rw (p, load_events) at h)
        | inr ((l, none), p) ↦
            let (perm, sorted) = laws.query-perm (where_clause cutoff f) s l p in
            let loaded : map (event_of unmarshal) l ≡ evs = cc (rw (p, load_events) at h) in
            let kept =
              select-event_of unmarshal cutoff f (e.rows s)
              ∙ ap (select (is_asked cutoff f)) (rows_read marshal unmarshal same_tools r) in
            rw (sym loaded) (
              subst (λ m. Perm (map (event_of unmarshal) l) m) kept
                  (Perm.map (event_of unmarshal) perm),
              IsSorted-event_of unmarshal l sorted,
            )
      ]
