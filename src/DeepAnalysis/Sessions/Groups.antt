-- ===== src/DeepAnalysis/Sessions/Groups.antt =====
-- The grouping of the events by their sessions.
use mathlib.Core.List.{append-nil, append_assoc}
use codeburn_watcher.Prelude.{
  ◌≡◌, refl, sym, ap, ◌∙◌, true, false, List, [], ◌∷◌, ◌++◌, map, foldl, arith, Text, text_eq,
  Assoc, values, keys, upsert, IsMap, upsert-IsMap, distinct, keys-foldl, has_key, All-upsert-fresh,
  if◌then◌else◌, ◌==◌, nat_beq, length, length-append, select, All, All-imp, Bool-cases, inl, inr,
}
use codeburn_watcher.Shared.{StoredEvent}
use codeburn_watcher.DeepAnalysis.Sessions.{SessionAccum, new_accum, add_event, group_events}

-- The events of a session.
abbrev pub events_of : Text → List StoredEvent → List StoredEvent
events_of sid = select (λ ev. sid == ev.session_id)

abbrev group_step : Assoc Text SessionAccum → StoredEvent → Assoc Text SessionAccum
group_step m ev = upsert (new_accum ev) ev.session_id (add_event ev) m

unfoldable turns_at : Text → Assoc Text SessionAccum → List StoredEvent
turns_at sid [] = []
turns_at sid ((i, a) ∷ m) = if sid == i then a.turns else turns_at sid m

events_of-cons :
    (sid : Text) (ev : StoredEvent) (l : List StoredEvent)
    → events_of sid (ev ∷ l) ≡ events_of sid (ev ∷ []) ++ events_of sid l
unfolding select
events_of-cons sid ev l = elim (Bool-cases (sid == ev.session_id)) [
  | inl p ↦ rw p refl
  | inr p ↦ rw p refl
]

turns_at-step :
    (sid : Text) (ev : StoredEvent) (m : Assoc Text SessionAccum)
    → turns_at sid (upsert (new_accum ev) ev.session_id (add_event ev) m)
      ≡ turns_at sid m ++ events_of sid (ev ∷ [])
unfolding turns_at upsert select
turns_at-step sid ev [] = elim (Bool-cases (sid == ev.session_id)) [
  | inl p ↦ rw p refl
  | inr p ↦ rw p refl
]
turns_at-step sid ev ((i, a) ∷ m) = elim (Bool-cases (ev.session_id == i)) [
  | inl p ↦
      let same : (sid == ev.session_id) ≡ (sid == i) =
        ap (λ j. sid == j) ((text_eq.beq_iff ev.session_id i).0 p) in
      elim (Bool-cases (sid == i)) [
        | inl q ↦ rw (p, same, q) refl
        | inr q ↦ rw (p, same, q) (sym (append-nil _))
      ]
  | inr p ↦ elim (Bool-cases (sid == i)) [
    | inl q ↦
        let other : (sid == ev.session_id) ≡ false =
          ground (arith, text_eq.beq_iff sid i, text_eq.beq_iff sid ev.session_id, p, q) in
        rw (p, q, other) (sym (append-nil _))
    | inr q ↦ rw (p, q) (turns_at-step sid ev m)
  ]
]

turns_at-foldl :
    (sid : Text) (l : List StoredEvent) (m : Assoc Text SessionAccum)
    → turns_at sid (foldl group_step m l) ≡ turns_at sid m ++ events_of sid l
unfolding select
turns_at-foldl sid [] m = sym (append-nil _)
turns_at-foldl sid (ev ∷ l) m =
    turns_at-foldl sid l (group_step m ev)
    ∙ ap (λ ts. ts ++ events_of sid l) (turns_at-step sid ev m)
    ∙ append_assoc (turns_at sid m) (events_of sid (ev ∷ [])) (events_of sid l)
    ∙ ap (λ ts. turns_at sid m ++ ts) (sym (events_of-cons sid ev l))

foldl-IsMap :
    (l : List StoredEvent) (m : Assoc Text SessionAccum) → IsMap m → IsMap (foldl group_step m l)
foldl-IsMap [] m h = h
foldl-IsMap (ev ∷ l) m h =
    foldl-IsMap l (group_step m ev) (upsert-IsMap (new_accum ev) ev.session_id (add_event ev) m h)

-- A session with a turn.
abbrev pub HasTurns : SessionAccum → Type 0
HasTurns acc = nat_beq (length acc.turns) 0 ≡ false

add_event-HasTurns : (ev : StoredEvent) (acc : SessionAccum) → HasTurns (add_event ev acc)
add_event-HasTurns ev acc = ground (arith, length-append acc.turns (ev ∷ []))

foldl-HasTurns :
    (l : List StoredEvent) (m : Assoc Text SessionAccum)
    → All HasTurns (values m)
    → All HasTurns (values (foldl group_step m l))
foldl-HasTurns [] m h = h
foldl-HasTurns (ev ∷ l) m h = foldl-HasTurns l (group_step m ev) (
    All-upsert-fresh (new_accum ev) ev.session_id (add_event ev) HasTurns m
      (add_event-HasTurns ev (new_accum ev)) (λ acc p. add_event-HasTurns ev acc) h)

pub group_events-HasTurns :
    (events : List StoredEvent) → All HasTurns (values (group_events events))
unfolding group_events
group_events-HasTurns events = foldl-HasTurns events [] tt

-- The sessions stand in the order of their first events.
pub keys-group_events :
    (events : List StoredEvent)
    → keys (group_events events) ≡ distinct (map (λ ev. ev.session_id) events)
unfolding group_events
keys-group_events = keys-foldl (λ ev. ev.session_id) new_accum add_event

entries-turns_at :
    (m all : Assoc Text SessionAccum)
    → IsMap m
    → ((j : Text) → has_key j m ≡ true → turns_at j all ≡ turns_at j m)
    → All (λ x. x.1.turns ≡ turns_at x.0 all) m
unfolding has_key turns_at
entries-turns_at [] all h same = tt
entries-turns_at ((k, a) ∷ m) all (fresh, h) same = (
  ground (arith, same k, text_eq.beq_iff k k),
  entries-turns_at m all h (λ j p. ground (arith, same j, text_eq.beq_iff j k)),
)

-- The turns of a session are its events, in their order.
pub group_events-events_of :
    (events : List StoredEvent) → All (λ e. e.1.turns ≡ events_of e.0 events) (group_events events)
unfolding group_events turns_at
group_events-events_of events =
    let m = foldl group_step [] events in
    All-imp _ _ m (λ e h. h ∙ turns_at-foldl e.0 events [])
      (entries-turns_at m m (foldl-IsMap events [] tt) (λ j p. refl))
