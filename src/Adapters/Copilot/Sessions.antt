-- ===== src/Adapters/Copilot/Sessions.antt =====
-- What Collect of the Copilot adapter finds: one event for each session with text.
use mathlib.Core.List.{append_assoc, append-nil}
use codeburn_watcher.Prelude.{
  ℕ, ◌+◌, ◌*◌, ◌≤◌, ◌≡◌, refl, ap, ◌∙◌, Bool, not, none, some, List, [], ◌∷◌, ◌++◌, map, foldl,
  arith, Text, text_eq, nat_eq, codes, to_lower, select, sum_by, length, if◌then◌else◌, ◌==◌,
  Bool-cases, Option-cases, inl, inr, ltb,
}
use codeburn_watcher.Collection.Event.{UsageEvent}
use codeburn_watcher.Adapters.{Visit, readable}
use codeburn_watcher.Adapters.Copilot.{
  Turn, Session, Calls, estimate_tokens, Totals, count_turn, no_totals, session_event, State,
  add_session, add_file, collect,
}

-- Four bytes are a token, and a part of four bytes is one too.
pub estimate_tokens_bounds :
    (s : Text) → (length s ≤ 4 * estimate_tokens s) × (4 * estimate_tokens s ≤ length s + 3)
unfolding estimate_tokens
estimate_tokens_bounds s = ground arith

abbrev pub weight_of : Text → Turn → ℕ
weight_of role t = if to_lower t.role == role then estimate_tokens t.content else 0

abbrev pub latest : ℕ → List Turn → ℕ
latest n [] = n
latest n (t ∷ ts) = latest (if ltb n t.ts then t.ts else n) ts

-- The estimated tokens of the turns of the user and of the assistant, and the latest time stamp.
abbrev pub totals_of : List Turn → Totals
totals_of ts = record {
  input = sum_by (weight_of (codes "user")) ts;
  output = sum_by (weight_of (codes "assistant")) ts;
  last_ts = latest 0 ts;
}

count_turn_lem :
    (s : Totals) (t : Turn)
    → count_turn s t ≡ record {
      input = s.input + weight_of (codes "user") t;
      output = s.output + weight_of (codes "assistant") t;
      last_ts = if ltb s.last_ts t.ts then t.ts else s.last_ts;
    }
unfolding count_turn
count_turn_lem s t = elim (Bool-cases (to_lower t.role == codes "user")) [
  | inl p ↦ rw ((text_eq.beq_iff (to_lower t.role) (codes "user")).0 p) (ground arith)
  | inr p ↦ elim (Bool-cases (to_lower t.role == codes "assistant")) [
    | inl q ↦ rw (p, q) (ground arith)
    | inr q ↦ rw (p, q) (ground arith)
  ]
]

foldl-count_turn :
    (ts : List Turn) (s : Totals)
    → foldl count_turn s ts ≡ record {
      input = s.input + sum_by (weight_of (codes "user")) ts;
      output = s.output + sum_by (weight_of (codes "assistant")) ts;
      last_ts = latest s.last_ts ts;
    }
unfolding count_turn
foldl-count_turn [] s = ground arith
foldl-count_turn (t ∷ ts) s =
    foldl-count_turn ts (count_turn s t) ∙ rw (count_turn_lem s t) (ground arith)

-- The sessions that decode, with their paths.
module _ (calls : Calls) where
  abbrev pub sessions : List (Text × Text) → List (Text × Session)
  sessions [] = []
  sessions (f ∷ fs) =
      let rest = sessions fs in
      elim (calls.session_of f.1) [ none ↦ rest | some session ↦ (f.0, session) ∷ rest ]

  abbrev pub has_text : Text × Session → Bool
  has_text p = let s = totals_of p.1.turns in not (s.input + s.output == 0)

  abbrev pub event_of : Text × Session → UsageEvent
  event_of p = session_event calls p.0 p.1 (totals_of p.1.turns)

  add_session_lem :
      (path : Text) (s : State) (session : Session)
      → add_session calls path s session ≡ record {
        events =
            if has_text (path, session)
            then s.events ++ (event_of (path, session) ∷ [])
            else s.events;
        found = s.found + 1;
      }
  unfolding add_session
  add_session_lem path s session =
      let same : foldl count_turn no_totals session.turns ≡ totals_of session.turns =
        foldl-count_turn session.turns no_totals ∙ ground arith in
      elim (Bool-cases (has_text (path, session))) [
        | inl q ↦ rw (same, q) (ground arith)
        | inr q ↦ rw (same, q) (ground arith)
      ]

  foldl-add_file :
      (fs : List (Text × Text)) (s : State)
      → foldl (add_file calls) s fs ≡ record {
        events = s.events ++ map event_of (select has_text (sessions fs));
        found = s.found + length (sessions fs);
      }
  unfolding add_file select
  foldl-add_file [] s = ground (arith, append-nil s.events)
  foldl-add_file (f ∷ fs) s = elim (Option-cases (calls.session_of f.1)) [
    | inl p ↦
        let skip : add_file calls s f ≡ s = rw (p, add_file) refl in
        rw (skip, p, sessions) (foldl-add_file fs s)
    | inr (session, p) ↦
        let step : add_file calls s f ≡ add_session calls f.0 s session = rw (p, add_file) refl in
        let ih = foldl-add_file fs (add_session calls f.0 s session) in
        rw (step, p, sessions)
          (ih ∙ elim (Bool-cases (has_text (f.0, session))) [
            | inl q ↦
                rw (add_session_lem f.0 s session, q)
                  (ground (
                    arith,
                    append_assoc s.events (event_of (f.0, session) ∷ [])
                        (map event_of (select has_text (sessions fs))),
                  ))
            | inr q ↦ rw (add_session_lem f.0 s session, q) (ground arith)
          ])
  ]

  -- Collect returns one event for each session that decodes and whose turns of the user or the assistant
  -- have some text, in the order of the walk: its input tokens are the estimates of the user's turns added
  -- up, its output tokens those of the assistant's, its time stamp that of the latest turn, and the time of
  -- the call if no turn has one. `found` counts all sessions, and an estimate is the quarter of the bytes,
  -- rounded up.
  pub collect-sessions :
      (visits : List Visit)
      → let c = collect calls (some visits) in
        let found = sessions (readable (codes ".json") visits) in
        (c.events ≡ map event_of (select has_text found))
        × (c.result.found ≡ length found)
        × (c.result.inserted ≡ length c.events)
        × ((s : Text) → (length s ≤ 4 * estimate_tokens s) × (4 * estimate_tokens s ≤ length s + 3))
  unfolding collect
  collect-sessions visits =
      let same =
        foldl-add_file (readable (codes ".json") visits) (record { events = []; found = 0 }) in
      (ap (λ s. s.events) same, omega (arith, ap (λ s. s.found) same), refl, estimate_tokens_bounds)
