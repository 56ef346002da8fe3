-- ===== src/Adapters/Codex/Deltas.antt =====
-- The differences of the counters add up: what Collect of the Codex adapter reports of a session.
use codeburn_watcher.Prelude.{
  upsert, ℕ, ◌+◌, ◌-◌, ◌≤◌, ◌≡◌, refl, sym, ap, ◌∙◌, none, some, List, [], ◌∷◌, ◌++◌, foldl, arith,
  Text, text_eq, nat_eq, codes, Assoc, get_or, insert, get_or-upsert, split_at, trim_space, sum_by,
  sum_by-append, ltb, if◌then◌else◌, ◌==◌, Bool-cases, Option-cases, inl, inr, foldl-append,
}
use codeburn_watcher.Collection.Event.{UsageEvent}
use codeburn_watcher.Adapters.{Visit, readable}
use codeburn_watcher.Adapters.Codex.{
  CodexEvent, Calls, State, initial, delta, usage_event, add_reading, add_line, collect,
}

-- The sum of the increases of a counter, where a fall is a restart from zero.
abbrev pub increases : ℕ → List ℕ → ℕ
increases last [] = 0
increases last (n ∷ ns) = (if ltb n last then n else n - last) + increases n ns

-- The last reading.
abbrev pub last_of : ℕ → List ℕ → ℕ
last_of last [] = last
last_of last (n ∷ ns) = last_of n ns

-- No reading is below the one before it.
abbrev pub IsRising : ℕ → List ℕ → Type 0
IsRising last [] = Unit {0}
IsRising last (n ∷ ns) = (last ≤ n) × IsRising n ns

pub increases-rising :
    (last : ℕ) (ns : List ℕ) → IsRising last ns → last + increases last ns ≡ last_of last ns
increases-rising last [] h = omega arith
increases-rising last (n ∷ ns) h = ground (arith, increases-rising n ns h.1)

-- The lines that hold an event.
module _ (calls : Calls) where
  abbrev pub line_events : List Text → List CodexEvent
  line_events [] = []
  line_events (l ∷ ls) =
      let rest = line_events ls in
      if trim_space l == []
      then rest
      else elim (calls.event_of l) [ none ↦ rest | some e ↦ e ∷ rest ]

  abbrev pub file_events : List (Text × Text) → List CodexEvent
  file_events [] = []
  file_events (f ∷ fs) = line_events (split_at 10 f.1) ++ file_events fs

  foldl-add_line :
      (s : State) (ls : List Text)
      → foldl (add_line calls) s ls ≡ foldl (add_reading calls) s (line_events ls)
  unfolding add_line
  foldl-add_line s [] = refl
  foldl-add_line s (l ∷ ls) = elim (Bool-cases (trim_space l == [])) [
    | inl p ↦ rw (p, line_events) (foldl-add_line s ls)
    | inr p ↦ elim (Option-cases (calls.event_of l)) [
      | inl q ↦ rw (p, q, line_events) (foldl-add_line s ls)
      | inr (e, q) ↦ rw (p, q, line_events) (foldl-add_line (add_reading calls s e) ls)
    ]
  ]

  foldl-files :
      (s : State) (fs : List (Text × Text))
      → foldl (λ t file. foldl (add_line calls) t (split_at 10 file.1)) s fs
        ≡ foldl (add_reading calls) s (file_events fs)
  foldl-files s [] = refl
  foldl-files s (f ∷ fs) =
      foldl-files (foldl (add_line calls) s (split_at 10 f.1)) fs
      ∙ ap (λ t. foldl (add_reading calls) t (file_events fs)) (foldl-add_line s (split_at 10 f.1))
      ∙ sym (foldl-append (add_reading calls) s (line_events (split_at 10 f.1)) (file_events fs))

  -- One of the two counters: its readings, the map of its last values and the tokens of an event.
  record Counter : Type 0 where
    reading : CodexEvent → ℕ
    last : State → Assoc Text ℕ
    tokens : UsageEvent → ℕ
    last_eq :
        (s : State) (e : CodexEvent)
        → last (add_reading calls s e) ≡ insert e.session_id (reading e) (last s)
    tokens_eq :
        (s : State) (e : CodexEvent) (weigh : Text → ℕ → ℕ)
        → ((t : Text) → weigh t 0 ≡ 0)
        → sum_by (λ ev. weigh ev.session_id (tokens ev)) (add_reading calls s e).events
          ≡ sum_by (λ ev. weigh ev.session_id (tokens ev)) s.events
            + weigh e.session_id (delta (get_or 0 e.session_id (last s)) (reading e))

  -- The readings of the counter in a session.
  abbrev pub readings : (CodexEvent → ℕ) → Text → List CodexEvent → List ℕ
  readings reading session [] = []
  readings reading session (e ∷ es) =
      let rest = readings reading session es in
      if session == e.session_id then reading e ∷ rest else rest

  -- The tokens that count for a session.
  abbrev pub of_session : Text → Text → ℕ → ℕ
  of_session session t n = if session == t then n else 0

  of_session-zero : (session t : Text) → of_session session t 0 ≡ 0
  of_session-zero session t = ground arith

  module _ (c : Counter) (session : Text) where
    open c use {reading, last, tokens, last_eq, tokens_eq}

    abbrev reported : State → ℕ
    reported s = sum_by (λ ev. of_session session ev.session_id (tokens ev)) s.events

    last_reading :
        (s : State) (e : CodexEvent)
        → get_or 0 session (last (add_reading calls s e))
          ≡ (if session == e.session_id then reading e else get_or 0 session (last s))
    unfolding upsert
    last_reading s e =
        rw (last_eq s e) (get_or-upsert 0 e.session_id (λ v. reading e) (last s) session)

    foldl-reported :
        (es : List CodexEvent) (s : State)
        → reported (foldl (add_reading calls) s es)
          ≡ reported s + increases (get_or 0 session (last s)) (readings reading session es)
    foldl-reported [] s = omega arith
    foldl-reported (e ∷ es) s =
        let ih = foldl-reported es (add_reading calls s e) in
        let step = tokens_eq s e (of_session session) (of_session-zero session) in
        elim (Bool-cases (session == e.session_id)) [
          | inl p ↦
              let same : session ≡ e.session_id = (text_eq.beq_iff session e.session_id).0 p in
              rw p (
                omega (
                  arith,
                  rw (last_reading s e, p) at ih,
                  rw p at step,
                  ap (λ t. delta (get_or 0 t (last s)) (reading e)) same,
                ))
          | inr p ↦ rw p (omega (arith, rw (last_reading s e, p) at ih, rw p at step))
        ]

  -- Adding an event of no tokens or leaving it out is the same to a sum.
  sum-added :
      (f : UsageEvent → ℕ) (evs : List UsageEvent) (ev : UsageEvent) (n : ℕ)
      → (n ≡ 0 → f ev ≡ 0)
      → sum_by f (if n == 0 then evs else evs ++ (ev ∷ [])) ≡ sum_by f evs + f ev
  sum-added f evs ev n h = elim (Bool-cases (n == 0)) [
    | inl p ↦ rw p (omega (arith, h ((nat_eq.beq_iff n 0).0 p)))
    | inr p ↦ rw p (omega (arith, sum_by-append f evs (ev ∷ [])))
  ]

  input_of : State → CodexEvent → ℕ
  input_of s e = delta (get_or 0 e.session_id s.last_input) e.total_input

  output_of : State → CodexEvent → ℕ
  output_of s e = delta (get_or 0 e.session_id s.last_output) e.total_output

  input_counter : Counter
  unfolding add_reading input_of output_of
  input_counter = record {
    reading = λ e. e.total_input;
    last = λ s. s.last_input;
    tokens = λ ev. ev.input_tokens;
    last_eq = λ s e. refl;
    tokens_eq = λ s e weigh zero_eq.
        sum-added (λ ev. weigh ev.session_id ev.input_tokens) s.events
          (usage_event calls e (input_of s e) (output_of s e)) (input_of s e + output_of s e)
          (λ h. ap (weigh e.session_id) (omega arith) ∙ zero_eq e.session_id);
  }

  output_counter : Counter
  unfolding add_reading input_of output_of
  output_counter = record {
    reading = λ e. e.total_output;
    last = λ s. s.last_output;
    tokens = λ ev. ev.output_tokens;
    last_eq = λ s e. refl;
    tokens_eq = λ s e weigh zero_eq.
        sum-added (λ ev. weigh ev.session_id ev.output_tokens) s.events
          (usage_event calls e (input_of s e) (output_of s e)) (input_of s e + output_of s e)
          (λ h. ap (weigh e.session_id) (omega arith) ∙ zero_eq e.session_id);
  }

  -- The input and the output tokens that Collect reports of a session add up to the increases of its
  -- counters over the lines of all logs, in the order of the walk, where a fall of a counter is a restart
  -- from zero; if the counters of the session never fall, they are the last readings.
  pub collect-increases :
      (session : Text) (visits : List Visit)
      → let evs = (collect calls (some visits)).events in
        let inputs =
          readings (λ e. e.total_input) session (file_events (readable (codes ".jsonl") visits)) in
        let outputs =
          readings (λ e. e.total_output) session (file_events (readable (codes ".jsonl") visits)) in
        (sum_by (λ ev. of_session session ev.session_id ev.input_tokens) evs ≡ increases 0 inputs)
        × (sum_by (λ ev. of_session session ev.session_id ev.output_tokens) evs
            ≡ increases 0 outputs)
        × (IsRising 0 inputs → increases 0 inputs ≡ last_of 0 inputs)
        × (IsRising 0 outputs → increases 0 outputs ≡ last_of 0 outputs)
  unfolding collect input_counter output_counter get_or
  collect-increases session visits =
      let es = file_events (readable (codes ".jsonl") visits) in
      rw (foldl-files initial (readable (codes ".jsonl") visits)) (
        omega (arith, foldl-reported input_counter session es initial),
        omega (arith, foldl-reported output_counter session es initial),
        λ h. omega (arith, increases-rising 0 (readings (λ e. e.total_input) session es) h),
        λ h. omega (arith, increases-rising 0 (readings (λ e. e.total_output) session es) h),
      )
