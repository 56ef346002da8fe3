-- ===== src/Adapters/Antigravity/Steps.antt =====
-- What Collect of the Antigravity adapter finds: the steps with tokens, each identifier once.
use codeburn_watcher.Prelude.{
  ℕ, ◌+◌, ◌≡◌, refl, sym, ap, ◌∙◌, Bool, not, none, some, List, [], ◌∷◌, ◌++◌, map, foldl, arith,
  Text, text_eq, nat_eq, codes, select, firsts_by, insert_new, foldl-insert_new_start,
  firsts_by-HasDistinct, HasDistinct, foldl-append, sum_by, length, if◌then◌else◌, ◌==◌, Bool-cases,
  Option-cases, inl, inr,
}
use codeburn_watcher.Collection.Event.{UsageEvent}
use codeburn_watcher.Adapters.{Visit, readable, Gathered, nothing, is_seen, keep}
use codeburn_watcher.Adapters.Seen.{SeesKept, keep-events, keep-SeesKept, keep-found}
use codeburn_watcher.Adapters.Antigravity.{
  Step, Log, Calls, step_event, add_step, add_file, collect,
}

abbrev pub key_of : UsageEvent → Text
key_of ev = ev.event_key

abbrev pub has_tokens : Step → Bool
has_tokens step = not (step.input_tokens + step.output_tokens == 0)

module _ (calls : Calls) where
  -- The logs that decode.
  abbrev pub logs : List (Text × Text) → List Log
  logs [] = []
  logs (f ∷ fs) =
      let rest = logs fs in elim (calls.log_of f.1) [ none ↦ rest | some log ↦ log ∷ rest ]

  abbrev pub log_events : Log → List UsageEvent
  log_events log = map (step_event calls log) (select has_tokens log.steps)

  -- The events of the steps with tokens, in the order of the walk.
  abbrev pub all_events : List Log → List UsageEvent
  all_events [] = []
  all_events (log ∷ ls) = log_events log ++ all_events ls

  -- The events and the number of a loop over some steps.
  record Adds (g h : Gathered) (evs : List UsageEvent) (n : ℕ) : Type 0 where
    events_eq : h.events ≡ foldl (insert_new key_of) g.events evs
    found_eq : h.found ≡ g.found + n
    sees : SeesKept key_of h

  add_step_lem :
      (log : Log) (g : Gathered) (step : Step)
      → add_step calls log g step ≡ (
          if has_tokens step
          then keep key_of g (step_event calls log step)
          else record g { found = g.found + 1 })
  unfolding add_step keep
  add_step_lem log g step = elim (Bool-cases (is_seen step.id g)) [
    | inl p ↦ elim (Bool-cases (has_tokens step)) [
      | inl q ↦ rw (p, q) refl
      | inr q ↦ rw (p, q) refl
    ]
    | inr p ↦ elim (Bool-cases (step.input_tokens + step.output_tokens == 0)) [
      | inl q ↦ rw (p, q) refl
      | inr q ↦ rw (p, q) refl
    ]
  ]

  foldl-add_step :
      (log : Log) (steps : List Step) (g : Gathered)
      → SeesKept key_of g
      → Adds g
          (foldl (add_step calls log) g steps)
          (map (step_event calls log) (select has_tokens steps))
          (length steps)
  unfolding select
  foldl-add_step log [] g s = record { events_eq = refl; found_eq = omega arith; sees = s }
  foldl-add_step log (step ∷ steps) g s = elim (Bool-cases (has_tokens step)) [
    | inl p ↦
        let g' = keep key_of g (step_event calls log step) in
        let same : add_step calls log g step ≡ g' = add_step_lem log g step ∙ rw p refl in
        let ih =
          foldl-add_step log steps g' (keep-SeesKept key_of g (step_event calls log step) s) in
        rw (same, p)
          (record {
            events_eq =
                ih.events_eq
                ∙ ap
                    (λ l.
                      foldl (insert_new key_of) l
                        (map (step_event calls log) (select has_tokens steps)))
                    (keep-events key_of g (step_event calls log step) s);
            found_eq = omega (arith, ih.found_eq, keep-found key_of g (step_event calls log step));
            sees = ih.sees;
          })
    | inr p ↦
        let same : add_step calls log g step ≡ record g { found = g.found + 1 } =
          add_step_lem log g step ∙ rw p refl in
        let ih = foldl-add_step log steps (record g { found = g.found + 1 }) s in
        rw (same, p)
          (record {
            events_eq = ih.events_eq;
            found_eq = omega (arith, ih.found_eq);
            sees = ih.sees;
          })
  ]

  foldl-add_file :
      (fs : List (Text × Text)) (g : Gathered)
      → SeesKept key_of g
      → Adds g
          (foldl (add_file calls) g fs)
          (all_events (logs fs))
          (sum_by (λ log. length log.steps) (logs fs))
  unfolding add_file
  foldl-add_file [] g s = record { events_eq = refl; found_eq = omega arith; sees = s }
  foldl-add_file (f ∷ fs) g s = elim (Option-cases (calls.log_of f.1)) [
    | inl p ↦
        let skip : add_file calls g f ≡ g = rw (p, add_file) refl in
        rw (skip, p, logs) (foldl-add_file fs g s)
    | inr (log, p) ↦
        let a = foldl-add_step log log.steps g s in
        let ih = foldl-add_file fs (foldl (add_step calls log) g log.steps) a.sees in
        let step : add_file calls g f ≡ foldl (add_step calls log) g log.steps =
          rw (p, add_file) refl in
        rw (step, p, logs)
          (record {
            events_eq =
                ih.events_eq
                ∙ ap (λ l. foldl (insert_new key_of) l (all_events (logs fs))) a.events_eq
                ∙ sym (
                    foldl-append (insert_new key_of) g.events (log_events log)
                      (all_events (logs fs)));
            found_eq = omega (arith, ih.found_eq, a.found_eq);
            sees = ih.sees;
          })
  ]

  -- Collect returns the steps with tokens of the logs that decode, in the order of the walk, each
  -- identifier once, where it stands first among these steps; `found` counts all steps, those without
  -- tokens and the repeated ones too, and `inserted` the events.
  pub collect-steps :
      (visits : List Visit)
      → let c = collect calls (some visits) in
        let ls = logs (readable (codes ".json") visits) in
        (c.events ≡ firsts_by key_of (all_events ls))
        × HasDistinct key_of c.events
        × (c.result.found ≡ sum_by (λ log. length log.steps) ls)
        × (c.result.inserted ≡ length c.events)
  unfolding collect
  collect-steps visits =
      let ls = logs (readable (codes ".json") visits) in
      let a = foldl-add_file (readable (codes ".json") visits) nothing (λ k. refl) in
      let same = a.events_eq ∙ foldl-insert_new_start key_of (all_events ls) in
      (
        same,
        rw same (firsts_by-HasDistinct key_of (all_events ls)),
        omega (arith, a.found_eq),
        refl,
      )
