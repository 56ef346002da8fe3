-- ===== src/Adapters/ClaudeCode/Turns.antt =====
-- What Collect of the Claude Code adapter finds: the assistant turns with tokens in the logs, each once.
use codeburn_watcher.Prelude.{
  Option-cases, ◌≡◌, ◌≢◌, refl, sym, ap, ◌∙◌, true, false, Option, none, some, List, [], ◌∷◌, ◌++◌,
  map, foldl, arith, Text, text_eq, nat_eq, any, select, firsts_by, firsts_by-HasDistinct,
  firsts_by-All, HasDistinct, foldl-append, All, All-append, length, if◌then◌else◌, codes,
  Bool-cases, Option-cases, inl, inr,
}
use codeburn_watcher.Collection.Event.{UsageEvent}
use codeburn_watcher.Adapters.{Visit, is_skipped, Gathered, nothing, keep, event_tokens}
use codeburn_watcher.Adapters.Seen.{foldl-keep_start}
use codeburn_watcher.Adapters.ClaudeCode.{
  Calls, LogLine, raw_lines, strip_return, is_too_long, is_turn, event_of_line, parse_lines,
  parse_jsonl, full_key, visit, collect,
}

module _ (calls : Calls) where
  -- The lines that decode.
  abbrev pub decoded : List Text → List LogLine
  decoded [] = []
  decoded (l ∷ ls) =
      let rest = decoded ls in
      elim (calls.line_of (strip_return l)) [ none ↦ rest | some line ↦ line ∷ rest ]

  -- The events of the assistant turns with tokens among the lines.
  abbrev pub events_of_lines : Text → List Text → List UsageEvent
  events_of_lines project ls = map (event_of_line calls project) (select is_turn (decoded ls))

  -- The turns of what a file holds: none if it does not open or has a line that is too long.
  abbrev pub content_turns : Text → Option Text → List UsageEvent
  content_turns path none = []
  content_turns path (some text) =
      if any is_too_long (raw_lines text)
      then []
      else events_of_lines (calls.base (calls.dir path)) (raw_lines text)

  abbrev pub file_turns : Visit → List UsageEvent
  file_turns v = if is_skipped (codes ".jsonl") v then [] else content_turns v.path v.content

  abbrev pub turns : List Visit → List UsageEvent
  turns [] = []
  turns (v ∷ vs) = file_turns v ++ turns vs

  module _ (project : Text) (l : Text) (ls : List Text) where
    no_line :
        calls.line_of (strip_return l) ≡ none
        → events_of_lines project (l ∷ ls) ≡ events_of_lines project ls
    no_line q = rw (q, decoded) refl

    module _ (line : LogLine) (q : calls.line_of (strip_return l) ≡ some line) where
      kept_line :
          is_turn line ≡ true
          → events_of_lines project (l ∷ ls)
            ≡ event_of_line calls project line ∷ events_of_lines project ls
      unfolding select
      kept_line t = rw (q, decoded, t) refl

      other_line :
          is_turn line ≡ false → events_of_lines project (l ∷ ls) ≡ events_of_lines project ls
      unfolding select
      other_line t = rw (q, decoded, t) refl

  parse_lines_lem :
      (project : Text) (ls : List Text)
      → ((parse_lines calls project ls).0 ≡ any is_too_long ls)
        × (any is_too_long ls ≡ false
            → (parse_lines calls project ls).1 ≡ events_of_lines project ls)
  unfolding parse_lines select
  parse_lines_lem project [] = (refl, λ h. refl)
  parse_lines_lem project (l ∷ ls) =
      let (same, events) = parse_lines_lem project ls in
      elim (Bool-cases (is_too_long l)) [
        | inl p ↦ rw p (refl, λ h. cc)
        | inr p ↦ elim (Option-cases (calls.line_of (strip_return l))) [
          | inl q ↦ rw (p, q) (same, λ h. events h ∙ sym (no_line project l ls q))
          | inr (line, q) ↦ elim (Bool-cases (is_turn line)) [
            | inl t ↦
                rw (p, q, t)
                  (
                    same,
                    λ h.
                        ap (λ evs. event_of_line calls project line ∷ evs) (events h)
                        ∙ sym (kept_line project l ls line q t),
                  )
            | inr t ↦ rw (p, q, t) (same, λ h. events h ∙ sym (other_line project l ls line q t))
          ]
        ]
      ]

  add_content : Text → Gathered → Option Text → Gathered
  add_content path g content =
      let (is_error, evs) = parse_jsonl calls path content in
      if is_error then g else foldl (keep full_key) g evs

  add_content_lem :
      (path : Text) (g : Gathered) (content : Option Text)
      → add_content path g content ≡ foldl (keep full_key) g (content_turns path content)
  unfolding add_content parse_jsonl
  add_content_lem path g none = refl
  add_content_lem path g (some text) =
      let (same, events) = parse_lines_lem (calls.base (calls.dir path)) (raw_lines text) in
      elim (Bool-cases (any is_too_long (raw_lines text))) [
        | inl p ↦ rw (same, p) refl
        | inr p ↦ rw (same, p, events p) refl
      ]

  visit_lem : (g : Gathered) (v : Visit) → visit calls g v ≡ foldl (keep full_key) g (file_turns v)
  unfolding visit add_content
  visit_lem g v = elim (Bool-cases (is_skipped (codes ".jsonl") v)) [
    | inl p ↦ rw p refl
    | inr p ↦ rw p (add_content_lem v.path g v.content)
  ]

  foldl-visit :
      (g : Gathered) (vs : List Visit)
      → foldl (visit calls) g vs ≡ foldl (keep full_key) g (turns vs)
  foldl-visit g [] = refl
  foldl-visit g (v ∷ vs) =
      foldl-visit (visit calls g v) vs
      ∙ ap (λ h. foldl (keep full_key) h (turns vs)) (visit_lem g v)
      ∙ sym (foldl-append (keep full_key) g (file_turns v) (turns vs))

  events_of_lines-HasTokens :
      (project : Text) (ls : List LogLine)
      → All (λ ev. event_tokens ev ≢ 0) (map (event_of_line calls project) (select is_turn ls))
  unfolding select
  events_of_lines-HasTokens project [] = tt
  events_of_lines-HasTokens project (l ∷ ls) = elim (Bool-cases (is_turn l)) [
    | inl p ↦ rw p (ground arith, events_of_lines-HasTokens project ls)
    | inr p ↦ rw p (events_of_lines-HasTokens project ls)
  ]

  content_turns-HasTokens :
      (path : Text) (content : Option Text)
      → All (λ ev. event_tokens ev ≢ 0) (content_turns path content)
  content_turns-HasTokens path none = tt
  content_turns-HasTokens path (some text) = elim (Bool-cases (any is_too_long (raw_lines text))) [
    | inl p ↦ rw p tt
    | inr p ↦
        rw p (events_of_lines-HasTokens (calls.base (calls.dir path)) (decoded (raw_lines text)))
  ]

  file_turns-HasTokens : (v : Visit) → All (λ ev. event_tokens ev ≢ 0) (file_turns v)
  file_turns-HasTokens v = elim (Bool-cases (is_skipped (codes ".jsonl") v)) [
    | inl p ↦ rw p tt
    | inr p ↦ rw p (content_turns-HasTokens v.path v.content)
  ]

  turns-HasTokens : (vs : List Visit) → All (λ ev. event_tokens ev ≢ 0) (turns vs)
  turns-HasTokens [] = tt
  turns-HasTokens (v ∷ vs) =
      All-append _ (file_turns v) (turns vs) (file_turns-HasTokens v) (turns-HasTokens vs)

  -- The events that Collect returns are the turns of the readable logs, in the order of the walk, each
  -- identifier once, where it stands first; every one has tokens; `found` counts the turns and
  -- `inserted` the events. A turn is a line of an assistant with tokens, and a log with a line that is
  -- too long for the scanner has none.
  pub collect-turns :
      (vs : List Visit)
      → let c = collect calls (some vs) in
        (c.events ≡ firsts_by full_key (turns vs))
        × HasDistinct full_key c.events
        × All (λ ev. event_tokens ev ≢ 0) c.events
        × (c.result.found ≡ length (turns vs))
        × (c.result.inserted ≡ length c.events)
  unfolding collect
  collect-turns vs =
      let (events, found) = foldl-keep_start full_key (turns vs) in
      rw (foldl-visit nothing vs) (
        events,
        rw events (firsts_by-HasDistinct full_key (turns vs)),
        rw events (firsts_by-All full_key _ (turns vs) (turns-HasTokens vs)),
        found,
        refl,
      )
