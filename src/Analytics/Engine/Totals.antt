-- ===== src/Analytics/Engine/Totals.antt =====
-- What pass 1 of Compute keeps of its totals and breakdowns.
use codeburn_watcher.Prelude.{
  ℕ, Option, ◌+◌, ◌≡◌, refl, List, [], ◌∷◌, arith, foldl, Text, All, All-upsert, sum_by, sum-upsert,
  sym, keys, values, Assoc, IsMap, upsert, upsert-IsMap, has_key, text_eq, KeyEq,
}
use codeburn_watcher.Prelude.Float.{Float64}
use codeburn_watcher.Shared.{StoredEvent, spend, activity_eq}
use codeburn_watcher.Analytics.Price.{PricingService}
use codeburn_watcher.Analytics.Engine.{
  SessionState, Pass1, start, pass1, pass1_step, event_time, note_key, add_turn, new_session,
}
use codeburn_watcher.Analytics.Engine.Session.{IsSound, new_session-IsSound, add_turn-IsSound}

pub record IsConsistent {F : Type 0} (s : Pass1 F) : Type 0 where
  pub sound : All IsSound (values s.sessions)
  pub distinct : IsMap s.sessions
  pub turns : sum_by (λ ss. ss.turns) (values s.sessions) ≡ s.total_events
  pub inputs : sum_by (λ ss. ss.input_tokens) (values s.sessions) ≡ s.total_input_tokens
  pub spent :
      sum_by (λ ss. ss.spend_tokens) (values s.sessions)
      ≡ s.total_input_tokens + s.total_output_tokens
  pub activities_total :
      sum_by (λ t. t) (values s.by_activity) ≡ s.total_input_tokens + s.total_output_tokens
  pub models_total :
      sum_by (λ t. t) (values s.by_model) ≡ s.total_input_tokens + s.total_output_tokens
  pub activities_distinct : IsMap s.by_activity
  pub models_distinct : IsMap s.by_model
  pub models_listed : s.model_order ≡ keys s.by_model

keys-upsert :
    {V : Type 0} (z : V) (k : Text) (g : V → V) (m : Assoc Text V)
    → keys (upsert z k g m) ≡ note_key k m (keys m)
unfolding upsert has_key
keys-upsert z k g [] = refl
keys-upsert z k g ((j, v) ∷ m) = ground (arith, keys-upsert z k g m)

-- A field that a turn raises by `n` has its sum over the sessions raised by `n`.
session_sum :
    (f : SessionState → ℕ) (n ts : ℕ) (ev : StoredEvent) (m : Assoc Text SessionState)
    → f new_session ≡ 0
    → ((ss : SessionState) → f (add_turn ts ev ss) ≡ f ss + n)
    → sum_by f (values (upsert new_session ev.session_id (add_turn ts ev) m))
      ≡ sum_by f (values m) + n
session_sum f n ts ev m = sum-upsert f n new_session ev.session_id (add_turn ts ev) m

-- A breakdown whose entry is raised by `n` has its sum raised by `n`.
breakdown_sum :
    {K : Type 0} ⦃e : KeyEq K⦄ (k : K) (n : ℕ) (m : Assoc K ℕ)
    → sum_by (λ t. t) (values (upsert 0 k (λ t. t + n) m)) ≡ sum_by (λ t. t) (values m) + n
breakdown_sum k n m = sum-upsert (λ t. t) n 0 k (λ t. t + n) m refl (λ v. refl)

module _ {F : Type 0} ⦃d : Float64 F⦄ (parse_time : Text → Option ℕ)
    (pricing : PricingService F) where
  -- A round of the first pass keeps its state consistent: no session, activity or model stands twice, the
  -- model order lists the models, the turns of the sessions add up to the events, their input tokens to
  -- the total input, and their spend, the sums by activity and those by model to the total input and
  -- output; in each session the spend is its input and output, the retry tokens are no more than the
  -- spend, the cold restart tokens no more than the input, the error turns no more than the turns, and
  -- there is one context size for each turn.
  pub pass1_step-IsConsistent :
      (s : Pass1 F) (ev : StoredEvent)
      → IsConsistent s
      → IsConsistent (pass1_step parse_time pricing s ev)
  unfolding pass1_step add_turn
  pass1_step-IsConsistent s ev h =
      let ts = event_time parse_time ev.ts in
      let turn = add_turn ts ev in
      record {
        sound =
            All-upsert IsSound new_session ev.session_id turn s.sessions new_session-IsSound
              (add_turn-IsSound ts ev) h.sound;
        distinct = upsert-IsMap new_session ev.session_id turn s.sessions h.distinct;
        turns = omega (arith, session_sum (λ ss. ss.turns) 1 ts ev s.sessions refl (λ ss. refl));
        inputs = omega (
          arith,
          session_sum (λ ss. ss.input_tokens) ev.input_tokens ts ev s.sessions refl (λ ss. refl),
        );
        spent = omega (
          arith,
          session_sum (λ ss. ss.spend_tokens) (spend ev) ts ev s.sessions refl (λ ss. refl),
        );
        activities_total = omega (arith, breakdown_sum ev.activity (spend ev) s.by_activity);
        models_total = omega (arith, breakdown_sum ev.model (spend ev) s.by_model);
        activities_distinct =
            upsert-IsMap 0 ev.activity (λ t. t + spend ev) s.by_activity h.activities_distinct;
        models_distinct = upsert-IsMap 0 ev.model (λ t. t + spend ev) s.by_model h.models_distinct;
        models_listed =
            rw h.models_listed (sym (keys-upsert 0 ev.model (λ t. t + spend ev) s.by_model));
      }

  foldl-IsConsistent :
      (events : List StoredEvent) (s : Pass1 F)
      → IsConsistent s
      → IsConsistent (foldl (pass1_step parse_time pricing) s events)
  foldl-IsConsistent [] s h = h
  foldl-IsConsistent (ev ∷ l) s h =
      foldl-IsConsistent l (pass1_step parse_time pricing s ev) (pass1_step-IsConsistent s ev h)

  -- Pass 1 leaves consistent totals, whatever the events.
  pub pass1-IsConsistent :
      (events : List StoredEvent) → IsConsistent (pass1 parse_time pricing events)
  unfolding pass1
  pass1-IsConsistent events = foldl-IsConsistent events start (ground arith)
