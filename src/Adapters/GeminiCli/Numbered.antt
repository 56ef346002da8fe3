-- ===== src/Adapters/GeminiCli/Numbered.antt =====
-- What Collect of the Gemini adapter finds: the model turns with tokens, numbered over all files.
use mathlib.Core.List.{append_assoc, append-nil}
use codeburn_watcher.Prelude.{
  ℕ, ◌+◌, ◌≤◌, ◌<◌, ◌≡◌, refl, sym, ap, ◌∙◌, Bool, true, false, not, ◌&&◌, none, some, List, [],
  ◌∷◌, ◌++◌, map, foldl, arith, Text, text_eq, nat_eq, codes, any, All, All-imp, select, length,
  length-append, if◌then◌else◌, ◌==◌, Bool-cases, Option-cases, inl, inr, nat_beq,
}
use codeburn_watcher.Collection.Event.{UsageEvent}
use codeburn_watcher.Adapters.{Visit, readable, nothing}
use codeburn_watcher.Adapters.GeminiCli.{
  ChatEntry, Calls, token_counts, is_model, key_at, entry_event, State, add_entry, add_file,
  collect,
}

-- The part after the last slash.
has_slash : Text → Bool
has_slash s = any (λ c. nat_beq c b'/') s

after_slash : Text → Text
unfolding has_slash
after_slash [] = []
after_slash (c ∷ s) =
    let rest = after_slash s in if has_slash s then rest else if nat_beq c b'/' then s else c ∷ s

has_slash-append : (s t : Text) → has_slash (s ++ (b'/' ∷ t)) ≡ true
unfolding has_slash
has_slash-append [] t = refl
has_slash-append (c ∷ s) t = ground (arith, has_slash-append s t)

after_slash-append : (s t : Text) → has_slash t ≡ false → after_slash (s ++ (b'/' ∷ t)) ≡ t
unfolding after_slash
after_slash-append [] t h = rw h refl
after_slash-append (c ∷ s) t h = rw (has_slash-append s t) (after_slash-append s t h)

abbrev pub is_turn : ChatEntry → Bool
is_turn e = is_model e && not ((token_counts e).0 + (token_counts e).1 == 0)

-- strconv.Itoa writes digits, and different numbers differently.
pub record WritesNumbers (itoa : ℕ → Text) : Type 0 where
  pub digits : (n : ℕ) → any (λ c. nat_beq c b'/') (itoa n) ≡ false
  pub injective : (m n : ℕ) → itoa m ≡ itoa n → m ≡ n

module _ (calls : Calls) where
  -- The turns of the files that decode: the model's entries with tokens, with their paths.
  abbrev pub turns_of : Text → List ChatEntry → List (Text × ChatEntry)
  turns_of path entries = map (λ e. (path, e)) (select is_turn entries)

  abbrev pub turns : List (Text × Text) → List (Text × ChatEntry)
  turns [] = []
  turns (f ∷ fs) =
      let rest = turns fs in
      elim (calls.entries_of f.1) [ none ↦ rest | some entries ↦ turns_of f.0 entries ++ rest ]

  -- The events of the turns, numbered from n + 1.
  abbrev pub numbered : ℕ → List (Text × ChatEntry) → List UsageEvent
  numbered n [] = []
  numbered n (t ∷ ts) = entry_event calls t.0 t.1 (n + 1) ∷ numbered (n + 1) ts

  module _ (itoa_laws : WritesNumbers calls.itoa) where
    -- The keys that are seen have numbers up to idx.
    abbrev IsNumbered : ℕ → Text → Type 0
    IsNumbered idx key = (i : ℕ) × (i ≤ idx) × (after_slash key ≡ calls.itoa i)

    after_slash-key_at : (path : Text) (n : ℕ) → after_slash (key_at calls path n) ≡ calls.itoa n
    unfolding has_slash
    after_slash-key_at path n =
        after_slash-append (calls.name path) (calls.itoa n) (itoa_laws.digits n)

    fresh :
        (path : Text) (n idx : ℕ) (seen : List Text)
        → idx < n
        → All (IsNumbered idx) seen
        → any (λ j. key_at calls path n == j) seen ≡ false
    fresh path n idx [] h a = refl
    fresh path n idx (k ∷ ks) h a = elim (Bool-cases (key_at calls path n == k)) [
      | inl p ↦
          let (i, le, same) = a.0 in
          let key : key_at calls path n ≡ k = (text_eq.beq_iff (key_at calls path n) k).0 p in
          absurd (
            omega (
              arith,
              le,
              itoa_laws.injective n i (sym (after_slash-key_at path n) ∙ ap after_slash key ∙ same),
            ))
      | inr p ↦ rw p (fresh path n idx ks h a.1)
    ]

    -- A loop from `s` to `t` that adds the events of the turns.
    record Adds (s t : State) (ts : List (Text × ChatEntry)) : Type 0 where
      events_eq : t.gathered.events ≡ s.gathered.events ++ numbered s.idx ts
      found_eq : t.gathered.found ≡ s.gathered.found + length ts
      idx_eq : t.idx ≡ s.idx + length ts
      seen_IsNumbered : All (IsNumbered t.idx) t.gathered.seen

    abbrev IsValid : State → Type 0
    IsValid s = All (IsNumbered s.idx) s.gathered.seen

    add_entry-Adds :
        (path : Text) (s : State) (e : ChatEntry)
        → IsValid s
        → is_turn e ≡ true
        → Adds s (add_entry calls path s e) ((path, e) ∷ [])
    unfolding add_entry
    add_entry-Adds path s e v h =
        let model : is_model e ≡ true = ground arith in
        let some_tokens : ((token_counts e).0 + (token_counts e).1 == 0) ≡ false = ground arith in
        let unseen : any (λ j. key_at calls path (s.idx + 1) == j) s.gathered.seen ≡ false =
          fresh path (s.idx + 1) s.idx s.gathered.seen (omega arith) v in
        rw (model, some_tokens, unseen)
          (record {
            events_eq = refl;
            found_eq = omega arith;
            idx_eq = omega arith;
            seen_IsNumbered = (
              (s.idx + 1, omega arith, after_slash-key_at path (s.idx + 1)),
              All-imp (IsNumbered s.idx) (IsNumbered (s.idx + 1)) s.gathered.seen
                  (λ k (i, le, same). (i, omega (arith, le), same)) v,
            );
          })

    add_other :
        (path : Text) (s : State) (e : ChatEntry) → is_turn e ≡ false → add_entry calls path s e ≡ s
    unfolding add_entry
    add_other path s e h = elim (Bool-cases (is_model e)) [
      | inl p ↦
          let none_used : ((token_counts e).0 + (token_counts e).1 == 0) ≡ true = ground arith in
          rw (p, none_used) refl
      | inr p ↦ rw p refl
    ]

    Adds-refl : (s : State) → IsValid s → Adds s s []
    Adds-refl s v = record {
      events_eq = sym (append-nil s.gathered.events);
      found_eq = omega arith;
      idx_eq = omega arith;
      seen_IsNumbered = v;
    }

    numbered-append :
        (n : ℕ) (xs ys : List (Text × ChatEntry))
        → numbered n (xs ++ ys) ≡ numbered n xs ++ numbered (n + length xs) ys
    numbered-append n [] ys = ap (λ m. numbered m ys) (omega arith)
    numbered-append n (x ∷ xs) ys =
        ap (λ l. entry_event calls x.0 x.1 (n + 1) ∷ l)
          (numbered-append (n + 1) xs ys
            ∙ ap (λ m. numbered (n + 1) xs ++ numbered m ys) (omega arith))

    Adds-trans :
        {s t u : State} (xs ys : List (Text × ChatEntry))
        → Adds s t xs
        → Adds t u ys
        → Adds s u (xs ++ ys)
    Adds-trans {s} {t} {u} xs ys a b = record {
      events_eq =
          b.events_eq
          ∙ ap (λ l. l ++ numbered t.idx ys) a.events_eq
          ∙ append_assoc s.gathered.events (numbered s.idx xs) (numbered t.idx ys)
          ∙ ap (λ m. s.gathered.events ++ (numbered s.idx xs ++ numbered m ys)) a.idx_eq
          ∙ ap (λ l. s.gathered.events ++ l) (sym (numbered-append s.idx xs ys));
      found_eq = omega (arith, a.found_eq, b.found_eq, length-append xs ys);
      idx_eq = omega (arith, a.idx_eq, b.idx_eq, length-append xs ys);
      seen_IsNumbered = b.seen_IsNumbered;
    }

    foldl-add_entry :
        (path : Text) (es : List ChatEntry) (s : State)
        → IsValid s
        → Adds s (foldl (add_entry calls path) s es) (turns_of path es)
    unfolding select
    foldl-add_entry path [] s v = Adds-refl s v
    foldl-add_entry path (e ∷ es) s v = elim (Bool-cases (is_turn e)) [
      | inl p ↦
          let a = add_entry-Adds path s e v p in
          rw p (
            Adds-trans ((path, e) ∷ []) (turns_of path es) a
              (foldl-add_entry path es (add_entry calls path s e) a.seen_IsNumbered))
      | inr p ↦ rw (add_other path s e p, p) (foldl-add_entry path es s v)
    ]

    foldl-add_file :
        (fs : List (Text × Text)) (s : State)
        → IsValid s
        → Adds s (foldl (add_file calls) s fs) (turns fs)
    unfolding add_file
    foldl-add_file [] s v = Adds-refl s v
    foldl-add_file (f ∷ fs) s v = elim (Option-cases (calls.entries_of f.1)) [
      | inl p ↦
          let skip : add_file calls s f ≡ s = rw (p, add_file) refl in
          rw (skip, p, turns) (foldl-add_file fs s v)
      | inr (es, p) ↦
          let step : add_file calls s f ≡ foldl (add_entry calls f.0) s es =
            rw (p, add_file) refl in
          let a = foldl-add_entry f.0 es s v in
          rw (step, p, turns)
            (Adds-trans (turns_of f.0 es) (turns fs) a
              (foldl-add_file fs (foldl (add_entry calls f.0) s es) a.seen_IsNumbered))
    ]

    -- If strconv.Itoa writes numbers without a slash and different ones differently, Collect skips no turn
    -- as seen: it returns the model's entries with tokens of all files that decode, in the order of the
    -- walk, the key of each being its session and its number from one over all files; `found` and
    -- `inserted` are how many there are.
    pub collect-numbered :
        (visits : List Visit)
        → let c = collect calls (some visits) in
          let ts = turns (readable (codes ".json") visits) in
          (c.events ≡ numbered 0 ts)
          × (c.result.found ≡ length ts)
          × (c.result.inserted ≡ length c.events)
    unfolding collect
    collect-numbered visits =
        let a =
          foldl-add_file (readable (codes ".json") visits) (record { gathered = nothing; idx = 0 })
            tt in
        (a.events_eq, omega (arith, a.found_eq), refl)
