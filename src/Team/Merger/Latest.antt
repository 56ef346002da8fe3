-- ===== src/Team/Merger/Latest.antt =====
-- Dedupe against an independent description of what it keeps.
use mathlib.Core.Logic.Or
use mathlib.Core.Bool.{false≢true}
use mathlib.Core.List.{Mem, mem-cons, append-nil, append_assoc}
use codeburn_watcher.Prelude.{
  text_lt_irrefl, text_lt_asymm, not_lt_trans, select-select, select-true, ◌≡◌, refl, sym, ap, ◌∙◌,
  Bool, true, false, not, ◌&&◌, ◌||◌, Option, none, some, List, [], ◌∷◌, ◌++◌, map, foldl, arith,
  Text, text_eq, text_lt, Assoc, lookup, get_or, has_key, has_key-upsert, lookup-insert,
  if◌then◌else◌, any, select, All, ◌==◌, ◌⊎◌, inl, inr, Bool-cases, Option-cases, All-imp,
}
use codeburn_watcher.Prelude.Float.{Float64}
use codeburn_watcher.Team.Export.{SignedExport, zero_export}
use codeburn_watcher.Team.Merger.{Dedupe, is_newer, is_seen, dedupe_step, dedupe}
use codeburn_watcher.Team.Merger.Firsts.{firsts, firsts-any}

module _ {F : Type 0} ⦃d : Float64 F⦄ where
  is_seen-lookup : (u : Text) (m : Assoc Text (SignedExport F)) → is_seen (lookup u m) ≡ has_key u m
  unfolding lookup has_key
  is_seen-lookup u [] = refl
  is_seen-lookup u ((v, e) ∷ m) = ground (arith, is_seen-lookup u m)

  unseen-is_newer :
      (o : Option (SignedExport F)) (e : SignedExport F) → is_newer o e ≡ false → is_seen o ≡ true
  unseen-is_newer none e h = cc
  unseen-is_newer (some prev) e h = refl

  -- The export that a round leaves for the user `u`.
  abbrev pick : Text → Option (SignedExport F) → SignedExport F → Option (SignedExport F)
  pick u o e = if u == e.username && is_newer o e then some e else o

  abbrev best : Text → Option (SignedExport F) → List (SignedExport F) → Option (SignedExport F)
  best u o [] = o
  best u o (e ∷ es) = best u (pick u o e) es

  lookup-step :
      (u : Text) (s : Dedupe F) (e : SignedExport F)
      → lookup u (dedupe_step s e).latest ≡ pick u (lookup u s.latest) e
  unfolding dedupe_step
  lookup-step u s e =
      ground (arith, text_eq.beq_iff u e.username, lookup-insert e.username e s.latest u)

  has_key-step :
      (u : Text) (s : Dedupe F) (e : SignedExport F)
      → has_key u (dedupe_step s e).latest ≡ (u == e.username || has_key u s.latest)
  unfolding dedupe_step
  has_key-step u s e = ground (
    arith,
    text_eq.beq_iff u e.username,
    has_key-upsert e e.username (λ _. e) s.latest u,
    is_seen-lookup e.username s.latest,
    unseen-is_newer (lookup e.username s.latest) e,
  )

  lookup-foldl :
      (u : Text) (es : List (SignedExport F)) (s : Dedupe F)
      → lookup u (foldl dedupe_step s es).latest ≡ best u (lookup u s.latest) es
  lookup-foldl u [] s = refl
  lookup-foldl u (e ∷ es) s =
      lookup-foldl u es (dedupe_step s e) ∙ ap (λ o. best u o es) (lookup-step u s e)

  order-step :
      (s : Dedupe F) (e : SignedExport F) (l : List Text)
      → (dedupe_step s e).order ++ l
        ≡ s.order ++ (if not (has_key e.username s.latest) then e.username ∷ l else l)
  unfolding dedupe_step
  order-step s e l = elim (Bool-cases (has_key e.username s.latest)) [
    | inl p ↦ rw (is_seen-lookup, p) refl
    | inr p ↦ rw (is_seen-lookup, p) (append_assoc s.order (e.username ∷ []) l)
  ]

  -- The user names in the order in which a run of the loop appends them.
  order-foldl :
      (es : List (SignedExport F)) (s : Dedupe F)
      → (foldl dedupe_step s es).order
        ≡ s.order ++ select (λ v. not (has_key v s.latest)) (firsts (map (λ e. e.username) es))
  unfolding select
  order-foldl [] s = rw append-nil
  order-foldl (e ∷ es) s =
      let u = e.username in
      let names = firsts (map (λ e. e.username) es) in
      let fresh = λ (v : Text). not (has_key v s.latest) in
      let other = λ (v : Text). not (v == u) in
      let fresh' = λ (v : Text). not (has_key v (dedupe_step s e).latest) in
      let both = select-select fresh other fresh' names (λ v. ground (arith, has_key-step v s e)) in
      order-foldl es (dedupe_step s e)
      ∙ rw (← both) (order-step s e (select fresh (select other names)))

  -- What `k` is to a user and the exports: an export of the user, and no older than any other.
  pub record IsNewest (u : Text) (es : List (SignedExport F)) (k : SignedExport F) : Type 0 where
    pub mem : Mem k es
    pub owner : k.username ≡ u
    pub newest : All (λ f. f.username ≡ u → text_lt k.generated_at f.generated_at ≡ false) es

  -- What the best export is when the rounds start with `o`.
  abbrev IsBest : Text → Option (SignedExport F) → List (SignedExport F) → SignedExport F → Type 0
  IsBest u o es k =
      ((o ≡ some k) ⊎ (Mem k es × (k.username ≡ u)))
      × All (λ f. f.username ≡ u → text_lt k.generated_at f.generated_at ≡ false) es
      × ((p : SignedExport F) → o ≡ some p → text_lt k.generated_at p.generated_at ≡ false)

  picked-mem :
      (u : Text) (e : SignedExport F) (es : List (SignedExport F)) (k : SignedExport F)
      → u ≡ e.username
      → (some e ≡ some k) ⊎ (Mem k es × (k.username ≡ u))
      → Mem k (e ∷ es) × (k.username ≡ u)
  picked-mem u e es k owned (inl x) =
      let y : k ≡ e = cc in (mem-cons.1 (Or.inl y), rw y (sym owned))
  picked-mem u e es k owned (inr (m, o)) = (mem-cons.1 (Or.inr m), o)

  kept-mem :
      (u : Text) (e : SignedExport F) (es : List (SignedExport F)) (k : SignedExport F)
      (o : Option (SignedExport F))
      → (o ≡ some k) ⊎ (Mem k es × (k.username ≡ u))
      → (o ≡ some k) ⊎ (Mem k (e ∷ es) × (k.username ≡ u))
  kept-mem u e es k o (inl x) = inl x
  kept-mem u e es k o (inr (m, q)) = inr (mem-cons.1 (Or.inr m), q)

  newer-lt :
      (b : Bool) (prev e : SignedExport F)
      → (b && is_newer (some prev) e) ≡ true
      → text_lt prev.generated_at e.generated_at ≡ true
  newer-lt b prev e h = ground arith

  not_newer-none :
      (u : Text) (o : Option (SignedExport F)) (e : SignedExport F)
      → o ≡ none
      → e.username ≡ u
      → (u == e.username && is_newer o e) ≡ true
  not_newer-none u o e h q = rw h (ground (arith, text_eq.beq_iff u e.username))

  newer-not_lt :
      (u : Text) (prev e : SignedExport F)
      → (u == e.username && is_newer (some prev) e) ≡ false
      → e.username ≡ u
      → text_lt prev.generated_at e.generated_at ≡ false
  newer-not_lt u prev e h q = ground (arith, text_eq.beq_iff u e.username)

  best-IsBest :
      (u : Text) (es : List (SignedExport F)) (o : Option (SignedExport F)) (k : SignedExport F)
      → best u o es ≡ some k
      → IsBest u o es k
  best-IsBest u [] o k h =
      (inl h, tt, λ p q. let e : p ≡ k = cc in rw e (text_lt_irrefl k.generated_at))
  best-IsBest u (e ∷ es) o k h =
      let (from, later, before) = best-IsBest u es (pick u o e) k h in
      elim (Bool-cases (u == e.username && is_newer o e)) [
        | inl p ↦
            let here : pick u o e ≡ some e = rw p refl in
            let owned : u ≡ e.username = (text_eq.beq_iff u e.username).0 (ground arith) in
            (
              inr (picked-mem u e es k owned (rw here at from)),
              (λ q. before e here, later),
              λ prev q.
                  not_lt_trans k.generated_at e.generated_at prev.generated_at (before e here) (
                    text_lt_asymm prev.generated_at e.generated_at
                      (newer-lt (u == e.username) prev e (rw q at p))),
            )
        | inr p ↦
            let here : pick u o e ≡ o = rw p refl in
            (
              kept-mem u e es k o (rw here at from),
              (
                λ owned. elim (Option-cases o) [
                  | inl q ↦ absurd (false≢true (sym p ∙ not_newer-none u o e q owned))
                  | inr (prev, q) ↦
                      not_lt_trans k.generated_at prev.generated_at e.generated_at
                        (before prev (here ∙ q)) (newer-not_lt u prev e (rw q at p) owned)
                ],
                later,
              ),
              λ prev q. before prev (here ∙ q),
            )
      ]

  is_seen-pick :
      (u : Text) (o : Option (SignedExport F)) (e : SignedExport F)
      → is_seen (pick u o e) ≡ (is_seen o || u == e.username)
  is_seen-pick u none e = ground arith
  is_seen-pick u (some prev) e = ground arith

  is_seen-best :
      (u : Text) (es : List (SignedExport F)) (o : Option (SignedExport F))
      → is_seen (best u o es) ≡ (is_seen o || any (λ v. u == v) (map (λ e. e.username) es))
  is_seen-best u [] o = ground arith
  is_seen-best u (e ∷ es) o = ground (arith, is_seen-best u es (pick u o e), is_seen-pick u o e)

  get_or-lookup :
      (u : Text) (m : Assoc Text (SignedExport F)) (k : SignedExport F)
      → lookup u m ≡ some k
      → get_or zero_export u m ≡ k
  unfolding lookup get_or
  get_or-lookup u [] k h = cc
  get_or-lookup u ((v, e) ∷ m) k h = ground (arith, get_or-lookup u m k)

  owner-IsNewest :
      (u : Text) (es : List (SignedExport F)) (k : SignedExport F)
      → IsNewest u es k
      → IsNewest k.username es k
  owner-IsNewest u es k h = record {
    mem = h.mem;
    owner = refl;
    newest = All-imp _ _ es (λ f h' q. h' (q ∙ h.owner)) h.newest;
  }

  best-IsNewest :
      (u : Text) (es : List (SignedExport F)) (k : SignedExport F)
      → best u none es ≡ some k
      → IsNewest u es k
  best-IsNewest u es k h =
      let (from, later, before) = best-IsBest u es none k h in
      elim from [ inl x ↦ cc | inr (m, o) ↦ record { mem = m; owner = o; newest = later } ]

  -- What Dedupe keeps of the exports.
  pub record AreLatest (es kept : List (SignedExport F)) : Type 0 where
    pub users_eq : map (λ k. k.username) kept ≡ firsts (map (λ e. e.username) es)
    pub newest : All (λ k. IsNewest k.username es k) kept

  kept-AreNewest :
      (es : List (SignedExport F)) (latest : Assoc Text (SignedExport F)) (us : List Text)
      → ((u : Text) → lookup u latest ≡ best u none es)
      → All (λ u. any (λ v. u == v) (map (λ e. e.username) es) ≡ true) us
      → let kept = map (λ u. get_or zero_export u latest) us in
        (map (λ k. k.username) kept ≡ us) × All (λ k. IsNewest k.username es k) kept
  kept-AreNewest es latest [] h found = (refl, tt)
  kept-AreNewest es latest (u ∷ us) h found =
      let rest = kept-AreNewest es latest us h found.1 in
      elim (Option-cases (best u none es)) [
        | inl none_ ↦
            absurd (false≢true (sym (ap is_seen none_) ∙ is_seen-best u es none ∙ found.0))
        | inr (k, e) ↦
            let got : get_or zero_export u latest ≡ k = get_or-lookup u latest k (h u ∙ e) in
            let newest = best-IsNewest u es k e in
            rw got (rw (newest.owner, rest.0) refl, (owner-IsNewest u es k newest, rest.1))
      ]

  -- Dedupe keeps one export of each user, in the order in which the users come first; and each export
  -- that it keeps is one of the exports of its user, none of which has a later time.
  pub dedupe-AreLatest : (es : List (SignedExport F)) → AreLatest es (dedupe es)
  unfolding dedupe lookup has_key
  dedupe-AreLatest es =
      let start : Dedupe F = record { latest = []; order = [] } in
      let order : (foldl dedupe_step start es).order ≡ firsts (map (λ e. e.username) es) =
        order-foldl es start ∙ select-true _ (λ v. refl) (firsts (map (λ e. e.username) es)) in
      let (users, newest) =
        kept-AreNewest es (foldl dedupe_step start es).latest (firsts (map (λ e. e.username) es))
          (λ u. lookup-foldl u es start) (firsts-any (map (λ e. e.username) es)) in
      rw order (record { users_eq = users; newest = newest })
