-- ===== src/Insights/FollowThrough/Store/Rows.antt =====
-- The rows of the table after an upsert, and the records that a load gives of them.
use codeburn_watcher.Prelude.{
  ◌≡◌, refl, sym, ap, ◌∙◌, false, Option, none, some, List, [], ◌∷◌, map, foldl, arith, Text,
  if◌then◌else◌, ◌==◌, Assoc, lookup, insert, lookup-insert, HasDistinct, has_one, Bool-cases, inl,
  inr,
}
use codeburn_watcher.Prelude.Results.{Result, ok, err, Result-cases}
use codeburn_watcher.Prelude.Float.{Float64}
use codeburn_watcher.Insights.Finding.{MetricKey, key_eq}
use codeburn_watcher.Insights.FollowThrough.{FollowThroughRecord, index_records}
use codeburn_watcher.Insights.FollowThrough.Store.{
  Row, find, Engine, IsEngine, Calls, record_of, row_of, load_records, replace_all, commit_all,
  upsert_records,
}

-- The last record with a key, or else the given row.
module _ {F : Type 0} (calls : Calls) (now : Text) where
  abbrev pub row_after : MetricKey → Option (Row F) → List (FollowThroughRecord F) → Option (Row F)
  row_after k o [] = o
  row_after k o (r ∷ rs) = row_after k (if k == r.key then some (row_of calls now r) else o) rs

  module _ {S : Type 0} (e : Engine S F) (laws : IsEngine e) where
    replace_all_lem :
        (k : MetricKey) (rs : List (FollowThroughRecord F)) (t u : S)
        → replace_all calls e now t rs ≡ ok u
        → e.row k u ≡ row_after k (e.row k t) rs
    unfolding replace_all
    replace_all_lem k [] t u h = let same : t ≡ u = cc in ap (e.row k) (sym same)
    replace_all_lem k (r ∷ rs) t u h = elim (Result-cases (e.replace (row_of calls now r) t)) [
      | inl (m, p) ↦ cc (rw (p, replace_all) at h)
      | inr (v, p) ↦
          replace_all_lem k rs v u (rw (p, replace_all) at h)
          ∙ ap (λ o. row_after k o rs) (laws.row-replace k (row_of calls now r) t v p)
    ]

    commit_all_lem :
        (k : MetricKey) (s : S) (m : Result Text S)
        → (commit_all calls e s m).answer ≡ ok tt
        → (u : S) × (m ≡ ok u) × (e.row k (commit_all calls e s m).db ≡ e.row k u)
    unfolding commit_all
    commit_all_lem k s (err m) h = cc
    commit_all_lem k s (ok t) h = elim (Result-cases (e.commit t)) [
      | inl (m, p) ↦ cc (rw (p, commit_all) at h)
      | inr (v, p) ↦ (t, refl, rw (p, commit_all) (laws.row-commit k t v p))
    ]

    -- After an upsert without an error the row of a key is that of the last record with the key, and the
    -- old one if there is none.
    pub upsert_records-row :
        (k : MetricKey) (s : S) (rs : List (FollowThroughRecord F))
        → (upsert_records calls e now s rs).answer ≡ ok tt
        → e.row k (upsert_records calls e now s rs).db ≡ row_after k (e.row k s) rs
    unfolding upsert_records
    upsert_records-row k s [] h = refl
    upsert_records-row k s (r ∷ rs) h = elim (Result-cases (e.begin_tx s)) [
      | inl (m, p) ↦ cc (rw (p, upsert_records) at h)
      | inr (t, p) ↦ elim (Result-cases (e.prepare t)) [
        | inl (m, q) ↦ cc (rw (p, q, upsert_records) at h)
        | inr (u, q) ↦
            let (v, done, row) =
              commit_all_lem k s (replace_all calls e now u (r ∷ rs))
                (rw (p, q, upsert_records) at h) in
            rw (p, q, upsert_records)
              (row
                ∙ replace_all_lem k (r ∷ rs) u v done
                ∙ ap (λ o. row_after k o (r ∷ rs))
                    (laws.row-prepare k t u q ∙ laws.row-begin_tx k s t p))
      ]
    ]

-- Reading: what Sync looks up of the stored records is the row of the key.
module _ {F : Type 0} (calls : Calls) where
  abbrev pub read_back : Option (Row F) → Option (FollowThroughRecord F)
  read_back none = none
  read_back (some r) = some (record_of calls r)

  abbrev last_record :
      MetricKey
      → Option (FollowThroughRecord F)
      → List (FollowThroughRecord F)
      → Option (FollowThroughRecord F)
  last_record k o [] = o
  last_record k o (r ∷ rs) = last_record k (if k == r.key then some r else o) rs

  lookup-foldl :
      (k : MetricKey) (rs : List (FollowThroughRecord F))
      (m : Assoc MetricKey (FollowThroughRecord F))
      → lookup k (foldl (λ n r. insert r.key r n) m rs) ≡ last_record k (lookup k m) rs
  lookup-foldl k [] m = refl
  lookup-foldl k (r ∷ rs) m =
      lookup-foldl k rs (insert r.key r m)
      ∙ ap (λ o. last_record k o rs) (lookup-insert r.key r m k)

  last_record-none :
      (k : MetricKey) (o : Option (FollowThroughRecord F)) (l : List (Row F))
      → has_one (λ (r : Row F). r.metric_key) k l ≡ false
      → last_record k o (map (record_of calls) l) ≡ o
  last_record-none k o [] h = refl
  last_record-none k o (r ∷ l) h =
      let other : (k == r.metric_key) ≡ false = ground arith in
      let rest : has_one (λ (q : Row F). q.metric_key) k l ≡ false = ground arith in
      let skip : (if k == r.metric_key then some (record_of calls r) else o) ≡ o = rw other refl in
      ap (λ p. last_record k p (map (record_of calls) l)) skip ∙ last_record-none k o l rest

  last_record-find :
      (k : MetricKey) (l : List (Row F))
      → HasDistinct (λ (r : Row F). r.metric_key) l
      → last_record k none (map (record_of calls) l) ≡ read_back (find k l)
  last_record-find k [] h = refl
  last_record-find k (r ∷ l) h = elim (Bool-cases (k == r.metric_key)) [
    | inl p ↦
        let same : k ≡ r.metric_key = (key_eq.beq_iff k r.metric_key).0 p in
        let take : (if k == r.metric_key then some (record_of calls r) else none)
            ≡ some (record_of calls r) =
          rw p refl in
        rw p (
          ap (λ q. last_record k q (map (record_of calls) l)) take
          ∙ last_record-none k (some (record_of calls r)) l (rw same h.0))
    | inr p ↦
        let skip : ◌≡◌ {A = Option (FollowThroughRecord F)}
            (if k == r.metric_key then some (record_of calls r) else none) none =
          rw p refl in
        rw p (ap (λ q. last_record k q (map (record_of calls) l)) skip ∙ last_record-find k l h.1)
  ]

  module _ ⦃d : Float64 F⦄ {S : Type 0} (e : Engine S F) (laws : IsEngine e) where
    pub load_records-row :
        (k : MetricKey) (s : S) (stored : List (FollowThroughRecord F))
        → load_records calls e s ≡ ok stored
        → lookup k (index_records stored) ≡ read_back (e.row k s)
    unfolding load_records index_records lookup
    load_records-row k s stored h = elim (Result-cases (e.query s)) [
      | inl (m, p) ↦ cc (rw (p, load_records) at h)
      | inr ((l, some m), p) ↦ cc (rw (p, load_records) at h)
      | inr ((l, none), p) ↦
          let (distinct, rows) = laws.query_rows s l p in
          let same : map (record_of calls) l ≡ stored = cc (rw (p, load_records) at h) in
          rw (← same) (
            lookup-foldl k (map (record_of calls) l) []
            ∙ last_record-find k l distinct
            ∙ ap read_back (rows k))
    ]
