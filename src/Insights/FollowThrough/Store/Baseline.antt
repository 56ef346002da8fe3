-- ===== src/Insights/FollowThrough/Store/Baseline.antt =====
-- The baseline of a finding is stored once and read back by the next Sync.
use mathlib.Core.Path.{subst}
use codeburn_watcher.Prelude.{
  ℕ, ◌≡◌, sym, ap, ◌∙◌, true, Option, none, some, List, [], ◌∷◌, arith, Text, if◌then◌else◌, ◌==◌,
  lookup, has_one, own_keys, All, All-imp, Bool-cases, inl, inr,
}
use codeburn_watcher.Prelude.Results.{ok}
use codeburn_watcher.Prelude.Float.{Float64}
use codeburn_watcher.Analytics.Metrics.{Metrics}
use codeburn_watcher.Insights.Finding.{MetricKey, key_eq}
use codeburn_watcher.Insights.Recommendation.{EnrichedRecommendation}
use codeburn_watcher.Insights.FollowThrough.{FollowThroughRecord, index_records, metric_value, sync}
use codeburn_watcher.Insights.FollowThrough.Status.{IsFollowed}
use codeburn_watcher.Insights.FollowThrough.Sync.{sync-IsSynced}
use codeburn_watcher.Insights.FollowThrough.Store.{
  Row, Engine, IsEngine, Calls, row_of, load_records, upsert_records, repository,
}
use codeburn_watcher.Insights.FollowThrough.Store.Rows.{
  row_after, upsert_records-row, read_back, load_records-row,
}

All-both {ℓ κ μ ν} :
    {A : Type ℓ} (P : A → Type κ) (Q : A → Type μ) {R : A → Type ν} (l : List A)
    → ((x : A) → P x → Q x → R x)
    → All P l
    → All Q l
    → All R l
All-both P Q [] f h k = tt
All-both P Q (x ∷ l) f h k = (f x h.0 k.0, All-both P Q l f h.1 k.1)

module _ {F : Type 0} ⦃d : Float64 F⦄ (calls : Calls) where
  -- The baseline that a Sync gives a key: the stored one, or the value of the metrics and the time.
  abbrev baseline : ℕ → Metrics F → Option (FollowThroughRecord F) → MetricKey → F × ℕ
  baseline now m none k = (metric_value k m, now)
  baseline now m (some old) k = (old.baseline_value, old.baseline_ts)

  IsFollowed-baseline :
      (now : ℕ) (m : Metrics F) (o : Option (FollowThroughRecord F)) (r : FollowThroughRecord F)
      → IsFollowed now m o r
      → (r.baseline_value ≡ (baseline now m o r.key).0)
        × (r.baseline_ts ≡ (baseline now m o r.key).1)
  IsFollowed-baseline now m none r h = (h.0, h.1)
  IsFollowed-baseline now m (some old) r h = (h.0, h.1)

  module _ (base : MetricKey → F × ℕ) where
    abbrev HasBase : FollowThroughRecord F → Type 0
    HasBase r = (r.baseline_value ≡ (base r.key).0) × (r.baseline_ts ≡ (base r.key).1)

    -- The row of a key with its baseline.
    abbrev IsBased : MetricKey → Option (Row F) → Type 0
    IsBased k none = ⊥
    IsBased k (some q) = (q.baseline_value ≡ (base k).0) × (q.baseline_ts ≡ calls.format (base k).1)

    row_of-IsBased :
        (now : Text) (k : MetricKey) (r : FollowThroughRecord F)
        → (k == r.key) ≡ true
        → HasBase r
        → IsBased k (some (row_of calls now r))
    row_of-IsBased now k r p h =
        let same : k ≡ r.key = (key_eq.beq_iff k r.key).0 p in rw same (h.0, ap calls.format h.1)

    row_after-IsBased :
        (now : Text) (k : MetricKey) (o : Option (Row F)) (rs : List (FollowThroughRecord F))
        → All HasBase rs
        → IsBased k o
        → IsBased k (row_after calls now k o rs)
    row_after-IsBased now k o [] a h = h
    row_after-IsBased now k o (r ∷ rs) a h =
        row_after-IsBased now k (if k == r.key then some (row_of calls now r) else o) rs a.1
          (elim (Bool-cases (k == r.key)) [
            | inl p ↦ rw p (row_of-IsBased now k r p a.0)
            | inr p ↦ rw p h
          ])

    row_after-stored :
        (now : Text) (k : MetricKey) (o : Option (Row F)) (rs : List (FollowThroughRecord F))
        → All HasBase rs
        → has_one (λ (r : FollowThroughRecord F). r.key) k rs ≡ true
        → IsBased k (row_after calls now k o rs)
    row_after-stored now k o [] a h = absurd (cc)
    row_after-stored now k o (r ∷ rs) a h = elim (Bool-cases (k == r.key)) [
      | inl p ↦
          row_after-IsBased now k (if k == r.key then some (row_of calls now r) else o) rs a.1
            (rw p (row_of-IsBased now k r p a.0))
      | inr p ↦
          row_after-stored now k (if k == r.key then some (row_of calls now r) else o) rs a.1
            (ground arith)
    ]

    -- A record that follows a based row has the baseline of the row.
    IsFollowed-IsBased :
        (now : ℕ) (m : Metrics F) (o : Option (Row F)) (r : FollowThroughRecord F)
        → IsBased r.key o
        → IsFollowed now m (read_back calls o) r
        → (r.baseline_value ≡ (base r.key).0)
          × (r.baseline_ts ≡ calls.parse (calls.format (base r.key).1))
    IsFollowed-IsBased now m none r b h = absurd b
    IsFollowed-IsBased now m (some q) r b h = (h.0 ∙ b.0, h.1 ∙ ap calls.parse b.1)

  All-HasBase :
      (now : ℕ) (m : Metrics F) (old : MetricKey → Option (FollowThroughRecord F))
      (l : List (FollowThroughRecord F))
      → All (λ r. IsFollowed now m (old r.key) r) l
      → All (HasBase (λ k. baseline now m (old k) k)) l
  All-HasBase now m old l h = All-imp _ _ l (λ r f. IsFollowed-baseline now m (old r.key) r f) h

  module _ {S : Type 0} (e : Engine S F) (laws : IsEngine e) where
    row-IsBased :
        (base : MetricKey → F × ℕ) (t : Text) (s : S) (first : List (FollowThroughRecord F))
        (k : MetricKey)
        → All (HasBase base) first
        → (upsert_records calls e t s first).answer ≡ ok tt
        → has_one (λ (q : FollowThroughRecord F). q.key) k first ≡ true
        → IsBased base k (e.row k (upsert_records calls e t s first).db)
    row-IsBased base t s first k based written own =
        rw (upsert_records-row calls t e laws k s first written)
          (row_after-stored base t k (e.row k s) first based own)

    -- What a record of the second Sync has, if the first had its key.
    follow_based :
        (base : MetricKey → F × ℕ) (t : Text) (s : S) (first stored : List (FollowThroughRecord F))
        (r' : FollowThroughRecord F) (now' : ℕ) (m' : Metrics F)
        → All (HasBase base) first
        → (upsert_records calls e t s first).answer ≡ ok tt
        → load_records calls e (upsert_records calls e t s first).db ≡ ok stored
        → has_one (λ (q : FollowThroughRecord F). q.key) r'.key first ≡ true
        → IsFollowed now' m' (lookup r'.key (index_records stored)) r'
        → (r'.baseline_value ≡ (base r'.key).0)
          × (r'.baseline_ts ≡ calls.parse (calls.format (base r'.key).1))
    follow_based base t s first stored r' now' m' based written loaded own f =
        let s' = (upsert_records calls e t s first).db in
        let same = load_records-row calls e laws r'.key s' stored loaded in
        IsFollowed-IsBased base now' m' (e.row r'.key s') r'
          (row-IsBased base t s first r'.key based written own)
          (subst (λ o. IsFollowed now' m' o r') same f)

    -- A baseline of a key is that of a record with the key.
    same_base :
        (base : MetricKey → F × ℕ) (r r' : FollowThroughRecord F)
        → r'.key ≡ r.key
        → HasBase base r
        → (r'.baseline_value ≡ (base r'.key).0)
          × (r'.baseline_ts ≡ calls.parse (calls.format (base r'.key).1))
        → (r'.baseline_value ≡ r.baseline_value)
          × (r'.baseline_ts ≡ calls.parse (calls.format r.baseline_ts))
    same_base base r r' same h f = (
      f.0 ∙ ap (λ k. (base k).0) same ∙ sym h.0,
      f.1
          ∙ ap (λ k. calls.parse (calls.format (base k).1)) same
          ∙ ap (λ n. calls.parse (calls.format n)) (sym h.1),
    )

    -- If a Sync over the store returns records, and later a Sync over the store that it left returns records
    -- too, each of these with the key of one of the first has the first's baseline: its value, and its time
    -- as it is printed and parsed.
    pub sync_twice :
        (t t' : Text) (now now' : ℕ) (recs recs' : List (EnrichedRecommendation F))
        (m m' : Metrics F) (s : S) {first second : List (FollowThroughRecord F)}
        → sync (repository calls e t s) now recs m ≡ ok first
        → sync (repository calls e t' (upsert_records calls e t s first).db) now' recs' m'
          ≡ ok second
        → All
            (λ r.
              All
                (λ r'.
                  r'.key ≡ r.key
                  → (r'.baseline_value ≡ r.baseline_value)
                    × (r'.baseline_ts ≡ calls.parse (calls.format r.baseline_ts)))
                second)
            first
    sync_twice t t' now now' recs recs' m m' s {first} {second} h h' =
        let a = sync-IsSynced (repository calls e t s) now recs m h in
        let s' = (upsert_records calls e t s first).db in
        let b = sync-IsSynced (repository calls e t' s') now' recs' m' h' in
        let old : MetricKey → Option (FollowThroughRecord F) =
          λ k. lookup k (index_records a.stored) in
        let base : MetricKey → F × ℕ = λ k. baseline now m (old k) k in
        let based = All-HasBase now m old first a.followed in
        All-both (λ r. has_one (λ (q : FollowThroughRecord F). q.key) r.key first ≡ true)
          (HasBase base) first
          (λ r own r_based.
            All-imp _ _ second
              (λ r' f same.
                let held =
                  subst (λ k. has_one (λ (q : FollowThroughRecord F). q.key) k first ≡ true)
                    (sym same) own in
                same_base base r r' same r_based
                  (follow_based base t s first b.stored r' now' m' based a.written b.loaded held f))
              b.followed)
          (own_keys (λ (q : FollowThroughRecord F). q.key) first) based
