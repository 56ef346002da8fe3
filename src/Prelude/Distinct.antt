-- ===== src/Prelude/Distinct.antt =====
-- The elements of a list with distinct keys: the loops that skip a key that they have seen.
use mathlib.Core.Path.{◌≡◌, refl, ap, ◌∙◌}
use mathlib.Core.Bool.{Bool, true, false, not, ◌||◌, ◌&&◌}
use mathlib.Core.Logic.{◌↔◌, inl, inr}
use mathlib.Core.List.{List, [], ◌∷◌, ◌++◌, map, foldl, append-nil, append_assoc}
use native.Mathlib.Omega.{arith}
use codeburn_watcher.Prelude.Tests.{if◌then◌else◌, Bool-cases}
use codeburn_watcher.Prelude.Lists.{
  All, any, select, select-select, select-true, All-select, All-imp, any-append, select-map,
}
use codeburn_watcher.Prelude.Keys.{KeyEq, ◌==◌, ==_refl}

abbrev pub pair_beq {ℓ κ} :
    {A : Type ℓ} {B : Type κ} ⦃a : KeyEq A⦄ ⦃b : KeyEq B⦄ → A × B → A × B → Bool
pair_beq x y = (x.0 == y.0) && (x.1 == y.1)

pub pair_beq_iff {ℓ κ} :
    {A : Type ℓ} {B : Type κ} ⦃a : KeyEq A⦄ ⦃b : KeyEq B⦄ (x y : A × B)
    → (pair_beq x y ≡ true) ↔ (x ≡ y)
pair_beq_iff ⦃a⦄ ⦃b⦄ x y = ground (arith, a.beq_iff x.0 y.0, b.beq_iff x.1 y.1)

-- Keys that are pairs.
instance abbrev pub pair_eq {ℓ κ} :
    {A : Type ℓ} {B : Type κ} ⦃a : KeyEq A⦄ ⦃b : KeyEq B⦄ → KeyEq (A × B)
pair_eq = record { beq = pair_beq; beq_iff = pair_beq_iff }

module _ {ℓ κ} {A : Type ℓ} {K : Type κ} ⦃e : KeyEq K⦄ (key : A → K) where
  -- Some element has the key.
  abbrev pub has_one : K → List A → Bool
  has_one k l = any (λ x. k == key x) l

  -- The elements whose keys no element before them has.
  abbrev pub firsts_by : List A → List A
  firsts_by [] = []
  firsts_by (x ∷ l) = x ∷ select (λ y. not (key y == key x)) (firsts_by l)

  -- No two elements have the same key.
  abbrev pub HasDistinct : List A → Type 0
  HasDistinct [] = Unit {0}
  HasDistinct (x ∷ l) = (has_one (key x) l ≡ false) × HasDistinct l

  abbrev pub insert_new : List A → A → List A
  insert_new l x = if has_one (key x) l then l else l ++ (x ∷ [])

  has_one-eq : (j k : K) (l : List A) → (j == k) ≡ true → has_one j l ≡ has_one k l
  has_one-eq j k l h = ap (λ i. has_one i l) ((e.beq_iff j k).0 h)

  seen_key :
      (y x : A) (acc : List A)
      → has_one (key x) acc ≡ true
      → (not (has_one (key y) acc) && not (key y == key x)) ≡ not (has_one (key y) acc)
  seen_key y x acc p = ground (arith, has_one-eq (key y) (key x) acc)

  pub foldl-insert_new :
      (l acc : List A)
      → foldl insert_new acc l ≡ acc ++ select (λ y. not (has_one (key y) acc)) (firsts_by l)
  unfolding select
  foldl-insert_new [] acc = rw append-nil
  foldl-insert_new (x ∷ l) acc =
      let fresh = λ (y : A). not (has_one (key y) acc) in
      let other = λ (y : A). not (key y == key x) in
      elim (Bool-cases (has_one (key x) acc)) [
        | inl p ↦
            let same = select-select fresh other fresh (firsts_by l) (λ y. seen_key y x acc p) in
            rw (p, same) (foldl-insert_new l acc)
        | inr p ↦
            let grown = λ (y : A). not (has_one (key y) (acc ++ (x ∷ []))) in
            let same =
              select-select fresh other grown (firsts_by l)
                (λ y. ground (arith, any-append (λ z. key y == key z) acc (x ∷ []))) in
            rw (p, same)
              (foldl-insert_new l (acc ++ (x ∷ []))
                ∙ append_assoc acc (x ∷ []) (select grown (firsts_by l)))
      ]

  pub foldl-insert_new_start : (l : List A) → foldl insert_new [] l ≡ firsts_by l
  foldl-insert_new_start l = foldl-insert_new l [] ∙ select-true _ (λ y. refl) (firsts_by l)

  has_one-select :
      (k j : K) (l : List A)
      → (k == j) ≡ false
      → has_one k (select (λ y. not (key y == j)) l) ≡ has_one k l
  unfolding select
  has_one-select k j [] h = refl
  has_one-select k j (x ∷ l) h =
      ground
        (arith, e.beq_iff k (key x), e.beq_iff (key x) j, e.beq_iff k j, has_one-select k j l h)

  -- No key gets lost.
  pub has_one-firsts_by : (k : K) (l : List A) → has_one k (firsts_by l) ≡ has_one k l
  has_one-firsts_by k [] = refl
  has_one-firsts_by k (x ∷ l) =
      ground (arith, has_one-select k (key x) (firsts_by l), has_one-firsts_by k l)

  has_none-select :
      (j : K) (q : A → Bool) (l : List A) → has_one j l ≡ false → has_one j (select q l) ≡ false
  unfolding select
  has_none-select j q [] h = refl
  has_none-select j q (x ∷ l) h = ground (arith, has_none-select j q l)

  select-HasDistinct : (q : A → Bool) (l : List A) → HasDistinct l → HasDistinct (select q l)
  unfolding select
  select-HasDistinct q [] h = tt
  select-HasDistinct q (x ∷ l) h = elim (Bool-cases (q x)) [
    | inl p ↦ rw p (has_none-select (key x) q l h.0, select-HasDistinct q l h.1)
    | inr p ↦ rw p (select-HasDistinct q l h.1)
  ]

  has_none : (j : K) (l : List A) → has_one j (select (λ y. not (key y == j)) l) ≡ false
  unfolding select
  has_none j [] = refl
  has_none j (x ∷ l) = ground (arith, e.beq_iff j (key x), e.beq_iff (key x) j, has_none j l)

  pub firsts_by-HasDistinct : (l : List A) → HasDistinct (firsts_by l)
  firsts_by-HasDistinct [] = tt
  firsts_by-HasDistinct (x ∷ l) =
      (has_none (key x) (firsts_by l), select-HasDistinct _ (firsts_by l) (firsts_by-HasDistinct l))

  pub firsts_by-All {μ} : (P : A → Type μ) (l : List A) → All P l → All P (firsts_by l)
  firsts_by-All P [] h = tt
  firsts_by-All P (x ∷ l) h = (h.0, All-select P _ (firsts_by l) (firsts_by-All P l h.1))

  has_one-insert_new :
      (k : K) (l : List A) (x : A) → has_one k (insert_new l x) ≡ (has_one k l || k == key x)
  has_one-insert_new k l x = elim (Bool-cases (has_one (key x) l)) [
    | inl p ↦ rw p (ground (arith, has_one-eq k (key x) l))
    | inr p ↦ rw p (ground (arith, any-append (λ y. k == key y) l (x ∷ [])))
  ]

  has_one-foldl :
      (k : K) (l acc : List A) → has_one k (foldl insert_new acc l) ≡ (has_one k acc || has_one k l)
  has_one-foldl k [] acc = ground arith
  has_one-foldl k (x ∷ l) acc =
      ground (arith, has_one-foldl k l (insert_new acc x), has_one-insert_new k acc x)

  foldl-seen :
      (l acc : List A) → All (λ x. has_one (key x) acc ≡ true) l → foldl insert_new acc l ≡ acc
  foldl-seen [] acc h = refl
  foldl-seen (x ∷ l) acc h = rw h.0 (foldl-seen l acc h.1)

  pub own_keys : (l : List A) → All (λ x. has_one (key x) l ≡ true) l
  own_keys [] = tt
  own_keys (x ∷ l) =
      (ground (arith, ==_refl (key x)), All-imp _ _ l (λ y h. ground arith) (own_keys l))

  -- To insert the same elements again changes nothing.
  pub foldl-insert_new_twice :
      (l acc : List A) → foldl insert_new (foldl insert_new acc l) l ≡ foldl insert_new acc l
  foldl-insert_new_twice l acc =
      foldl-seen l (foldl insert_new acc l)
        (All-imp _ _ l (λ y h. ground (arith, has_one-foldl (key y) l acc)) (own_keys l))

pub firsts_by-map {ℓ κ μ} :
    {A : Type ℓ} {B : Type κ} {K : Type μ} ⦃e : KeyEq K⦄ (key : B → K) (f : A → B) (l : List A)
    → firsts_by key (map f l) ≡ map f (firsts_by (λ x. key (f x)) l)
firsts_by-map key f [] = refl
firsts_by-map key f (x ∷ l) =
    ap (λ m. f x ∷ m)
      (rw (firsts_by-map key f l)
        (select-map (λ y. not (key y == key (f x))) f (firsts_by (λ y. key (f y)) l)))
