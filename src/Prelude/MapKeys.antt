-- ===== src/Prelude/MapKeys.antt =====
-- The keys of a map that a loop fills, in the order of their first insertion.
use mathlib.Core.Path.{◌≡◌, refl, ap, ◌∙◌}
use mathlib.Core.Logic.{inl, inr}
use mathlib.Core.List.{List, [], ◌∷◌, map, foldl}
use codeburn_watcher.Prelude.Tests.{Bool-cases}
use codeburn_watcher.Prelude.Lists.{any, All}
use codeburn_watcher.Prelude.Keys.{KeyEq, ◌==◌}
use codeburn_watcher.Prelude.Maps.{Assoc, keys, values, upsert}
use codeburn_watcher.Prelude.Distinct.{insert_new, firsts_by, foldl-insert_new_start}

module _ {ℓ} {K : Type ℓ} ⦃e : KeyEq K⦄ where
  -- The keys without those that stand before.
  abbrev pub distinct : List K → List K
  distinct = firsts_by (λ k. k)

module _ {ℓ κ} {K : Type ℓ} {V : Type κ} ⦃e : KeyEq K⦄ (z : V) (k : K) (g : V → V) where
  pub keys-upsert : (m : Assoc K V) → keys (upsert z k g m) ≡ insert_new (λ j. j) (keys m) k
  unfolding upsert
  keys-upsert [] = refl
  keys-upsert ((i, v) ∷ m) = elim (Bool-cases (k == i)) [
    | inl p ↦ rw p refl
    | inr p ↦ elim (Bool-cases (any (λ j. k == j) (keys m))) [
      | inl q ↦ rw (p, keys-upsert m, q) refl
      | inr q ↦ rw (p, keys-upsert m, q) refl
    ]
  ]

  -- What the zero value has after the change, and every value keeps, all values have.
  pub All-upsert-fresh {μ} :
      (P : V → Type μ) (m : Assoc K V)
      → P (g z)
      → ((v : V) → P v → P (g v))
      → All P (values m)
      → All P (values (upsert z k g m))
  unfolding upsert
  All-upsert-fresh P [] hz hg h = (hz, tt)
  All-upsert-fresh P ((i, v) ∷ m) hz hg h = elim (Bool-cases (k == i)) [
    | inl p ↦ rw p (hg v h.0, h.1)
    | inr p ↦ rw p (h.0, All-upsert-fresh P m hz hg h.1)
  ]

module _ {ℓ κ μ} {K : Type ℓ} {V : Type κ} {A : Type μ} ⦃e : KeyEq K⦄ (key : A → K) (z : A → V)
    (g : A → V → V) where
  foldl-keys :
      (m : Assoc K V) (l : List A)
      → keys (foldl (λ m x. upsert (z x) (key x) (g x) m) m l)
        ≡ foldl (insert_new (λ k. k)) (keys m) (map key l)
  foldl-keys m [] = refl
  foldl-keys m (x ∷ l) =
      foldl-keys (upsert (z x) (key x) (g x) m) l
      ∙ ap (λ ks. foldl (insert_new (λ k. k)) ks (map key l)) (keys-upsert (z x) (key x) (g x) m)

  -- The keys of a map that a loop fills, each round under the key of its element.
  pub keys-foldl :
      (l : List A) → keys (foldl (λ m x. upsert (z x) (key x) (g x) m) [] l) ≡ distinct (map key l)
  keys-foldl l = foldl-keys [] l ∙ foldl-insert_new_start (λ k. k) (map key l)
