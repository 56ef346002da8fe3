-- ===== src/Prelude/Tally.antt =====
-- Sums of a weight by key: the loops `m[key(x)] += weight(x)`.
use Prim.Native.Nat.{ℕ, ◌+◌}
use mathlib.Core.Path.{◌≡◌, refl}
use mathlib.Core.List.{List, [], ◌∷◌, foldl}
use native.Mathlib.Omega.{arith}
use codeburn_watcher.Prelude.Tests.{if◌then◌else◌}
use codeburn_watcher.Prelude.Lists.{sum_by}
use codeburn_watcher.Prelude.Keys.{KeyEq, ◌==◌}
use codeburn_watcher.Prelude.Maps.{
  Assoc, get_or, upsert, IsMap, upsert-IsMap, get_or-upsert, sum-upsert,
}
use codeburn_watcher.Prelude.MapSums.{total}

module _ {ℓ κ} {K : Type ℓ} {A : Type κ} ⦃e : KeyEq K⦄ (key : A → K) (weight : A → ℕ) where
  abbrev pub count_in : Assoc K ℕ → A → Assoc K ℕ
  count_in m x = upsert 0 (key x) (λ n. n + weight x) m

  unfoldable pub tally : List A → Assoc K ℕ
  tally = foldl count_in []

  -- The weight of the elements with a given key.
  abbrev pub weight_at : K → List A → ℕ
  weight_at k = sum_by (λ x. if k == key x then weight x else 0)

  get_or-foldl :
      (k : K) (m : Assoc K ℕ) (l : List A)
      → get_or 0 k (foldl count_in m l) ≡ get_or 0 k m + weight_at k l
  get_or-foldl k m [] = omega arith
  get_or-foldl k m (x ∷ l) = ground (
    arith,
    e.beq_iff k (key x),
    get_or-upsert 0 (key x) (λ n. n + weight x) m k,
    get_or-foldl k (count_in m x) l,
  )

  -- The entry of a key is the weight of the elements with that key, and 0 if there are none.
  pub get_or-tally : (k : K) (l : List A) → get_or 0 k (tally l) ≡ weight_at k l
  unfolding tally get_or
  get_or-tally k l = omega (arith, get_or-foldl k [] l)

  foldl-IsMap : (m : Assoc K ℕ) (l : List A) → IsMap m → IsMap (foldl count_in m l)
  foldl-IsMap m [] h = h
  foldl-IsMap m (x ∷ l) h =
      foldl-IsMap (count_in m x) l (upsert-IsMap 0 (key x) (λ n. n + weight x) m h)

  pub tally-IsMap : (l : List A) → IsMap (tally l)
  unfolding tally
  tally-IsMap l = foldl-IsMap [] l tt

  total-foldl :
      (m : Assoc K ℕ) (l : List A) → total (foldl count_in m l) ≡ total m + sum_by weight l
  total-foldl m [] = omega arith
  total-foldl m (x ∷ l) = omega (
    arith,
    sum-upsert (λ n. n) (weight x) 0 (key x) (λ n. n + weight x) m refl (λ v. refl),
    total-foldl (count_in m x) l,
  )

  -- No weight is lost or counted twice.
  pub total-tally : (l : List A) → total (tally l) ≡ sum_by weight l
  unfolding tally
  total-tally l = omega (arith, total-foldl [] l)
