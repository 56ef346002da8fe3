-- ===== src/Prelude/MapSums.antt =====
-- Sums over the entries of a map, and sums of look-ups.
use Prim.Native.Nat.{ℕ, ◌+◌, ◌≤◌}
use mathlib.Core.Path.{◌≡◌, refl}
use mathlib.Core.Bool.{false}
use mathlib.Core.List.{[], ◌∷◌}
use native.Mathlib.Omega.{arith}
use codeburn_watcher.Prelude.Lists.{sum_by}
use codeburn_watcher.Prelude.Keys.{KeyEq, ◌==◌, ==_refl}
use codeburn_watcher.Prelude.Maps.{Assoc, keys, values, get_or, has_key, IsMap}

abbrev pub total {ℓ} : {K : Type ℓ} → Assoc K ℕ → ℕ
total m = sum_by (λ n. n) (values m)

module _ {ℓ} {K : Type ℓ} ⦃e : KeyEq K⦄ where
  pub get_or-fresh : (k : K) (m : Assoc K ℕ) → has_key k m ≡ false → get_or 0 k m ≡ 0
  unfolding get_or has_key
  get_or-fresh k [] h = refl
  get_or-fresh k ((j, n) ∷ m) h = ground (arith, get_or-fresh k m)

  pub get_or-le-total : (k : K) (m : Assoc K ℕ) → get_or 0 k m ≤ total m
  unfolding get_or
  get_or-le-total k [] = omega arith
  get_or-le-total k ((j, n) ∷ m) = ground (arith, get_or-le-total k m)

  -- Two different keys take two different entries.
  pub two-le-total :
      (k j : K) (m : Assoc K ℕ) → (k == j) ≡ false → get_or 0 k m + get_or 0 j m ≤ total m
  unfolding get_or
  two-le-total k j [] h = omega arith
  two-le-total k j ((i, n) ∷ m) h = ground (
    arith,
    e.beq_iff k i,
    e.beq_iff j i,
    e.beq_iff k j,
    two-le-total k j m,
    get_or-le-total k m,
    get_or-le-total j m,
  )

  skip_key :
      (j : K) (n : ℕ) (m l : Assoc K ℕ)
      → has_key j l ≡ false
      → sum_by (λ k. get_or 0 k ((j, n) ∷ m)) (keys l) ≡ sum_by (λ k. get_or 0 k m) (keys l)
  unfolding get_or has_key
  skip_key j n m [] h = refl
  skip_key j n m ((k, v) ∷ l) h = ground (arith, e.beq_iff j k, e.beq_iff k j, skip_key j n m l)

  -- To look up each key once is to sum the entries.
  pub sum-keys : (m : Assoc K ℕ) → IsMap m → sum_by (λ k. get_or 0 k m) (keys m) ≡ total m
  sum-keys [] h = refl
  sum-keys ((k, n) ∷ m) h =
      let here : get_or 0 k ((k, n) ∷ m) ≡ n = unfold get_or in rw ==_refl in
      omega (arith, here, skip_key k n m m h.0, sum-keys m h.1)
