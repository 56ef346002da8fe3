-- ===== src/Prelude/Maps.antt =====
-- A Go map as the list of its entries, the first inserted first. A loop `range m` of the program
-- meets the entries in any order; the model takes that of the list.
use Prim.Native.Nat.{ℕ, ◌+◌}
use mathlib.Core.Path.{◌≡◌, refl}
use mathlib.Core.Bool.{Bool, false, ◌||◌}
use mathlib.Core.Logic.{inl, inr}
use mathlib.Core.Option.{Option, none, some}
use mathlib.Core.List.{List, [], ◌∷◌, map}
use native.Mathlib.Omega.{arith}
use codeburn_watcher.Prelude.Tests.{if◌then◌else◌, Bool-cases}
use codeburn_watcher.Prelude.Lists.{All, sum_by}
use codeburn_watcher.Prelude.Keys.{KeyEq, ◌==◌}

abbrev pub Assoc {ℓ κ} : Type ℓ → Type κ → Type (ℓ ⊔ κ)
Assoc K V = List (K × V)

module _ {ℓ κ} {K : Type ℓ} {V : Type κ} where
  abbrev pub keys : Assoc K V → List K
  keys m = map (λ e. e.0) m

  abbrev pub values : Assoc K V → List V
  values m = map (λ e. e.1) m

module _ {ℓ κ} {K : Type ℓ} {V : Type κ} ⦃e : KeyEq K⦄ where
  -- v, ok := m[k]
  unfoldable pub lookup : K → Assoc K V → Option V
  lookup k [] = none
  lookup k ((j, v) ∷ m) = if k == j then some v else lookup k m

  -- m[k], with the zero value `z` where the key is missing
  unfoldable pub get_or : V → K → Assoc K V → V
  get_or z k [] = z
  get_or z k ((j, v) ∷ m) = if k == j then v else get_or z k m

  -- m[k] = g(m[k]), with the zero value `z` where the key is missing
  unfoldable pub upsert : V → K → (V → V) → Assoc K V → Assoc K V
  upsert z k g [] = (k, g z) ∷ []
  upsert z k g ((j, v) ∷ m) = if k == j then (j, g v) ∷ m else (j, v) ∷ upsert z k g m

  -- m[k] = v
  abbrev pub insert : K → V → Assoc K V → Assoc K V
  insert k v m = upsert v k (λ _. v) m

  unfoldable pub has_key : K → Assoc K V → Bool
  has_key k [] = false
  has_key k ((j, v) ∷ m) = k == j || has_key k m

  -- No key stands twice.
  abbrev pub IsMap : Assoc K V → Type 0
  IsMap [] = Unit {0}
  IsMap ((k, v) ∷ m) = (has_key k m ≡ false) × IsMap m

  pub has_key-upsert :
      (z : V) (k : K) (g : V → V) (m : Assoc K V) (j : K)
      → has_key j (upsert z k g m) ≡ (j == k || has_key j m)
  unfolding has_key upsert
  has_key-upsert z k g [] j = refl
  has_key-upsert z k g ((i, v) ∷ m) j =
      ground (arith, e.beq_iff k i, e.beq_iff j i, e.beq_iff j k, has_key-upsert z k g m j)

  pub upsert-IsMap : (z : V) (k : K) (g : V → V) (m : Assoc K V) → IsMap m → IsMap (upsert z k g m)
  unfolding has_key upsert
  upsert-IsMap z k g [] h = (refl, tt)
  upsert-IsMap z k g ((i, v) ∷ m) (fresh, h) =
      ground (arith, e.beq_iff k i, e.beq_iff i k, has_key-upsert z k g m i, upsert-IsMap z k g m h)

  pub get_or-upsert :
      (z : V) (k : K) (g : V → V) (m : Assoc K V) (j : K)
      → get_or z j (upsert z k g m) ≡ (if j == k then g (get_or z k m) else get_or z j m)
  unfolding get_or upsert
  get_or-upsert z k g [] j = refl
  get_or-upsert z k g ((i, v) ∷ m) j =
      ground (arith, e.beq_iff k i, e.beq_iff j i, e.beq_iff j k, get_or-upsert z k g m j)

  pub lookup-insert :
      (k : K) (v : V) (m : Assoc K V) (j : K)
      → lookup j (insert k v m) ≡ (if j == k then some v else lookup j m)
  unfolding lookup upsert
  lookup-insert k v [] j = refl
  lookup-insert k v ((i, w) ∷ m) j =
      ground (arith, e.beq_iff k i, e.beq_iff j i, e.beq_iff j k, lookup-insert k v m j)

  -- A measure that `g` raises by `n` at the key raises its total by `n`.
  pub sum-upsert :
      (f : V → ℕ) (n : ℕ) (z : V) (k : K) (g : V → V) (m : Assoc K V)
      → f z ≡ 0
      → ((v : V) → f (g v) ≡ f v + n)
      → sum_by f (values (upsert z k g m)) ≡ sum_by f (values m) + n
  unfolding upsert
  sum-upsert f n z k g [] hz hg = omega (arith, hg z)
  sum-upsert f n z k g ((i, v) ∷ m) hz hg = elim (Bool-cases (k == i)) [
    | inl p ↦ rw p (omega (arith, hg v))
    | inr p ↦ rw p (omega (arith, sum-upsert f n z k g m hz hg))
  ]

  pub All-upsert {μ} :
      (P : V → Type μ) (z : V) (k : K) (g : V → V) (m : Assoc K V)
      → P z
      → ((v : V) → P v → P (g v))
      → All P (values m)
      → All P (values (upsert z k g m))
  unfolding upsert
  All-upsert P z k g [] hz hg h = (hg z hz, tt)
  All-upsert P z k g ((i, v) ∷ m) hz hg h = elim (Bool-cases (k == i)) [
    | inl p ↦ rw p (hg v h.0, h.1)
    | inr p ↦ rw p (h.0, All-upsert P z k g m hz hg h.1)
  ]
