-- ===== src/Prelude/Sort.antt =====
-- Sorting by a `less` test. Go's sort.Slice leaves the order of equal elements open; this sort keeps
-- it, one of the orders that sort.Slice may return.
use Prim.Native.Nat.{ℕ, zero, suc}
use mathlib.Core.Path.{◌≡◌}
use mathlib.Core.Bool.{Bool, true, false}
use mathlib.Core.Logic.{inl, inr}
use mathlib.Core.List.{List, [], ◌∷◌, Perm}
use mathlib.Core.List.Perm
use codeburn_watcher.Prelude.Tests.{if◌then◌else◌, Bool-cases}
use codeburn_watcher.Prelude.Lists.{take, All}

module _ {ℓ} {A : Type ℓ} (less : A → A → Bool) where
  unfoldable pub insert_by : A → List A → List A
  insert_by x [] = x ∷ []
  insert_by x (y ∷ ys) = if less y x then y ∷ insert_by x ys else x ∷ y ∷ ys

  unfoldable pub sort_by : List A → List A
  sort_by [] = []
  sort_by (x ∷ xs) = insert_by x (sort_by xs)

  -- No element is less than the one before it.
  abbrev pub StartsAfter : A → List A → Type 0
  StartsAfter x [] = Unit {0}
  StartsAfter x (y ∷ ys) = less y x ≡ false

  abbrev pub IsSorted : List A → Type 0
  IsSorted [] = Unit {0}
  IsSorted (x ∷ xs) = StartsAfter x xs × IsSorted xs

  insert_by-StartsAfter :
      (z x : A) (l : List A) → less x z ≡ false → StartsAfter z l → StartsAfter z (insert_by x l)
  unfolding insert_by
  insert_by-StartsAfter z x [] h s = h
  insert_by-StartsAfter z x (y ∷ ys) h s = elim (Bool-cases (less y x)) [
    | inl e ↦ rw e s
    | inr e ↦ rw e h
  ]

  insert_by-perm : (x : A) (l : List A) → Perm (insert_by x l) (x ∷ l)
  unfolding insert_by
  insert_by-perm x [] = Perm.refl (x ∷ [])
  insert_by-perm x (y ∷ ys) = elim (Bool-cases (less y x)) [
    | inl e ↦ rw e (Perm.trans (Perm.cons y (insert_by-perm x ys)) (Perm.swap x y ys))
    | inr e ↦ rw e (Perm.refl (x ∷ y ∷ ys))
  ]

  -- Sorting keeps the elements.
  pub sort_by-perm : (l : List A) → Perm (sort_by l) l
  unfolding sort_by
  sort_by-perm [] = Perm.refl []
  sort_by-perm (x ∷ xs) = Perm.trans (insert_by-perm x (sort_by xs)) (Perm.cons x (sort_by-perm xs))

  insert_by-All {κ} : (P : A → Type κ) (x : A) (l : List A) → P x → All P l → All P (insert_by x l)
  unfolding insert_by
  insert_by-All P x [] hx h = (hx, tt)
  insert_by-All P x (y ∷ ys) hx h = elim (Bool-cases (less y x)) [
    | inl e ↦ rw e (h.0, insert_by-All P x ys hx h.1)
    | inr e ↦ rw e (hx, h)
  ]

  pub sort_by-All {κ} : (P : A → Type κ) (l : List A) → All P l → All P (sort_by l)
  unfolding sort_by
  sort_by-All P [] h = tt
  sort_by-All P (x ∷ xs) h = insert_by-All P x (sort_by xs) h.0 (sort_by-All P xs h.1)

  module _ (asymm : (x y : A) → less x y ≡ true → less y x ≡ false) where
    insert_by-IsSorted : (x : A) (l : List A) → IsSorted l → IsSorted (insert_by x l)
    unfolding insert_by
    insert_by-IsSorted x [] s = (tt, tt)
    insert_by-IsSorted x (y ∷ ys) s = elim (Bool-cases (less y x)) [
      | inl e ↦ rw e (insert_by-StartsAfter y x ys (asymm y x e) s.0, insert_by-IsSorted x ys s.1)
      | inr e ↦ rw e (e, s)
    ]

    pub sort_by-IsSorted : (l : List A) → IsSorted (sort_by l)
    unfolding sort_by
    sort_by-IsSorted [] = tt
    sort_by-IsSorted (x ∷ xs) = insert_by-IsSorted x (sort_by xs) (sort_by-IsSorted xs)

pub take-IsSorted {ℓ} :
    {A : Type ℓ} (less : A → A → Bool) (n : ℕ) (l : List A)
    → IsSorted less l
    → IsSorted less (take n l)
take-IsSorted less zero l s = tt
take-IsSorted less (suc n) [] s = tt
take-IsSorted less (suc zero) (x ∷ l) s = (tt, tt)
take-IsSorted less (suc (suc n)) (x ∷ []) s = s
take-IsSorted less (suc (suc n)) (x ∷ y ∷ l) s = (s.0, take-IsSorted less (suc n) (y ∷ l) s.1)
