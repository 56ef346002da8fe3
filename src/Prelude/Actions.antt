-- ===== src/Prelude/Actions.antt =====
-- Calls that change a state and may fail: the state comes back after an error too.
use codeburn_watcher.Prelude.Keys.{Text}
use codeburn_watcher.Prelude.Results.{Result, ok, err}
use mathlib.Core.Path.{◌≡◌, refl, ap}
use mathlib.Core.List.{◌++◌}

abbrev pub Action : Type 0 → Type 0 → Type 0
Action S A = S → Result Text A × S

module _ {S A : Type 0} where
  abbrev pub pure : A → Action S A
  pure a s = (ok a, s)

  -- A call that changes nothing.
  abbrev pub lift : Result Text A → Action S A
  lift r s = (r, s)

-- fmt.Errorf with a prefix
abbrev pub wrapped : {A : Type 0} → Text → Result Text A → Result Text A
wrapped p (ok a) = ok a
wrapped p (err e) = err (p ++ e)

abbrev pub wrap_action : {S A : Type 0} → Text → Action S A → Action S A
wrap_action p m s = let (r, t) = m s in (wrapped p r, t)

infixl 5 ◌>>=◌ ◌>>◌
abbrev pub ◌>>=◌ : {S A B : Type 0} → Action S A → (A → Action S B) → Action S B
◌>>=◌ m f s = let (r, t) = m s in elim r [ ok a ↦ f a t | err e ↦ (err e, t) ]

abbrev pub ◌>>◌ : {S A B : Type 0} → Action S A → Action S B → Action S B
m >> k = m >>= λ _. k

-- Inversion of a successful bind.
module _ {S A B : Type 0} where
  after-eq-ok :
      (f : A → Action S B) (p : Result Text A × S) {b : B} {u : S}
      → (elim p.0 [ ok a ↦ f a p.1 | err e ↦ (err e, p.1) ]) ≡ (ok b, u)
      → (a : A) × (t : S) × (p ≡ (ok a, t)) × (f a t ≡ (ok b, u))
  after-eq-ok f (ok a, t) h = (a, t, refl, h)
  after-eq-ok f (err e, t) h = cc

  pub >>=-eq-ok :
      (m : Action S A) (f : A → Action S B) {s u : S} {b : B}
      → (m >>= f) s ≡ (ok b, u)
      → (a : A) × (t : S) × (m s ≡ (ok a, t)) × (f a t ≡ (ok b, u))
  >>=-eq-ok m f {s} h = after-eq-ok f (m s) h

pub wrap_action-eq-ok :
    {S A : Type 0} (p : Text) (r : Result Text A × S) {a : A} {t : S}
    → ◌≡◌ {A = Result Text A × S} (wrapped p r.0, r.1) (ok a, t)
    → r ≡ (ok a, t)
wrap_action-eq-ok p (ok a, t) h = h
wrap_action-eq-ok p (err e, t) h = cc

pub lift-eq-ok :
    {S A : Type 0} (r : Result Text A) {a : A} {s t : S}
    → ◌≡◌ {A = Result Text A × S} (r, s) (ok a, t)
    → (r ≡ ok a) × (s ≡ t)
lift-eq-ok r h = (ap (λ p. p.0) h, ap (λ p. p.1) h)

pub wrapped-eq-ok :
    {A : Type 0} (p : Text) (r : Result Text A) {a : A} → wrapped p r ≡ ok a → r ≡ ok a
wrapped-eq-ok p (ok a) h = h
wrapped-eq-ok p (err e) h = cc
