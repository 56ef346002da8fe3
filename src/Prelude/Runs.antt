-- ===== src/Prelude/Runs.antt =====
-- What a command does: it changes the state and returns a value or an error, or it panics, or it ends the
-- process with an exit code, or it still runs when its fuel is spent.
use Prim.Native.Nat.{ℕ}
use codeburn_watcher.Prelude.Keys.{Text}
use codeburn_watcher.Prelude.Results.{Result, ok, err}
use codeburn_watcher.Prelude.Actions.{Action}
use mathlib.Core.Option.{Option, none, some}
use mathlib.Core.List.{◌++◌}
use mathlib.Core.Path.{◌≡◌, refl}

pub data Ended (A : Type 0) : Type 0 where
  returned : A → Ended A
  failed : Text → Ended A
  panicked : Ended A
  exited : ℕ → Ended A
  unfinished : Ended A

abbrev pub Run : Type 0 → Type 0 → Type 0
Run S A = S → Ended A × S

abbrev pub ended : {A : Type 0} → Result Text A → Ended A
ended (ok a) = returned a
ended (err m) = failed m

-- A call that panics where it gives no result.
abbrev pub ended_or_panic : {A : Type 0} → Option (Result Text A) → Ended A
ended_or_panic none = panicked
ended_or_panic (some r) = ended r

abbrev pub prefixed : {A : Type 0} → Text → Ended A → Ended A
prefixed p (returned a) = returned a
prefixed p (failed m) = failed (p ++ m)
prefixed p panicked = panicked
prefixed p (exited n) = exited n
prefixed p unfinished = unfinished

module _ {S A : Type 0} where
  abbrev pub pure : A → Run S A
  pure a s = (returned a, s)

  abbrev pub fail : Text → Run S A
  fail m s = (failed m, s)

  abbrev pub panic : Run S A
  panic s = (panicked, s)

  abbrev pub exit : ℕ → Run S A
  exit n s = (exited n, s)

  abbrev pub lift : Result Text A → Run S A
  lift r s = (ended r, s)

  -- A call that reads the state.
  abbrev pub reads : (S → Result Text A) → Run S A
  reads f s = (ended (f s), s)

  abbrev pub run : Action S A → Run S A
  run m s = let (r, t) = m s in (ended r, t)

  -- fmt.Errorf with a prefix
  abbrev pub wrap : Text → Run S A → Run S A
  wrap p m s = let (r, t) = m s in (prefixed p r, t)

-- What follows a run: `f`, where it returned.
abbrev pub after : {S A B : Type 0} → (A → Run S B) → Ended A × S → Ended B × S
after f (returned a, t) = f a t
after f (failed e, t) = (failed e, t)
after f (panicked, t) = (panicked, t)
after f (exited n, t) = (exited n, t)
after f (unfinished, t) = (unfinished, t)

-- Inversion of a run that returned.
pub after-eq-returned :
    {S A B : Type 0} (f : A → Run S B) (p : Ended A × S) {b : B} {u : S}
    → after f p ≡ (returned b, u)
    → (a : A) × (t : S) × (p ≡ (returned a, t)) × (f a t ≡ (returned b, u))
after-eq-returned f (returned a, t) h = (a, t, refl, h)
after-eq-returned f (failed m, t) h = cc
after-eq-returned f (panicked, t) h = cc
after-eq-returned f (exited n, t) h = cc
after-eq-returned f (unfinished, t) h = cc

infixl 5 ◌>>=◌ ◌>>◌
abbrev pub ◌>>=◌ : {S A B : Type 0} → Run S A → (A → Run S B) → Run S B
◌>>=◌ m f s = after f (m s)

abbrev pub ◌>>◌ : {S A B : Type 0} → Run S A → Run S B → Run S B
m >> k = m >>= λ _. k
