-- ===== src/Prelude/Texts.antt =====
-- The order of Go's strings is a strict total order.
use mathlib.Core.Path.{◌≡◌, refl}
use mathlib.Core.Bool.{true, false}
use mathlib.Core.List.{[], ◌∷◌}
use native.Mathlib.Omega.{arith}
use codeburn_watcher.Prelude.Keys.{Text, text_lt}

pub text_lt_irrefl : (s : Text) → text_lt s s ≡ false
text_lt_irrefl [] = refl
text_lt_irrefl (c ∷ s) = ground (arith, text_lt_irrefl s)

pub text_lt_asymm : (s t : Text) → text_lt s t ≡ true → text_lt t s ≡ false
text_lt_asymm s [] h = cc
text_lt_asymm [] (d ∷ t) h = refl
text_lt_asymm (c ∷ s) (d ∷ t) h = ground (arith, text_lt_asymm s t)

-- `not less` is transitive.
pub not_lt_trans : (s t u : Text) → text_lt s t ≡ false → text_lt t u ≡ false → text_lt s u ≡ false
not_lt_trans s t [] h k = refl
not_lt_trans s [] (e ∷ u) h k = cc
not_lt_trans [] (d ∷ t) (e ∷ u) h k = cc
not_lt_trans (c ∷ s) (d ∷ t) (e ∷ u) h k = ground (arith, not_lt_trans s t u)
