-- ===== src/Team/Merger/Firsts.antt =====
-- The distinct names of a list.
use codeburn_watcher.Prelude.{
  ◌≡◌, true, not, List, [], ◌∷◌, arith, Text, text_eq, any, select, All, All-select, ◌==◌, ==_refl,
  All-imp,
}

-- The distinct names of a list, each where it stands first.
abbrev pub firsts : List Text → List Text
firsts [] = []
firsts (u ∷ us) = u ∷ select (λ v. not (v == u)) (firsts us)

pub firsts-any : (l : List Text) → All (λ u. any (λ v. u == v) l ≡ true) (firsts l)
firsts-any [] = tt
firsts-any (u ∷ l) = (
  ground (arith, ==_refl u),
  All-imp _ _ _ (λ v h. ground arith) (All-select _ (λ v. not (v == u)) (firsts l) (firsts-any l)),
)
