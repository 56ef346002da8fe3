-- ===== src/DeepAnalysis/Sessions/Top.antt =====
-- The lists of DeepAnalyze: their order, their bound and what they choose.
use mathlib.Core.List.{Perm}
use codeburn_watcher.Prelude.{
  ℕ, ◌≤◌, ◌≡◌, refl, Bool, true, false, List, [], ◌∷◌, arith, length, length-take-le, select, take,
  drop, ◌++◌, zero, suc, ap, ◌⊎◌, ltb, leb, inl, inr,
}
use codeburn_watcher.Prelude.Float.{Float64, IsIeee}
use codeburn_watcher.Prelude.Sort.{sort_by, IsSorted, sort_by-IsSorted, sort_by-perm}
use codeburn_watcher.DeepAnalysis.Sessions.{SessionStat, DeepAnalysis, top, by, deep_analyze_of}

-- The first eight, or all if there are fewer, of the statistics that pass the filter, in an order in
-- which none is less than the one before it.
pub record IsTop {F : Type 0} (src : List (SessionStat F)) (filter : SessionStat F → Bool)
    (less : SessionStat F → SessionStat F → Bool) (l : List (SessionStat F)) : Type 0 where
  pub rest : List (SessionStat F)
  pub perm : Perm (l ++ rest) (select filter src)
  pub sorted : IsSorted less (l ++ rest)
  pub few : length l ≤ 8
  pub full : (rest ≡ []) ⊎ (length l ≡ 8)

take-drop : {A : Type 0} (n : ℕ) (l : List A) → take n l ++ drop n l ≡ l
take-drop zero l = refl
take-drop (suc n) [] = refl
take-drop (suc n) (x ∷ l) = ap (λ t. x ∷ t) (take-drop n l)

take-full : {A : Type 0} (n : ℕ) (l : List A) → (drop n l ≡ []) ⊎ (length (take n l) ≡ n)
take-full zero l = inr refl
take-full (suc n) [] = inl refl
take-full (suc n) (x ∷ l) = elim (take-full n l) [ inl h ↦ inl h | inr h ↦ inr (omega (arith, h)) ]

top-IsTop :
    {F : Type 0} (src : List (SessionStat F)) (filter : SessionStat F → Bool)
    (less : SessionStat F → SessionStat F → Bool)
    → ((a b : SessionStat F) → less a b ≡ true → less b a ≡ false)
    → IsTop src filter less (top src filter less)
unfolding top
top-IsTop src filter less asymm =
    let chosen = select filter src in
    let sorted = sort_by less chosen in
    record {
      rest = drop 8 sorted;
      perm = rw (take-drop 8 sorted) (sort_by-perm less chosen);
      sorted = rw (take-drop 8 sorted) (sort_by-IsSorted less asymm chosen);
      few = length-take-le 8 sorted;
      full = take-full 8 sorted;
    }

module _ {F : Type 0} ⦃d : Float64 F⦄ where
  by_asymm : (f : SessionStat F → ℕ) (a b : SessionStat F) → by f a b ≡ true → by f b a ≡ false
  by_asymm f a b h = ground (arith, h)

  -- The five lists of the analysis.
  pub record AreTops (stats : List (SessionStat F)) (a : DeepAnalysis F) : Type 0 where
    pub expensive : IsTop stats (λ st. true) (by (λ st. st.spend_tokens)) a.expensive_sessions
    pub fix_loops :
        IsTop stats
          (λ st. leb 2 st.fix_iterations)
          (by (λ st. st.fix_iterations))
          a.fix_loop_sessions
    pub heavy :
        IsTop stats
          (λ st. leb 10 st.turns)
          (by (λ st. st.avg_context_tokens))
          a.context_heavy_sessions
    pub bloated :
        IsTop stats
          (λ st. d.le (d.lit 2 1) st.context_growth)
          (λ a b. d.lt b.context_growth a.context_growth)
          a.bloat_trend_sessions
    pub cold :
        IsTop stats
          (λ st. ltb 0 st.cold_restart_turns)
          (by (λ st. st.cold_restart_tokens))
          a.cold_restart_sessions

  -- In arithmetic with an asymmetric `<`, each list of DeepAnalyze holds the first eight, or all, of
  -- the sessions that pass its filter, in descending order of its measure.
  pub deep_analyze_of-AreTops :
      IsIeee F → (stats : List (SessionStat F)) → AreTops stats (deep_analyze_of stats)
  unfolding deep_analyze_of
  deep_analyze_of-AreTops ieee stats = record {
    expensive = top-IsTop stats _ _ (by_asymm (λ st. st.spend_tokens));
    fix_loops = top-IsTop stats _ _ (by_asymm (λ st. st.fix_iterations));
    heavy = top-IsTop stats _ _ (by_asymm (λ st. st.avg_context_tokens));
    bloated = top-IsTop stats _ _ (λ a b. ieee.lt_asymm b.context_growth a.context_growth);
    cold = top-IsTop stats _ _ (by_asymm (λ st. st.cold_restart_tokens));
  }
