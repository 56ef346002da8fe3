-- ===== src/Render/Bars.antt =====
-- A bar fits its width.
use codeburn_watcher.Prelude.{
  ◌/◌, ◌*◌, ℕ, ◌-◌, ◌^◌, ◌≤◌, ◌<◌, ◌≡◌, refl, true, false, some, ◌++◌, codes, arith, Bool-cases,
  inl, inr,
}
use codeburn_watcher.Prelude.Int.{negsuc, ℤ, pos, ◌-ℤ◌}
use codeburn_watcher.Prelude.Float.{Float64, of_nat, InUnit, Micro, micro_float}
use native.Mathlib.Nat.{div-le_of_le-mul}
use codeburn_watcher.Render.Format.{replicate, clamp, bar}

-- What holds of IEEE 754 doubles: of two numbers, none of them NaN, that are not less the other way one is
-- at most the other; integers below 2 ^ 53 are exact; and so a ratio from 0 to 1 of such a width, rounded
-- and cut to an integer, is from 0 to the width.
pub record IsScaling {ℓ} (F : Type ℓ) ⦃d : Float64 F⦄ : Type ℓ where
  pub le_of_not_lt :
      (x y : F) → d.eq x x ≡ true → d.eq y y ≡ true → d.lt x y ≡ false → d.le y x ≡ true
  pub eq_of_nat : (n : ℕ) → n < 2 ^ 53 → d.eq (of_nat n) (of_nat n) ≡ true
  pub le_of_nat : (a b : ℕ) → a ≤ b → b < 2 ^ 53 → d.le (of_nat a) (of_nat b) ≡ true
  pub trunc_part :
      (r : F) (w : ℕ)
      → InUnit r
      → w < 2 ^ 53
      → (k : ℕ) × (d.trunc (d.mul r (of_nat w)) ≡ pos k) × (k ≤ w)

module _ {F : Type 0} ⦃d : Float64 F⦄ (ieee : IsScaling F) where
  clamp-InUnit : (r : F) → d.eq r r ≡ true → InUnit (clamp r)
  clamp-InUnit r number =
      let zero_number = ieee.eq_of_nat 0 (omega arith) in
      let one_number = ieee.eq_of_nat 1 (omega arith) in
      let zero_le_one = ieee.le_of_nat 0 1 (omega arith) (omega arith) in
      let one_le_one = ieee.le_of_nat 1 1 (omega arith) (omega arith) in
      let zero_le_zero = ieee.le_of_nat 0 0 (omega arith) (omega arith) in
      elim (Bool-cases (d.lt r (of_nat 0))) [
        | inl low ↦ elim (Bool-cases (d.lt (of_nat 1) (of_nat 0))) [
          | inl p ↦ rw low (rw p (zero_le_one, one_le_one))
          | inr p ↦ rw low (rw p (zero_le_zero, zero_le_one))
        ]
        | inr high ↦ elim (Bool-cases (d.lt (of_nat 1) r)) [
          | inl p ↦ rw high (rw p (zero_le_one, one_le_one))
          | inr p ↦ rw high (
              rw p (
                ieee.le_of_not_lt r (of_nat 0) number zero_number high,
                ieee.le_of_not_lt (of_nat 1) r one_number number p,
              ))
        ]
      ]

  -- For every ratio that is a number, below 0 and above 1 too, and every width below 2 ^ 53, Bar
  -- does not panic: it returns as many filled and empty blocks together as the width.
  pub bar-fits :
      (r : F) (w : ℕ)
      → d.eq r r ≡ true
      → w < 2 ^ 53
      → (k : ℕ) × (k ≤ w)
        × (bar r w
            ≡ some (
                codes "["
                ++ (replicate k (codes "█") ++ (replicate (w - k) (codes "░") ++ codes "]"))))
  unfolding bar
  bar-fits r w number small =
      let (k, cut, fits) = ieee.trunc_part (clamp r) w (clamp-InUnit r number) small in
      let rest : pos w -ℤ pos k ≡ pos (w - k) = ground arith in (k, fits, rw (cut, rest) refl)

div_micro-le : (a w : ℕ) → a ≤ 1_000_000 → a * (w * 1_000_000) / 1_000_000 / 1_000_000 ≤ w
div_micro-le a w h =
    let bound : a * w ≤ 1_000_000 * w = grind arith in
    let same : a * (w * 1_000_000) ≡ a * w * 1_000_000 = grind arith in
    rw same (div-le_of_le-mul 1_000_000 (omega (arith, bound)))

micro_part :
    (r : ℤ) (w : ℕ)
    → InUnit {F = Micro} r
    → (k : ℕ) × (micro_float.trunc (micro_float.mul r (of_nat {F = Micro} w)) ≡ pos k) × (k ≤ w)
micro_part (pos a) w h =
    let small : a ≤ 1_000_000 = ground arith in
    let zero_times : a * 0 ≡ 0 = omega arith in
    (a * (w * 1_000_000) / 1_000_000 / 1_000_000, ground arith, div_micro-le a w small)
micro_part (negsuc a) w h = absurd (ground arith)

pub Micro-IsScaling : IsScaling Micro
Micro-IsScaling = record {
  le_of_not_lt = λ x y h k l. ground arith;
  eq_of_nat = λ n h. ground arith;
  le_of_nat = λ a b h k. ground arith;
  trunc_part = λ r w h k. micro_part r w h;
}
