-- ===== src/Prelude/Float.antt =====
-- Go's float64 as an interface: the operations that the program uses, and the laws of IEEE 754
-- arithmetic that its correctness needs. Fixed-point numbers show that the laws can hold together.
use Prim.Native.Nat.{ℕ, ◌+◌, ◌*◌, ◌/◌, ◌^◌, ◌≤◌, ◌<◌}
use mathlib.Core.Path.{◌≡◌}
use mathlib.Core.Bool.{Bool, true, false}
use native.Mathlib.Nat.{div-le_of_le-mul}
use native.Mathlib.Omega.{arith}
use codeburn_watcher.Prelude.Tests.{nat_beq}
use codeburn_watcher.Prelude.Int.{
  ℤ, pos, negsuc, pos_part, neg_part, ◌+ℤ◌, ◌-ℤ◌, ◌*ℤ◌, ltb_ℤ, leb_ℤ, quot_ℕ,
}

-- `of_int` is the conversion float64(n), `lit m n` the constant written as the decimal fraction m/n,
-- `trunc` the conversion int(x), `lt`, `le` and `eq` the comparisons <, <= and ==.
pub record Float64 {ℓ} (F : Type ℓ) : Type ℓ where
  pub of_int : ℤ → F
  pub lit : ℕ → ℕ → F
  pub add : F → F → F
  pub sub : F → F → F
  pub mul : F → F → F
  pub div : F → F → F
  pub lt : F → F → Bool
  pub le : F → F → Bool
  pub eq : F → F → Bool
  pub trunc : F → ℤ

module _ {ℓ} {F : Type ℓ} ⦃d : Float64 F⦄ where
  abbrev pub of_nat : ℕ → F
  of_nat n = d.of_int (pos n)

  -- A ratio from 0 to 1, and not NaN.
  abbrev pub InUnit : F → Type 0
  InUnit x = (d.le (of_nat 0) x ≡ true) × (d.le x (of_nat 1) ≡ true)

-- What holds of IEEE 754 doubles. A conversion of a number below 2 ^ 63 is finite and monotone, and
-- division rounds monotonically; so a ratio of such numbers, the larger one below, is from 0 to 1.
-- `<` is irreflexive and asymmetric, also for NaN.
pub record IsIeee {ℓ} (F : Type ℓ) ⦃d : Float64 F⦄ : Type ℓ where
  pub le_of_nat : (a b : ℕ) → a ≤ b → b < 2 ^ 63 → d.le (of_nat a) (of_nat b) ≡ true
  pub eq_zero_of_nat : (n : ℕ) → n < 2 ^ 63 → d.eq (of_nat n) (of_nat 0) ≡ nat_beq n 0
  pub zero_le_ratio :
      (a b : ℕ) → a ≤ b → 0 < b → b < 2 ^ 63 → d.le (of_nat 0) (d.div (of_nat a) (of_nat b)) ≡ true
  pub ratio_le_one :
      (a b : ℕ) → a ≤ b → 0 < b → b < 2 ^ 63 → d.le (d.div (of_nat a) (of_nat b)) (of_nat 1) ≡ true
  pub lt_irrefl : (x : F) → d.lt x x ≡ false
  pub lt_asymm : (x y : F) → d.lt x y ≡ true → d.lt y x ≡ false

-- Fixed-point numbers, in millionths.
abbrev pub Micro : Type 0
Micro = ℤ

abbrev scale : ℕ
scale = 1_000_000

abbrev div_micro : ℤ → ℤ → ℤ
div_micro a (pos b) = quot_ℕ (a *ℤ pos scale) b
div_micro a (negsuc b) = quot_ℕ (pos 0 -ℤ (a *ℤ pos scale)) (b + 1)

instance abbrev pub micro_float : Float64 Micro
micro_float = record {
  of_int = λ z. z *ℤ pos scale;
  lit = λ m n. pos (m * scale / n);
  add = ◌+ℤ◌;
  sub = ◌-ℤ◌;
  mul = λ a b. quot_ℕ (a *ℤ b) scale;
  div = div_micro;
  lt = ltb_ℤ;
  le = leb_ℤ;
  eq = λ a b. nat_beq (pos_part a + neg_part b) (pos_part b + neg_part a);
  trunc = λ a. quot_ℕ a scale;
}

ratio-le-scale : (a b : ℕ) → a ≤ b → 0 < b → a * scale * scale / (b * scale) ≤ scale
ratio-le-scale a b h p = div-le_of_le-mul (b * scale) (omega arith)

pub Micro-IsIeee : IsIeee Micro
Micro-IsIeee = record {
  le_of_nat = λ a b h p. ground arith;
  eq_zero_of_nat = λ n p. ground arith;
  zero_le_ratio = λ a b h p q. ground arith;
  ratio_le_one = λ a b h p q. ground (arith, ratio-le-scale a b h p);
  lt_irrefl = λ x. ground arith;
  lt_asymm = λ x y h. ground arith;
}
