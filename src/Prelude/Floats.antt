-- ===== src/Prelude/Floats.antt =====
-- Python's `float`, where the program computes with it: the operations that it uses and the laws
-- of IEEE 754 that it relies on, for values that are not NaN.
use mathlib.Core.Path.{◌≡◌}
use mathlib.Core.Bool.{Bool, true, false, not, ◌&&◌}
use native.Mathlib.Omega.{arith}
use pg_monitor.Prelude.Int.{ℤ, pos, ◌+ℤ◌, ◌-ℤ◌, leb_ℤ, -ℤ_parts, -ℤ_zero}
use pg_monitor.Prelude.Order.{IsPreorder}

pub record Floats (F : Type 0) : Type 0 where
  pub zero_f : F
  -- `a - b`
  pub sub : F → F → F
  -- `a / n`, of a float and an int
  pub div_int : F → ℤ → F
  -- `a * 2`
  pub double : F → F
  -- `a <= b`
  pub le : F → F → Bool
  pub le-IsPreorder : IsPreorder le
  -- A difference is below zero exactly if the first is below the second, and above likewise.
  pub sub-le_zero : (a b : F) → le (sub a b) zero_f ≡ le a b
  pub zero-le_sub : (a b : F) → le zero_f (sub a b) ≡ le b a
  pub sub_zero : (a : F) → sub a zero_f ≡ a

module _ {F : Type 0} ⦃f : Floats F⦄ where
  -- `a < b` and `a == b`
  abbrev pub lt_f : F → F → Bool
  lt_f a b = not (f.le b a)

  abbrev pub eq_f : F → F → Bool
  eq_f a b = f.le a b && f.le b a

  -- `min(a, b)` of Python: the first, unless the second is below it
  abbrev pub min_f : F → F → F
  min_f a b = elim (lt_f b a) [ true ↦ b | false ↦ a ]

pub leb_ℤ-IsPreorder : IsPreorder leb_ℤ
leb_ℤ-IsPreorder = record { total = λ a b h. ground arith; trans = λ a b c h k. ground arith }

pub ℤ-sub-le_zero : (a b : ℤ) → leb_ℤ (a -ℤ b) (pos 0) ≡ leb_ℤ a b
ℤ-sub-le_zero a b = ground (arith, -ℤ_parts a b)

pub ℤ-zero-le_sub : (a b : ℤ) → leb_ℤ (pos 0) (a -ℤ b) ≡ leb_ℤ b a
ℤ-zero-le_sub a b = ground (arith, -ℤ_parts a b)

-- Whole numbers have the laws; the quotient is not used by any of them.
instance abbrev pub ℤ_floats : Floats ℤ
ℤ_floats = record {
  zero_f = pos 0;
  sub = ◌-ℤ◌;
  div_int = λ a n. a;
  double = λ a. a +ℤ a;
  le = leb_ℤ;
  le-IsPreorder = leb_ℤ-IsPreorder;
  sub-le_zero = ℤ-sub-le_zero;
  zero-le_sub = ℤ-zero-le_sub;
  sub_zero = -ℤ_zero;
}
