-- ===== src/Prelude/Text/Decimal.antt =====
-- `str(n)` of an int, and the number that its digits stand for.
use Prim.Native.Nat.{ℕ, zero, suc, ◌+◌, ◌-◌, ◌*◌, ◌/◌, ◌%◌, ◌≤◌}
use mathlib.Core.Path.{◌≡◌, sym, ap, ◌∙◌}
use mathlib.Core.Logic.{inl, inr}
use mathlib.Core.List.{[], ◌∷◌}
use native.Mathlib.Omega.{arith}
use pg_monitor.Prelude.Tests.{ltb, if◌then◌else◌, Bool-cases}
use pg_monitor.Prelude.Int.{ℤ, pos, negsuc}
use pg_monitor.Prelude.Text.{Text, newline, Lacks}

-- The digits of `n` in front of `out`; `n` steps are enough, since each divides what is left by ten.
digits : ℕ → ℕ → Text → Text
digits zero n out = (48 + n % 10) ∷ out
digits (suc fuel) n out =
    let rest = digits fuel (n / 10) ((48 + n % 10) ∷ out) in
    if ltb n 10 then (48 + n) ∷ out else rest

unfoldable pub decimal : ℕ → Text
unfolding digits
decimal n = digits n n []

unfoldable pub int_text : ℤ → Text
unfolding decimal
int_text (pos n) = decimal n
int_text (negsuc n) = 45 ∷ decimal (suc n)

read_digits : ℕ → Text → ℕ
read_digits value [] = value
read_digits value (c ∷ s) = read_digits (value * 10 + (c - 48)) s

read_digits-digits :
    (fuel n : ℕ) (out : Text) → n ≤ fuel → read_digits 0 (digits fuel n out) ≡ read_digits n out
unfolding digits read_digits
read_digits-digits zero n out h = ap (λ k. read_digits k out) (omega arith)
read_digits-digits (suc fuel) n out h = elim (Bool-cases (ltb n 10)) [
  | inl t ↦ rw t (ap (λ k. read_digits k out) (omega arith))
  | inr f ↦ rw f (
      read_digits-digits fuel (n / 10) ((48 + n % 10) ∷ out) (ground arith)
      ∙ ap (λ k. read_digits k out) (omega arith))
]

-- Two numbers have the same text only if they are equal.
pub decimal-injective : (m n : ℕ) → decimal m ≡ decimal n → m ≡ n
unfolding decimal read_digits
decimal-injective m n h =
    sym (read_digits-digits m m [] (omega arith))
    ∙ ap (read_digits 0) h
    ∙ read_digits-digits n n [] (omega arith)

digits-Lacks : (fuel n : ℕ) (out : Text) → Lacks newline out → Lacks newline (digits fuel n out)
unfolding digits
digits-Lacks zero n out h = (ground arith, h)
digits-Lacks (suc fuel) n out h = elim (Bool-cases (ltb n 10)) [
  | inl t ↦ rw t (ground arith, h)
  | inr f ↦ rw f (digits-Lacks fuel (n / 10) ((48 + n % 10) ∷ out) (ground arith, h))
]

pub int_text-Lacks : (n : ℤ) → Lacks newline (int_text n)
unfolding int_text decimal
int_text-Lacks (pos n) = digits-Lacks n n [] tt
int_text-Lacks (negsuc n) = (ground arith, digits-Lacks (suc n) (suc n) [] tt)
