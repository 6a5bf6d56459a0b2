-- ===== src/Prelude/Eq.antt =====
-- Python's `==` on keys, as an interface.
use Prim.Native.Nat.{ℕ}
use Prim.Native.String.{String}
use mathlib.Core.Path.{◌≡◌, refl}
use mathlib.Core.Logic.{◌↔◌, ◌≢◌, inl, inr}
use mathlib.Core.Bool.{Bool, true, false, ◌&&◌}
use mathlib.Core.List.{List, [], ◌∷◌}
use native.Mathlib.Omega.{arith}
use text.Mathlib.Text.{◌==◌ as str_eq}
use text.Mathlib.TextEquality.{eq_iff}
use pg_monitor.Prelude.Tests.{◌==◌ as nat_eq, ==_iff, Bool-cases}
use pg_monitor.Prelude.Int.{ℤ, eqb_ℤ, eqb_ℤ_iff}

pub record Eq {κ} (K : Type κ) : Type κ where
  pub beq : K → K → Bool
  pub beq_iff : (j k : K) → (beq j k ≡ true) ↔ (j ≡ k)

-- `j == k`
infix 50 ◌=?◌
abbrev pub ◌=?◌ {κ} : {K : Type κ} ⦃e : Eq K⦄ → K → K → Bool
◌=?◌ ⦃e⦄ = e.beq

instance abbrev pub ℕ_eq : Eq ℕ
ℕ_eq = record { beq = nat_eq; beq_iff = ==_iff }

instance abbrev pub ℤ_eq : Eq ℤ
ℤ_eq = record { beq = eqb_ℤ; beq_iff = eqb_ℤ_iff }

instance abbrev pub String_eq : Eq String
String_eq = record { beq = str_eq; beq_iff = eq_iff }

-- Pairs and lists are equal if their parts are.
pub Pair_iff :
    {A B : Type 0} ⦃a : Eq A⦄ ⦃b : Eq B⦄ (p q : A × B)
    → ((a.beq p.0 q.0 && b.beq p.1 q.1) ≡ true) ↔ (p ≡ q)
Pair_iff ⦃a⦄ ⦃b⦄ (x, y) (u, v) = ground (arith, a.beq_iff x u, b.beq_iff y v)

instance abbrev pub Pair_eq : {A B : Type 0} ⦃a : Eq A⦄ ⦃b : Eq B⦄ → Eq (A × B)
Pair_eq ⦃a⦄ ⦃b⦄ = record { beq = λ p q. a.beq p.0 q.0 && b.beq p.1 q.1; beq_iff = Pair_iff }

abbrev pub list_beq : {A : Type 0} ⦃a : Eq A⦄ → List A → List A → Bool
list_beq [] [] = true
list_beq [] (_ ∷ _) = false
list_beq (_ ∷ _) [] = false
list_beq ⦃a⦄ (x ∷ xs) (y ∷ ys) = a.beq x y && list_beq xs ys

pub List_iff : {A : Type 0} ⦃a : Eq A⦄ (xs ys : List A) → (list_beq xs ys ≡ true) ↔ (xs ≡ ys)
List_iff [] [] = ground arith
List_iff [] (y ∷ ys) = ground arith
List_iff (x ∷ xs) [] = ground arith
List_iff ⦃a⦄ (x ∷ xs) (y ∷ ys) = ground (arith, a.beq_iff x y, List_iff xs ys)

instance abbrev pub List_eq : {A : Type 0} ⦃a : Eq A⦄ → Eq (List A)
List_eq = record { beq = list_beq; beq_iff = List_iff }

module _ {ℓ} {A : Type ℓ} ⦃e : Eq A⦄ where
  pub =?_refl : (a : A) → (a =? a) ≡ true
  =?_refl a = (e.beq_iff a a).1 refl

  pub =?_sym : (a b : A) → (a =? b) ≡ (b =? a)
  =?_sym a b = elim (Bool-cases (a =? b)) [
    | inl t ↦ ground (arith, e.beq_iff a b, e.beq_iff b a)
    | inr f ↦ ground (arith, e.beq_iff a b, e.beq_iff b a)
  ]

  pub =?→eq : (a b : A) → (a =? b) ≡ true → a ≡ b
  =?→eq a b = (e.beq_iff a b).0

  pub =?→ne : (a b : A) → (a =? b) ≡ false → a ≢ b
  =?→ne a b f h = absurd (ground (arith, (e.beq_iff a b).1 h))
