-- ===== src/Prelude/Order.antt =====
-- A total preorder by a Boolean test, as sort keys have it, and the lexicographic order of pairs.
use mathlib.Core.Path.{◌≡◌}
use mathlib.Core.Logic.{inl, inr}
use mathlib.Core.Bool.{Bool, true, false}
use native.Mathlib.Omega.{arith}
use pg_monitor.Prelude.Tests.{Bool-cases, if◌then◌else◌}

pub record IsPreorder {A : Type 0} (le : A → A → Bool) : Type 0 where
  pub total : (a b : A) → le a b ≡ false → le b a ≡ true
  pub trans : (a b c : A) → le a b ≡ true → le b c ≡ true → le a c ≡ true

-- `(a1, a2) <= (b1, b2)` of tuples: the second part decides where the first parts are equal.
abbrev pub lex : {A : Type 0} → (A → A → Bool) → (A → A → Bool) → A → A → Bool
lex le₁ le₂ a b = if le₁ a b then (if le₁ b a then le₂ a b else true) else false

-- The order that `reverse=True` sorts by.
abbrev pub flip : {A : Type 0} → (A → A → Bool) → A → A → Bool
flip le a b = le b a

-- The order of a key.
abbrev pub on : {A B : Type 0} → (A → B) → (B → B → Bool) → A → A → Bool
on f le a b = le (f a) (f b)

module _ {A : Type 0} {le₁ le₂ : A → A → Bool} (p : IsPreorder le₁) (q : IsPreorder le₂) where
  pub lex-IsPreorder : IsPreorder (lex le₁ le₂)
  lex-IsPreorder = record {
    total = λ a b h. ground (arith, p.total a b, q.total a b);
    trans = λ a b c h k.
        ground (arith, p.trans a b c, p.trans c a b, p.trans b c a, q.trans a b c, p.trans c b a);
  }

pub le_refl : {A : Type 0} {le : A → A → Bool} → IsPreorder le → (a : A) → le a a ≡ true
le_refl {le = le} p a = elim (Bool-cases (le a a)) [ inl t ↦ t | inr n ↦ p.total a a n ]

pub flip-IsPreorder : {A : Type 0} {le : A → A → Bool} → IsPreorder le → IsPreorder (flip le)
flip-IsPreorder p = record {
  total = λ a b h. p.total b a h;
  trans = λ a b c h k. p.trans c b a k h;
}

pub on-IsPreorder :
    {A B : Type 0} (g : A → B) {le : B → B → Bool} → IsPreorder le → IsPreorder (on g le)
on-IsPreorder g p = record {
  total = λ a b h. p.total (g a) (g b) h;
  trans = λ a b c h k. p.trans (g a) (g b) (g c) h k;
}
