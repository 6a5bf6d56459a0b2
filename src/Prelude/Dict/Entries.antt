-- ===== src/Prelude/Dict/Entries.antt =====
-- Assignments to a dictionary, one after another.
use mathlib.Core.Path.{◌≡◌, refl, sym, ap, ◌∙◌, subst}
use mathlib.Core.Logic.{◌⊎◌, inl, inr}
use mathlib.Core.Option.{some}
use mathlib.Core.List.{List, [], ◌∷◌, ◌++◌}
use native.Mathlib.Omega.{arith}
use pg_monitor.Prelude.Tests.{if◌then◌else◌, Bool-cases}
use pg_monitor.Prelude.Lists.{Elem, All}
use pg_monitor.Prelude.Eq.{Eq, ◌=?◌, =?→eq}
use pg_monitor.Prelude.Dict.{Dict, get, put, get-put}

some_eq : {A : Type 0} {a b : A} → some a ≡ some b → a ≡ b
some_eq h = cc

module _ {K V : Type 0} ⦃e : Eq K⦄ where
  unfoldable pub put_entries : List (K × V) → Dict K V → Dict K V
  put_entries [] d = d
  put_entries (x ∷ xs) d = put_entries xs (put d x.0 x.1)

  pub put_entries-append :
      (xs ys : List (K × V)) (d : Dict K V)
      → put_entries (xs ++ ys) d ≡ put_entries ys (put_entries xs d)
  unfolding put_entries
  put_entries-append [] ys d = refl
  put_entries-append (x ∷ xs) ys d = put_entries-append xs ys (put d x.0 x.1)

  -- A key whose entries all have one value, and which has such an entry, ends with that value.
  pub get-put_entries :
      (xs : List (K × V)) (d : Dict K V) (k : K) (v : V)
      → All (λ x. x.0 ≡ k → x.1 ≡ v) xs
      → (get d k ≡ some v) ⊎ Elem (k, v) xs
      → get (put_entries xs d) k ≡ some v
  unfolding put_entries
  get-put_entries [] d k v h (inl g) = g
  get-put_entries [] d k v h (inr m) = absurd m
  get-put_entries (x ∷ xs) d k v h m = get-put_entries xs (put d x.0 x.1) k v h.1 (next m)
    where
      next :
          (get d k ≡ some v) ⊎ Elem (k, v) (x ∷ xs)
          → (get (put d x.0 x.1) k ≡ some v) ⊎ Elem (k, v) xs
      next (inl g) = inl (get-put d x.0 k x.1 ∙ ground (arith, e.beq_iff x.0 k, h.0))
      next (inr (inl p)) =
          inl (
            get-put d x.0 k x.1 ∙ ground (arith, e.beq_iff x.0 k, ap (λ y. y.0) p, ap (λ y. y.1) p))
      next (inr (inr m)) = inr m

  -- What holds of every entry holds of what is found.
  pub put_entries-All :
      (P : K → V → Type 0) (xs : List (K × V)) (d : Dict K V)
      → All (λ x. P x.0 x.1) xs
      → ((k : K) (v : V) → get d k ≡ some v → P k v)
      → (k : K) (v : V) → get (put_entries xs d) k ≡ some v
      → P k v
  unfolding put_entries
  put_entries-All P [] d h old k v g = old k v g
  put_entries-All P (x ∷ xs) d h old k v g =
      put_entries-All P xs (put d x.0 x.1) h.1 (λ j w eq. new j w (sym (get-put d x.0 j x.1) ∙ eq))
        k v g
    where
      new : (j : K) (w : V) → (if x.0 =? j then some x.1 else get d j) ≡ some w → P j w
      new j w eq = elim (Bool-cases (x.0 =? j)) [
        | inl t ↦
            let same = =?→eq x.0 j t in
            let sets = rw t at eq in subst (λ y. P y w) same (subst (P x.0) (some_eq sets) h.0)
        | inr f ↦ old j w (rw f at eq)
      ]
