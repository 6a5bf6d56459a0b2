-- ===== src/Prelude/Sort.antt =====
-- Python's `sorted` and SQL's `ORDER BY`: a stable sort by a test `le`, and its laws.
pub mod Filter
pub mod Distinct
use Prim.Native.Nat.{ℕ, zero, suc}
use mathlib.Core.Path.{◌≡◌, refl, ap, ◌∙◌}
use mathlib.Core.Logic.{◌⊎◌, inl, inr}
use mathlib.Core.Bool.{Bool, true}
use mathlib.Core.List.{List, [], ◌∷◌, Perm}
use mathlib.Core.List.Perm
use pg_monitor.Prelude.Tests.{if◌then◌else◌, Bool-cases}
use pg_monitor.Prelude.Lists.{All, All-Elem, All-of_Elem, Elem, take, drop, length}
use pg_monitor.Prelude.Order.{IsPreorder}

module _ {A : Type 0} where
  -- Before the first element that `x` may precede.
  unfoldable pub insert_by : (A → A → Bool) → A → List A → List A
  insert_by le x [] = x ∷ []
  insert_by le x (y ∷ ys) = if le x y then x ∷ y ∷ ys else y ∷ insert_by le x ys

  unfoldable pub sort_by : (A → A → Bool) → List A → List A
  unfolding insert_by
  sort_by le [] = []
  sort_by le (x ∷ xs) = insert_by le x (sort_by le xs)

  abbrev pub IsSorted : (A → A → Bool) → List A → Type 0
  IsSorted le [] = Unit
  IsSorted le (x ∷ xs) = All (λ y. le x y ≡ true) xs × IsSorted le xs

  insert_by-perm : (le : A → A → Bool) (x : A) (l : List A) → Perm (insert_by le x l) (x ∷ l)
  unfolding insert_by
  insert_by-perm le x [] = Perm.refl (x ∷ [])
  insert_by-perm le x (y ∷ ys) = elim (Bool-cases (le x y)) [
    | inl t ↦ rw t (Perm.refl (x ∷ y ∷ ys))
    | inr f ↦ rw f (Perm.trans (Perm.cons y (insert_by-perm le x ys)) (Perm.swap x y ys))
  ]

  pub sort_by-perm : (le : A → A → Bool) (l : List A) → Perm (sort_by le l) l
  unfolding sort_by
  sort_by-perm le [] = Perm.refl []
  sort_by-perm le (x ∷ xs) =
      Perm.trans (insert_by-perm le x (sort_by le xs)) (Perm.cons x (sort_by-perm le xs))

  pub All-insert_by :
      (P : A → Type 0) (le : A → A → Bool) (x : A) (l : List A)
      → P x
      → All P l
      → All P (insert_by le x l)
  unfolding insert_by
  All-insert_by P le x [] h k = (h, tt)
  All-insert_by P le x (y ∷ ys) h k = elim (Bool-cases (le x y)) [
    | inl t ↦ rw t (h, k)
    | inr f ↦ rw f (k.0, All-insert_by P le x ys h k.1)
  ]

  -- What holds of all elements holds of all elements of the sorted list, and back.
  pub All-sort_by :
      (P : A → Type 0) (le : A → A → Bool) (l : List A) → All P l → All P (sort_by le l)
  unfolding sort_by
  All-sort_by P le [] h = tt
  All-sort_by P le (x ∷ xs) h = All-insert_by P le x (sort_by le xs) h.0 (All-sort_by P le xs h.1)

  Elem-insert_by :
      (le : A → A → Bool) (x a : A) (l : List A) → Elem a (x ∷ l) → Elem a (insert_by le x l)
  unfolding insert_by
  Elem-insert_by le x a [] m = m
  Elem-insert_by le x a (y ∷ ys) m = elim (Bool-cases (le x y)) [
    | inl t ↦ rw t m
    | inr f ↦ rw f (skip m (Elem-insert_by le x a ys))
  ]
    where
      skip :
          (a ≡ x) ⊎ ((a ≡ y) ⊎ Elem a ys)
          → (Elem a (x ∷ ys) → Elem a (insert_by le x ys))
          → (a ≡ y) ⊎ Elem a (insert_by le x ys)
      skip (inl e) go = inr (go (inl e))
      skip (inr (inl e)) go = inl e
      skip (inr (inr r)) go = inr (go (inr r))

  pub Elem-sort_by : (le : A → A → Bool) (a : A) (l : List A) → Elem a l → Elem a (sort_by le l)
  unfolding sort_by
  Elem-sort_by le a [] m = m
  Elem-sort_by le a (x ∷ xs) (inl e) = Elem-insert_by le x a (sort_by le xs) (inl e)
  Elem-sort_by le a (x ∷ xs) (inr m) =
      Elem-insert_by le x a (sort_by le xs) (inr (Elem-sort_by le a xs m))

  All-le :
      (le : A → A → Bool)
      → IsPreorder le
      → (x y : A) (l : List A) → le x y ≡ true
      → All (λ z. le y z ≡ true) l
      → All (λ z. le x z ≡ true) l
  All-le le p x y [] h k = tt
  All-le le p x y (z ∷ zs) h k = (p.trans x y z h k.0, All-le le p x y zs h k.1)

  insert_by-IsSorted :
      (le : A → A → Bool)
      → IsPreorder le
      → (x : A) (l : List A) → IsSorted le l
      → IsSorted le (insert_by le x l)
  unfolding insert_by
  insert_by-IsSorted le p x [] s = (tt, tt)
  insert_by-IsSorted le p x (y ∷ ys) s = elim (Bool-cases (le x y)) [
    | inl t ↦ rw t ((t, All-le le p x y ys t s.0), s)
    | inr f ↦ rw f (
      All-insert_by (λ z. le y z ≡ true) le x ys (p.total x y f) s.0,
      insert_by-IsSorted le p x ys s.1,
    )
  ]

  pub sort_by-IsSorted :
      (le : A → A → Bool) → IsPreorder le → (l : List A) → IsSorted le (sort_by le l)
  unfolding sort_by
  sort_by-IsSorted le p [] = tt
  sort_by-IsSorted le p (x ∷ xs) =
      insert_by-IsSorted le p x (sort_by le xs) (sort_by-IsSorted le p xs)

  All-drop : (P : A → Type 0) (n : ℕ) (l : List A) → All P l → All P (drop n l)
  All-drop P zero l h = h
  All-drop P (suc n) [] h = tt
  All-drop P (suc n) (x ∷ xs) h = All-drop P n xs h.1

  -- What is kept precedes what is cut off.
  pub IsSorted-take-drop :
      (le : A → A → Bool) (n : ℕ) (l : List A)
      → IsSorted le l
      → All (λ a. All (λ b. le a b ≡ true) (drop n l)) (take n l)
  IsSorted-take-drop le zero l s = tt
  IsSorted-take-drop le (suc n) [] s = tt
  IsSorted-take-drop le (suc n) (x ∷ xs) s = (All-drop _ n xs s.0, IsSorted-take-drop le n xs s.1)

  All-take : (P : A → Type 0) (n : ℕ) (l : List A) → All P l → All P (take n l)
  All-take P zero l h = tt
  All-take P (suc n) [] h = tt
  All-take P (suc n) (x ∷ xs) h = (h.0, All-take P n xs h.1)

  pub IsSorted-take :
      (le : A → A → Bool) (n : ℕ) (l : List A) → IsSorted le l → IsSorted le (take n l)
  IsSorted-take le zero l s = tt
  IsSorted-take le (suc n) [] s = tt
  IsSorted-take le (suc n) (x ∷ xs) s = (All-take _ n xs s.0, IsSorted-take le n xs s.1)

  length-insert_by :
      (le : A → A → Bool) (x : A) (l : List A) → length (insert_by le x l) ≡ suc (length l)
  unfolding insert_by
  length-insert_by le x [] = refl
  length-insert_by le x (y ∷ ys) = elim (Bool-cases (le x y)) [
    | inl t ↦ rw t
    | inr f ↦ rw f (ap suc (length-insert_by le x ys))
  ]

  pub length-sort_by : (le : A → A → Bool) (l : List A) → length (sort_by le l) ≡ length l
  unfolding sort_by
  length-sort_by le [] = refl
  length-sort_by le (x ∷ xs) = length-insert_by le x (sort_by le xs) ∙ ap suc (length-sort_by le xs)

  pub Elem-of_sort_by : (le : A → A → Bool) (a : A) (l : List A) → Elem a (sort_by le l) → Elem a l
  Elem-of_sort_by le a l m =
      All-Elem (λ x. Elem x l) (sort_by le l)
        (All-sort_by (λ x. Elem x l) le l (All-of_Elem (λ x. Elem x l) l (λ x e. e))) m
