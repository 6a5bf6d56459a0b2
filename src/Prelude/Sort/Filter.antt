-- ===== src/Prelude/Sort/Filter.antt =====
-- Sorting and filtering: a stable sort keeps the order within each class of equal keys.
use mathlib.Core.Path.{◌≡◌, refl, sym, ap, ◌∙◌}
use mathlib.Core.Logic.{inl, inr}
use mathlib.Core.Bool.{Bool, true, false, ◌&&◌}
use mathlib.Core.List.{List, [], ◌∷◌}
use native.Mathlib.Omega.{arith}
use pg_monitor.Prelude.Tests.{Bool-cases}
use pg_monitor.Prelude.Lists.{filter, All, All-filter}
use pg_monitor.Prelude.Order.{IsPreorder}
use pg_monitor.Prelude.Sort.{insert_by, sort_by, IsSorted, sort_by-IsSorted, All-le, All-sort_by}

module _ {A : Type 0} where
  insert_front :
      (le : A → A → Bool) (x : A) (l : List A)
      → All (λ y. le x y ≡ true) l
      → insert_by le x l ≡ x ∷ l
  unfolding insert_by
  insert_front le x [] h = refl
  insert_front le x (y ∷ ys) h = rw h.0

  All-filter_of : (P : A → Type 0) (p : A → Bool) (l : List A) → All P l → All P (filter p l)
  All-filter_of P p [] h = tt
  All-filter_of P p (x ∷ xs) h = elim (Bool-cases (p x)) [
    | inl t ↦ rw t (h.0, All-filter_of P p xs h.1)
    | inr f ↦ rw f (All-filter_of P p xs h.1)
  ]

  filter_keep : (p : A → Bool) (x : A) (l : List A) → p x ≡ true → filter p (x ∷ l) ≡ x ∷ filter p l
  filter_keep p x l h = rw h

  filter_skip : (p : A → Bool) (x : A) (l : List A) → p x ≡ false → filter p (x ∷ l) ≡ filter p l
  filter_skip p x l h = rw h

  insert_step :
      (le : A → A → Bool) (x y : A) (l : List A)
      → le x y ≡ false
      → insert_by le x (y ∷ l) ≡ y ∷ insert_by le x l
  unfolding insert_by
  insert_step le x y l h = rw h

  filter-insert_by_keep :
      (le : A → A → Bool)
      → IsPreorder le
      → (p : A → Bool) (x : A) (l : List A) → IsSorted le l
      → p x ≡ true
      → filter p (insert_by le x l) ≡ insert_by le x (filter p l)
  unfolding insert_by
  filter-insert_by_keep le o p x [] s h = rw h
  filter-insert_by_keep le o p x (y ∷ ys) s h = elim (Bool-cases (le x y)) [
    | inl t ↦ rw (insert_front le x (y ∷ ys) (t, All-le le o x y ys t s.0)) (
        filter_keep p x (y ∷ ys) h
        ∙ sym (
            insert_front le x (filter p (y ∷ ys))
              (All-filter_of _ p (y ∷ ys) (t, All-le le o x y ys t s.0))))
    | inr n ↦ rw (insert_step le x y ys n) (elim (Bool-cases (p y)) [
      | inl k ↦ rw (k, n) (ap (◌∷◌ y) (filter-insert_by_keep le o p x ys s.1 h))
      | inr m ↦ rw m (filter-insert_by_keep le o p x ys s.1 h)
    ])
  ]

  filter-insert_by_skip :
      (le : A → A → Bool) (p : A → Bool) (x : A) (l : List A)
      → p x ≡ false
      → filter p (insert_by le x l) ≡ filter p l
  unfolding insert_by
  filter-insert_by_skip le p x [] h = rw h
  filter-insert_by_skip le p x (y ∷ ys) h = elim (Bool-cases (le x y)) [
    | inl t ↦ rw (t, h)
    | inr n ↦ rw n (elim (Bool-cases (p y)) [
      | inl k ↦ rw k (ap (◌∷◌ y) (filter-insert_by_skip le p x ys h))
      | inr m ↦ rw m (filter-insert_by_skip le p x ys h)
    ])
  ]

  pub filter-sort_by :
      (le : A → A → Bool)
      → IsPreorder le
      → (p : A → Bool) (l : List A) → filter p (sort_by le l) ≡ sort_by le (filter p l)
  unfolding sort_by
  filter-sort_by le o p [] = refl
  filter-sort_by le o p (x ∷ xs) = elim (Bool-cases (p x)) [
    | inl t ↦
        filter-insert_by_keep le o p x (sort_by le xs) (sort_by-IsSorted le o xs) t
        ∙ rw t (ap (insert_by le x) (filter-sort_by le o p xs))
    | inr f ↦ filter-insert_by_skip le p x (sort_by le xs) f ∙ rw f (filter-sort_by le o p xs)
  ]

  -- Two tests that agree on the elements give one order.
  module _ (P : A → Type 0) (le₁ le₂ : A → A → Bool)
      (agree : (a b : A) → P a → P b → le₁ a b ≡ le₂ a b) where
    insert_by-agree : (x : A) (l : List A) → P x → All P l → insert_by le₁ x l ≡ insert_by le₂ x l
    unfolding insert_by
    insert_by-agree x [] h k = refl
    insert_by-agree x (y ∷ ys) h k = elim (Bool-cases (le₂ x y)) [
      | inl t ↦ rw (agree x y h k.0, t)
      | inr f ↦ rw (agree x y h k.0, f) (ap (◌∷◌ y) (insert_by-agree x ys h k.1))
    ]

    pub sort_by-agree : (l : List A) → All P l → sort_by le₁ l ≡ sort_by le₂ l
    unfolding sort_by
    sort_by-agree [] h = refl
    sort_by-agree (x ∷ xs) h =
        ap (insert_by le₁ x) (sort_by-agree xs h.1)
        ∙ insert_by-agree x (sort_by le₂ xs) h.0 (All-sort_by P le₂ xs h.1)

  all_equal : A → A → Bool
  all_equal a b = true

  sort_by-all_equal : (l : List A) → sort_by all_equal l ≡ l
  unfolding sort_by insert_by all_equal
  sort_by-all_equal [] = refl
  sort_by-all_equal (x ∷ xs) = rw (sort_by-all_equal xs) (front x xs)
    where
      front : (x : A) (l : List A) → insert_by (λ a b. true) x l ≡ x ∷ l
      front x [] = refl
      front x (y ∷ l) = refl

  -- The class of `k`: what is equal to it in the order.
  abbrev pub same_class : (A → A → Bool) → A → A → Bool
  same_class le k a = le k a && le a k

  -- Elements that compare equal stay in the order of the input.
  pub sort_by_stable :
      (le : A → A → Bool)
      → IsPreorder le
      → (k : A) (l : List A) → filter (same_class le k) (sort_by le l) ≡ filter (same_class le k) l
  unfolding all_equal
  sort_by_stable le o k l =
      filter-sort_by le o (same_class le k) l
      ∙ sort_by-agree (λ a. same_class le k a ≡ true) le all_equal agree _
          (All-filter (same_class le k) l)
      ∙ sort_by-all_equal (filter (same_class le k) l)
    where
      agree :
          (a b : A) → same_class le k a ≡ true → same_class le k b ≡ true → le a b ≡ all_equal a b
      agree a b p q = ground (arith, o.trans a k b)
