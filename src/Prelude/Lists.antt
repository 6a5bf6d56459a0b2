-- ===== src/Prelude/Lists.antt =====
-- Lists measured by native numbers and filtered by Boolean tests, and predicates by recursion.
use Prim.Native.Nat.{ℕ, zero, suc, ◌+◌, min}
use mathlib.Core.Path.{◌≡◌, refl, sym, ap, ◌∙◌, subst}
use mathlib.Core.Logic.{◌≢◌, ◌⊎◌, inl, inr}
use mathlib.Core.Bool.{Bool, true, false}
use mathlib.Core.List.{List, [], ◌∷◌, ◌++◌, map}
use native.Mathlib.Omega.{arith}
use pg_monitor.Prelude.Tests.{if◌then◌else◌, Bool-cases}

module _ {ℓ} {A : Type ℓ} where
  abbrev pub length : List A → ℕ
  length [] = 0
  length (x ∷ xs) = suc (length xs)

  abbrev pub take : ℕ → List A → List A
  take zero xs = []
  take (suc n) [] = []
  take (suc n) (x ∷ xs) = x ∷ take n xs

  abbrev pub drop : ℕ → List A → List A
  drop zero xs = xs
  drop (suc n) [] = []
  drop (suc n) (x ∷ xs) = drop n xs

  -- `[x for x in xs if p(x)]`
  abbrev pub filter : (A → Bool) → List A → List A
  filter p [] = []
  filter p (x ∷ xs) = let rest = filter p xs in if p x then x ∷ rest else rest

  abbrev pub concat : List (List A) → List A
  concat [] = []
  concat (xs ∷ xss) = xs ++ concat xss

  abbrev pub All {κ} : (A → Type κ) → List A → Type κ
  All P [] = Unit
  All P (x ∷ xs) = P x × All P xs

  pub length-append : (xs ys : List A) → length (xs ++ ys) ≡ length xs + length ys
  length-append [] ys = omega arith
  length-append (x ∷ xs) ys = omega (arith, length-append xs ys)

  pub length-take : (n : ℕ) (xs : List A) → length (take n xs) ≡ min n (length xs)
  length-take zero xs = omega arith
  length-take (suc n) [] = omega arith
  length-take (suc n) (x ∷ xs) = omega (arith, length-take n xs)

  pub All-append {κ} : (P : A → Type κ) (xs ys : List A) → All P xs → All P ys → All P (xs ++ ys)
  All-append P [] ys hx hy = hy
  All-append P (x ∷ xs) ys hx hy = (hx.0, All-append P xs ys hx.1 hy)

  pub take-append-drop : (n : ℕ) (xs : List A) → take n xs ++ drop n xs ≡ xs
  take-append-drop zero xs = refl
  take-append-drop (suc n) [] = refl
  take-append-drop (suc n) (x ∷ xs) = ap (◌∷◌ x) (take-append-drop n xs)

module _ {A : Type 0} where
  -- `a` stands in the list.
  abbrev pub Elem : A → List A → Type 0
  Elem a [] = ⊥
  Elem a (x ∷ xs) = (a ≡ x) ⊎ Elem a xs

  pub All-Elem {κ} : (P : A → Type κ) {a : A} (xs : List A) → All P xs → Elem a xs → P a
  All-Elem P [] h m = absurd m
  All-Elem P (x ∷ xs) h (inl e) = subst P (sym e) h.0
  All-Elem P (x ∷ xs) h (inr m) = All-Elem P xs h.1 m

  pub All-of_Elem {κ} : (P : A → Type κ) (xs : List A) → ((a : A) → Elem a xs → P a) → All P xs
  All-of_Elem P [] h = tt
  All-of_Elem P (x ∷ xs) h = (h x (inl refl), All-of_Elem P xs (λ a m. h a (inr m)))

  pub Elem-append : (a : A) (xs ys : List A) → Elem a xs ⊎ Elem a ys → Elem a (xs ++ ys)
  Elem-append a [] ys (inl m) = absurd m
  Elem-append a [] ys (inr m) = m
  Elem-append a (x ∷ xs) ys (inl (inl e)) = inl e
  Elem-append a (x ∷ xs) ys (inl (inr m)) = inr (Elem-append a xs ys (inl m))
  Elem-append a (x ∷ xs) ys (inr m) = inr (Elem-append a xs ys (inr m))

  -- Membership in a filtered list, both ways.
  pub Elem-filter :
      (p : A → Bool) {a : A} (xs : List A) → Elem a xs → p a ≡ true → Elem a (filter p xs)
  Elem-filter p [] m h = absurd m
  Elem-filter p (x ∷ xs) (inl e) h = rw (ap p (sym e) ∙ h) (inl e)
  Elem-filter p (x ∷ xs) (inr m) h = elim (Bool-cases (p x)) [
    | inl t ↦ rw t (inr (Elem-filter p xs m h))
    | inr f ↦ rw f (Elem-filter p xs m h)
  ]

  pub All-filter : (p : A → Bool) (xs : List A) → All (λ a. p a ≡ true) (filter p xs)
  All-filter p [] = tt
  All-filter p (x ∷ xs) = elim (Bool-cases (p x)) [
    | inl t ↦ rw t (t, All-filter p xs)
    | inr f ↦ rw f (All-filter p xs)
  ]

  pub Elem-of_filter : (p : A → Bool) (a : A) (xs : List A) → Elem a (filter p xs) → Elem a xs
  Elem-of_filter p a [] m = absurd m
  Elem-of_filter p a (x ∷ xs) m = elim (Bool-cases (p x)) [
    | inl t ↦ elim (rw t at m) [ inl e ↦ inl e | inr r ↦ inr (Elem-of_filter p a xs r) ]
    | inr f ↦ inr (Elem-of_filter p a xs (rw f at m))
  ]

module _ {ℓ κ} {A : Type ℓ} where
  pub All-concat : (P : A → Type κ) (xss : List (List A)) → All (All P) xss → All P (concat xss)
  All-concat P [] h = tt
  All-concat P (xs ∷ xss) h = All-append P xs (concat xss) h.0 (All-concat P xss h.1)

module _ {A K : Type 0} (key : A → K) where
  -- No two places of the list have the same key.
  abbrev pub Distinct : List A → Type 0
  Distinct [] = Unit
  Distinct (x ∷ xs) = All (λ y. key x ≢ key y) xs × Distinct xs

  all_other :
      (a : A) (xs : List A) → All (λ y. key a ≢ key y) xs → All (λ y. (y ≡ a) ⊎ (key y ≢ key a)) xs
  all_other a [] h = tt
  all_other a (x ∷ xs) h = (inr (λ e. h.0 (sym e)), all_other a xs h.1)

  -- Every element is this one or has another key.
  pub Distinct-Elem :
      (a : A) (xs : List A) → Distinct xs → Elem a xs → All (λ y. (y ≡ a) ⊎ (key y ≢ key a)) xs
  Distinct-Elem a [] h m = tt
  Distinct-Elem a (x ∷ xs) h (inl e) =
      (inl (sym e), all_other a xs (subst (λ y. All (λ z. key y ≢ key z) xs) (sym e) h.0))
  Distinct-Elem a (x ∷ xs) h (inr m) =
      (inr (All-Elem (λ y. key x ≢ key y) xs h.0 m), Distinct-Elem a xs h.1 m)

module _ {A B : Type 0} (f : A → B) where
  pub All-map {κ} : (P : B → Type κ) (xs : List A) → ((a : A) → P (f a)) → All P (map f xs)
  All-map P [] h = tt
  All-map P (x ∷ xs) h = (h x, All-map P xs h)

  pub Elem-map : (a : A) (xs : List A) → Elem a xs → Elem (f a) (map f xs)
  Elem-map a [] m = m
  Elem-map a (x ∷ xs) (inl e) = inl (ap f e)
  Elem-map a (x ∷ xs) (inr m) = inr (Elem-map a xs m)

  pub Elem-of_map : (b : B) (xs : List A) → Elem b (map f xs) → (a : A) × Elem a xs × (b ≡ f a)
  Elem-of_map b [] m = absurd m
  Elem-of_map b (x ∷ xs) (inl e) = (x, inl refl, e)
  Elem-of_map b (x ∷ xs) (inr m) = let (a, at, e) = Elem-of_map b xs m in (a, inr at, e)

module _ {A : Type 0} (p q r : A → Bool) where
  -- Two filters in a row are one.
  pub filter-filter :
      (xs : List A)
      → All (λ a. (if q a then p a else false) ≡ r a) xs
      → filter p (filter q xs) ≡ filter r xs
  filter-filter [] h = refl
  filter-filter (x ∷ xs) h = elim (Bool-cases (q x)) [
    | inl t ↦ elim (Bool-cases (p x)) [
      | inl u ↦ rw (t, u, kept t u h.0) (ap (◌∷◌ x) (filter-filter xs h.1))
      | inr u ↦ rw (t, u, cut_by_p t u h.0) (filter-filter xs h.1)
    ]
    | inr f ↦ rw (f, cut_by_q f h.0) (filter-filter xs h.1)
  ]
    where
      kept : q x ≡ true → p x ≡ true → (if q x then p x else false) ≡ r x → r x ≡ true
      kept t u e = sym e ∙ rw (t, u)

      cut_by_p : q x ≡ true → p x ≡ false → (if q x then p x else false) ≡ r x → r x ≡ false
      cut_by_p t u e = sym e ∙ rw (t, u)

      cut_by_q : q x ≡ false → (if q x then p x else false) ≡ r x → r x ≡ false
      cut_by_q f e = sym e ∙ rw f
