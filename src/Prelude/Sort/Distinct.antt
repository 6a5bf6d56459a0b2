-- ===== src/Prelude/Sort/Distinct.antt =====
-- Distinct keys, under filters, sorts and maps.
use mathlib.Core.Path.{◌≡◌, sym}
use mathlib.Core.Logic.{◌≢◌, inl, inr}
use mathlib.Core.Bool.{Bool}
use mathlib.Core.List.{List, [], ◌∷◌, map}
use pg_monitor.Prelude.Tests.{Bool-cases}
use pg_monitor.Prelude.Lists.{All, Distinct, filter}
use pg_monitor.Prelude.Sort.{insert_by, sort_by, All-insert_by, All-sort_by}

module _ {A K : Type 0} (key : A → K) where
  all_filter : (P : A → Type 0) (p : A → Bool) (xs : List A) → All P xs → All P (filter p xs)
  all_filter P p [] h = tt
  all_filter P p (x ∷ xs) h = elim (Bool-cases (p x)) [
    | inl t ↦ rw t (h.0, all_filter P p xs h.1)
    | inr f ↦ rw f (all_filter P p xs h.1)
  ]

  pub Distinct-filter : (p : A → Bool) (xs : List A) → Distinct key xs → Distinct key (filter p xs)
  Distinct-filter p [] h = tt
  Distinct-filter p (x ∷ xs) h = elim (Bool-cases (p x)) [
    | inl t ↦ rw t (all_filter (λ y. key x ≢ key y) p xs h.0, Distinct-filter p xs h.1)
    | inr f ↦ rw f (Distinct-filter p xs h.1)
  ]

  Distinct-insert_by :
      (le : A → A → Bool) (x : A) (xs : List A)
      → All (λ y. key x ≢ key y) xs
      → Distinct key xs
      → Distinct key (insert_by le x xs)
  unfolding insert_by
  Distinct-insert_by le x [] h d = (tt, tt)
  Distinct-insert_by le x (y ∷ ys) h d = elim (Bool-cases (le x y)) [
    | inl t ↦ rw t (h, d)
    | inr f ↦ rw f (
      All-insert_by (λ z. key y ≢ key z) le x ys (λ e. h.0 (sym e)) d.0,
      Distinct-insert_by le x ys h.1 d.1,
    )
  ]

  pub Distinct-sort_by :
      (le : A → A → Bool) (xs : List A) → Distinct key xs → Distinct key (sort_by le xs)
  unfolding sort_by
  Distinct-sort_by le [] h = tt
  Distinct-sort_by le (x ∷ xs) h =
      Distinct-insert_by le x (sort_by le xs) (All-sort_by (λ y. key x ≢ key y) le xs h.0)
        (Distinct-sort_by le xs h.1)

module _ {A B K L : Type 0} (key : A → K) (f : A → B) (key' : B → L) where
  separate :
      (P : A → Type 0) (same : (x y : A) → P x → P y → key' (f x) ≡ key' (f y) → key x ≡ key y)
      (x : A) (xs : List A)
      → P x
      → All P xs
      → All (λ y. key x ≢ key y) xs
      → All (λ y. key' (f x) ≢ key' y) (map f xs)
  separate P same x [] p h d = tt
  separate P same x (y ∷ xs) p h d = (λ e. d.0 (same x y p h.0 e), separate P same x xs p h.1 d.1)

  -- The images have distinct keys if equal keys of images mean equal keys.
  pub Distinct-map :
      (P : A → Type 0) (same : (x y : A) → P x → P y → key' (f x) ≡ key' (f y) → key x ≡ key y)
      (xs : List A)
      → All P xs
      → Distinct key xs
      → Distinct key' (map f xs)
  Distinct-map P same [] h d = tt
  Distinct-map P same (x ∷ xs) h d =
      (separate P same x xs h.0 h.1 d.0, Distinct-map P same xs h.1 d.1)
