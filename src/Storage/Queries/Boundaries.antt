-- ===== src/Storage/Queries/Boundaries.antt =====
-- The bisection of get_latest_snapshots_at_or_before (storage/repositories.py) and the maximum of a query.
use mathlib.Core.Path.{◌≡◌, refl, sym, ap, ◌∙◌, subst}
use pg_monitor.Prelude.{
  ℕ, zero, suc, ◌≤◌, ◌≢◌, inl, inr, Bool, true, false, Option, none, some, List, [], ◌∷◌, arith,
  All, All-Elem, Elem, Elem-of_filter, filter, Bool-cases, leb, leb→le, if◌then◌else◌,
}
use pg_monitor.Prelude.Sort.{IsSorted}
use pg_monitor.Storage.Queries.Latest.{max_of}
use pg_monitor.Storage.Queries.Grouping.{bisect_right, nth_before, boundary_at}

-- `o` is the greatest element of the list, and none if it is empty.
abbrev pub IsMax : Option ℕ → List ℕ → Type 0
IsMax none l = (a : ℕ) → ¬ Elem a l
IsMax (some m) l = Elem m l × ((a : ℕ) → Elem a l → a ≤ m)

pub max_of-IsMax : (l : List ℕ) → IsMax (max_of l) l
unfolding max_of
max_of-IsMax [] = λ a m. m
max_of-IsMax (x ∷ xs) = step (max_of xs) (max_of-IsMax xs)
  where
    among : (m : ℕ) → x ≤ m → ((a : ℕ) → Elem a xs → a ≤ m) → (a : ℕ) → Elem a (x ∷ xs) → a ≤ m
    among m h k a (inl e) = subst (λ y. y ≤ m) (sym e) h
    among m h k a (inr r) = k a r

    head : (a : ℕ) → ((b : ℕ) → ¬ Elem b xs) → Elem a (x ∷ xs) → a ≤ x
    head a h (inl e) = subst (λ y. y ≤ x) (sym e) (omega arith)
    head a h (inr r) = absurd (h a r)

    pick :
        (m k : ℕ)
        → k ≡ (if leb x m then m else x)
        → IsMax (some k) (x ∷ xs)
        → IsMax (some (if leb x m then m else x)) (x ∷ xs)
    pick m k e h = subst (λ y. IsMax (some y) (x ∷ xs)) e h

    step :
        (o : Option ℕ)
        → IsMax o xs
        → IsMax (elim o [ none ↦ some x | some m ↦ some (if leb x m then m else x) ]) (x ∷ xs)
    step none h = (inl refl, λ a. head a h)
    step (some m) h = elim (Bool-cases (leb x m)) [
      | inl t ↦ pick m m (rw t) (inr h.0, among m (leb→le x m t) h.1)
      | inr f ↦
          pick m x (rw f) (inl refl, among x (omega arith) (λ a r. let k = h.1 a r in ground arith))
    ]

-- The greatest element is determined by the elements.
pub IsMax-unique :
    (o o' : Option ℕ) (l l' : List ℕ)
    → IsMax o l
    → IsMax o' l'
    → ((a : ℕ) → Elem a l → Elem a l')
    → ((a : ℕ) → Elem a l' → Elem a l)
    → o ≡ o'
IsMax-unique none none l l' h k to from = refl
IsMax-unique none (some m) l l' h k to from = absurd (h m (from m k.0))
IsMax-unique (some m) none l l' h k to from = absurd (k m (to m h.0))
IsMax-unique (some m) (some m') l l' h k to from =
    let a = h.1 m' (from m' k.0) in let b = k.1 m (to m h.0) in ap some (omega arith)

filter_none : (p : ℕ → Bool) (l : List ℕ) → All (λ a. p a ≡ false) l → filter p l ≡ []
filter_none p [] h = refl
filter_none p (x ∷ xs) h = rw h.0 (filter_none p xs h.1)

above :
    (ts x : ℕ) (l : List ℕ)
    → leb x ts ≡ false
    → All (λ y. leb x y ≡ true) l
    → All (λ y. leb y ts ≡ false) l
above ts x [] h k = tt
above ts x (y ∷ l) h k = (let p = k.0 in ground arith, above ts x l h k.1)

-- One step past a first element that is at most `ts`.
next_boundary :
    (x : ℕ) (xs : List ℕ) (k : ℕ) (o : Option ℕ)
    → nth_before xs k ≡ o
    → ((j : ℕ) → k ≡ suc j → o ≢ none)
    → ((m : ℕ) → o ≡ some m → leb x m ≡ true)
    → nth_before (x ∷ xs) (suc k)
      ≡ elim o [ none ↦ some x | some m ↦ some (if leb x m then m else x) ]
unfolding nth_before
next_boundary x xs zero none e c d = refl
next_boundary x xs zero (some m) e c d = cc
next_boundary x xs (suc k) none e c d = absurd (c k refl refl)
next_boundary x xs (suc k) (some m) e c d = e ∙ rw (d m refl)

max_of-cons-ne-none : (x : ℕ) (xs : List ℕ) → max_of (x ∷ xs) ≢ none
unfolding max_of
max_of-cons-ne-none x xs h = ground arith

found :
    (xs : List ℕ) (ts j : ℕ)
    → bisect_right xs ts ≡ suc j
    → max_of (filter (λ a. leb a ts) xs) ≢ none
unfolding bisect_right
found [] ts j e = cc
found (x ∷ xs) ts j e = elim (Bool-cases (leb x ts)) [
  | inl t ↦ rw t (max_of-cons-ne-none x (filter (λ a. leb a ts) xs))
  | inr f ↦ absurd (ground arith)
]

max_of-Elem : (l : List ℕ) (m : ℕ) → max_of l ≡ some m → Elem m l
max_of-Elem l m e = (subst (λ o. IsMax o l) e (max_of-IsMax l)).0

-- Bisection of an ascending list finds its greatest element that is at most `ts`.
pub boundary_at-IsMax :
    (l : List ℕ) (ts : ℕ) → IsSorted leb l → boundary_at l ts ≡ max_of (filter (λ a. leb a ts) l)
unfolding boundary_at bisect_right nth_before max_of
boundary_at-IsMax [] ts s = refl
boundary_at-IsMax (x ∷ xs) ts s = elim (Bool-cases (leb x ts)) [
  | inr f ↦ rw (f, filter_none (λ a. leb a ts) xs (above ts x xs f s.0))
  | inl t ↦ rw t (
      next_boundary x xs (bisect_right xs ts) (max_of (filter (λ a. leb a ts) xs))
        (boundary_at-IsMax xs ts s.1) (found xs ts)
        (λ m e.
          All-Elem (λ y. leb x y ≡ true) xs s.0
            (Elem-of_filter (λ a. leb a ts) m xs (max_of-Elem _ m e))))
]
