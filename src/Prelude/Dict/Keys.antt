-- ===== src/Prelude/Dict/Keys.antt =====
-- Keys of dictionaries and of `dict.fromkeys`.
use mathlib.Core.Path.{◌≡◌, refl, sym, ap, ◌∙◌, subst}
use mathlib.Core.Logic.{◌⊎◌, inl, inr}
use mathlib.Core.Bool.{true, false}
use mathlib.Core.Option.{some}
use mathlib.Core.List.{List, [], ◌∷◌}
use native.Mathlib.Omega.{arith}
use pg_monitor.Prelude.Tests.{if◌then◌else◌, Bool-cases}
use pg_monitor.Prelude.Lists.{Elem, All}
use pg_monitor.Prelude.Eq.{Eq, ◌=?◌, =?_refl, =?→eq}
use pg_monitor.Prelude.Dict.{Dict, get, put, put_all, has, unique_onto, unique, get-put}

module _ {K : Type 0} ⦃e : Eq K⦄ where
  pub has-Elem : (a : K) (xs : List K) → Elem a xs → has xs a ≡ true
  unfolding has
  has-Elem a [] m = absurd m
  has-Elem a (x ∷ xs) (inl p) = rw (subst (λ y. (y =? a) ≡ true) p (=?_refl a))
  has-Elem a (x ∷ xs) (inr m) = ground (arith, has-Elem a xs m)

  pub Elem-has : (a : K) (xs : List K) → has xs a ≡ true → Elem a xs
  unfolding has
  Elem-has a [] h = absurd (ground arith)
  Elem-has a (x ∷ xs) h = elim (Bool-cases (x =? a)) [
    | inl t ↦ inl (sym (=?→eq x a t))
    | inr f ↦ inr (Elem-has a xs (ground arith))
  ]

  pub Elem-of_unique_onto : (a : K) (seen xs : List K) → Elem a (unique_onto seen xs) → Elem a xs
  unfolding unique_onto
  Elem-of_unique_onto a seen [] m = absurd m
  Elem-of_unique_onto a seen (x ∷ xs) m = elim (Bool-cases (has seen x)) [
    | inl old ↦ inr (Elem-of_unique_onto a seen xs (rw (old, unique_onto) at m))
    | inr new ↦ elim (rw (new, unique_onto) at m) [
      | inl p ↦ inl p
      | inr r ↦ inr (Elem-of_unique_onto a (x ∷ seen) xs r)
    ]
  ]

  not_seen :
      (x a : K) (seen : List K) → (x =? a) ≡ false → has seen a ≡ false → has (x ∷ seen) a ≡ false
  unfolding has
  not_seen x a seen f n = ground arith

  pub Elem-unique_onto :
      (a : K) (seen xs : List K) → has seen a ≡ false → Elem a xs → Elem a (unique_onto seen xs)
  unfolding unique_onto
  Elem-unique_onto a seen [] n m = absurd m
  Elem-unique_onto a seen (x ∷ xs) n (inl p) =
      let new = subst (λ y. has seen y ≡ false) p n in rw (new, unique_onto) (inl p)
  Elem-unique_onto a seen (x ∷ xs) n (inr m) = elim (Bool-cases (has seen x)) [
    | inl old ↦ rw (old, unique_onto) (Elem-unique_onto a seen xs n m)
    | inr new ↦
        rw (new, unique_onto)
          (elim (Bool-cases (x =? a)) [
            | inl t ↦ inl (sym (=?→eq x a t))
            | inr f ↦ inr (Elem-unique_onto a (x ∷ seen) xs (not_seen x a seen f n) m)
          ])
  ]

  -- `dict.fromkeys` keeps the elements.
  pub Elem-of_unique : (a : K) (xs : List K) → Elem a (unique xs) → Elem a xs
  unfolding unique
  Elem-of_unique a xs m = Elem-of_unique_onto a [] xs m

  pub Elem-unique : (a : K) (xs : List K) → Elem a xs → Elem a (unique xs)
  unfolding unique has
  Elem-unique a xs m = Elem-unique_onto a [] xs refl m

module _ {K V : Type 0} ⦃e : Eq K⦄ where
  -- A dictionary made of keys.
  pub get-put_all :
      (value : K → V) (keys : List K) (d : Dict K V) (k : K)
      → get (put_all (λ key. key) value keys d) k ≡ (if has keys k then some (value k) else get d k)
  unfolding put_all has
  get-put_all value [] d k = refl
  get-put_all value (x ∷ keys) d k =
      get-put_all value keys (put d x (value x)) k ∙ step (Bool-cases (x =? k))
    where
      step :
          ((x =? k) ≡ true) ⊎ ((x =? k) ≡ false)
          → (if has keys k then some (value k) else get (put d x (value x)) k)
            ≡ (if has (x ∷ keys) k then some (value k) else get d k)
      step (inl t) =
          let same = ap (λ y. some (value y)) (=?→eq x k t) in
          ground (arith, get-put d x k (value x))
      step (inr f) = ground (arith, get-put d x k (value x))

  pub put_all_ext :
      (f g : K → V) (keys : List K) (d : Dict K V)
      → All (λ k. f k ≡ g k) keys
      → put_all (λ key. key) f keys d ≡ put_all (λ key. key) g keys d
  unfolding put_all
  put_all_ext f g [] d h = refl
  put_all_ext f g (k ∷ keys) d h =
      ap (λ v. put_all (λ key. key) f keys (put d k v)) h.0
      ∙ put_all_ext f g keys (put d k (g k)) h.1
