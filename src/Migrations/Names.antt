-- ===== src/Migrations/Names.antt =====
-- Lists of tables and indexes that are known by their names.
use pg_monitor.Prelude.{
  ◌≡◌, refl, ap, inl, inr, String, Bool, true, false, Bool-cases, not, List, [], ◌∷◌, ◌++◌, map,
  filter, arith,
}
use pg_monitor.Prelude.Eq.{String_eq, ◌=?◌, =?_refl, =?→eq}
use pg_monitor.Prelude.Dict.{has}
use pg_monitor.Migrations.Schema.{Table, all, refers_to, refers}

-- What was added under a fresh name is what a filter by that name takes out.
pub filter-added :
    {A : Type 0} (key : A → String) (x : A) (xs : List A)
    → has (map key xs) (key x) ≡ false
    → filter (λ y. not (key y =? key x)) (xs ++ x ∷ []) ≡ xs
unfolding has
filter-added key x [] h = rw (=?_refl (key x))
filter-added key x (y ∷ ys) h =
    let other : (key y =? key x) ≡ false = ground arith in
    let rest : has (map key ys) (key x) ≡ false = ground arith in
    rw other (ap (◌∷◌ y) (filter-added key x ys rest))

-- Nothing is taken out by a name that is not known.
pub filter-unknown :
    {A : Type 0} (key : A → String) (known : List String) (name : String) (xs : List A)
    → has known name ≡ false
    → all (λ x. has known (key x)) xs ≡ true
    → filter (λ x. not (key x =? name)) xs ≡ xs
filter-unknown key known name [] n h = refl
filter-unknown key known name (x ∷ xs) n h = elim (Bool-cases (key x =? name)) [
  | inl t ↦ let same = ap (has known) (=?→eq (key x) name t) in absurd (ground arith)
  | inr f ↦ rw f (ap (◌∷◌ x) (filter-unknown key known name xs n (ground arith)))
]

module _ {A : Type 0} where
  pub all_weaken :
      (p q : A → Bool) (xs : List A)
      → ((x : A) → p x ≡ true → q x ≡ true)
      → all p xs ≡ true
      → all q xs ≡ true
  all_weaken p q [] i h = refl
  all_weaken p q (x ∷ xs) i h =
      let here = i x (ground arith) in let rest = all_weaken p q xs i (ground arith) in ground arith

  pub all-append :
      (p : A → Bool) (xs : List A) (y : A)
      → all p xs ≡ true
      → p y ≡ true
      → all p (xs ++ y ∷ []) ≡ true
  all-append p [] y h k = ground arith
  all-append p (x ∷ xs) y h k = let rest = all-append p xs y (ground arith) k in ground arith

pub has-more :
    (known : List String) (new k : String) → has known k ≡ true → has (known ++ new ∷ []) k ≡ true
unfolding has
has-more [] new k h = absurd (ground arith)
has-more (x ∷ known) new k h = elim (Bool-cases (x =? k)) [
  | inl t ↦ ground arith
  | inr f ↦ let rest = has-more known new k (ground arith) in ground arith
]

pub has-new : (known : List String) (new : String) → has (known ++ new ∷ []) new ≡ true
unfolding has
has-new [] new = rw (=?_refl new)
has-new (x ∷ known) new = let rest = has-new known new in ground arith

pub map-append :
    {A : Type 0} (f : A → String) (xs : List A) (y : A)
    → map f (xs ++ y ∷ []) ≡ map f xs ++ f y ∷ []
map-append f [] y = refl
map-append f (x ∷ xs) y = ap (◌∷◌ (f x)) (map-append f xs y)

-- A table whose keys refer to known tables does not refer to an unknown one.
pub not-refers :
    (known : List String) (name : String) (t : Table)
    → has known name ≡ false
    → refers_to known t ≡ true
    → not (refers name t) ≡ true
not-refers known name t n h =
    let none_refers =
      all_weaken (λ k. has known k.referred_table) (λ k. not (k.referred_table =? name))
        t.foreign_keys (λ k r. other k.referred_table r) h in
    rw none_refers refl
  where
    other : (r : String) → has known r ≡ true → not (r =? name) ≡ true
    other r k = elim (Bool-cases (r =? name)) [
      | inl t ↦ let same = ap (has known) (=?→eq r name t) in absurd (ground arith)
      | inr f ↦ rw f
    ]
