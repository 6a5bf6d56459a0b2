-- ===== src/Storage/Queries/Times.antt =====
-- The times that the queries of storage/repositories.py read, of the bulk read and of the single one.
use mathlib.Core.Path.{◌≡◌, sym, ap, ◌∙◌, subst}
use native.Mathlib.Nat.{le_trans}
use pg_monitor.Prelude.{
  ℕ, ◌≤◌, inl, inr, String, Bool, true, ◌&&◌, none, List, [], ◌∷◌, map, arith, All-Elem, All-filter,
  Elem, Elem-filter, Elem-of_filter, Elem-map, Elem-of_map, filter, Bool-cases, leb, ltb, leb→le,
  le→leb, if◌then◌else◌,
}
use pg_monitor.Prelude.Eq.{ℕ_eq, String_eq, ◌=?◌}
use pg_monitor.Prelude.Order.{IsPreorder}
use pg_monitor.Prelude.Sort.{IsSorted, sort_by-IsSorted, Elem-sort_by, Elem-of_sort_by}
use pg_monitor.Prelude.Dict.Keys.{Elem-unique, Elem-of_unique}
use pg_monitor.Storage.Orm.{QueryMetricSnapshotOrm, Tables}
use pg_monitor.Storage.Queries.Latest.{of_database, latest_ts_query}
use pg_monitor.Storage.Queries.Grouping.{bisect_right, nth_before, boundary_at, maximum}
use pg_monitor.Storage.Queries.Bulk.{captured_ats_query}
use pg_monitor.Storage.Queries.Boundaries.{max_of-IsMax, IsMax-unique, boundary_at-IsMax}

-- Ascending numbers.
pub leb-IsPreorder : IsPreorder leb
leb-IsPreorder = record { total = λ a b h. ground arith; trans = λ a b c h k. ground arith }

module _ {F : Type 0} where
  -- The times of the snapshots of a database.
  abbrev pub times : String → (ℕ → Bool) → List (QueryMetricSnapshotOrm F) → List ℕ
  times db when rows = map (λ r. r.captured_at) (filter (of_database db when) rows)

  -- What `a` standing among the times means.
  abbrev pub Timed : String → (ℕ → Bool) → List (QueryMetricSnapshotOrm F) → ℕ → Type 0
  Timed db when rows a =
      (r : QueryMetricSnapshotOrm F) × Elem r rows
      × ((r.db_identifier =? db) ≡ true)
      × (when r.captured_at ≡ true)
      × (a ≡ r.captured_at)

  pub Timed-Elem :
      (db : String) (when : ℕ → Bool) (rows : List (QueryMetricSnapshotOrm F)) (a : ℕ)
      → Elem a (times db when rows)
      → Timed db when rows a
  Timed-Elem db when rows a m =
      let (r, at, e) = Elem-of_map (λ r. r.captured_at) a (filter (of_database db when) rows) m in
      let h =
        All-Elem _ (filter (of_database db when) rows) (All-filter (of_database db when) rows) at in
      let t = both (r.db_identifier =? db) (when r.captured_at) h in
      (r, Elem-of_filter (of_database db when) r rows at, t.0, t.1, e)
    where
      both : (p q : Bool) → (p && q) ≡ true → (p ≡ true) × (q ≡ true)
      both p q h = ground arith

  pub Elem-Timed :
      (db : String) (when : ℕ → Bool) (rows : List (QueryMetricSnapshotOrm F)) (a : ℕ)
      → Timed db when rows a
      → Elem a (times db when rows)
  Elem-Timed db when rows a (r, at, d, w, e) =
      subst (λ y. Elem y (times db when rows)) (sym e)
        (Elem-map (λ r. r.captured_at) r _ (Elem-filter (of_database db when) rows at (rw (d, w))))

  -- The distinct, sorted times are the same times.
  Elem-captured_ats :
      (db : String) (top a : ℕ) (t : Tables F)
      → Elem a (times db (λ k. leb k top) t.query_metric_snapshots)
      → Elem a (captured_ats_query db top t)
  unfolding captured_ats_query
  Elem-captured_ats db top a t m = Elem-sort_by leb a _ (Elem-unique a _ m)

  captured_ats-Elem :
      (db : String) (top a : ℕ) (t : Tables F)
      → Elem a (captured_ats_query db top t)
      → Elem a (times db (λ k. leb k top) t.query_metric_snapshots)
  unfolding captured_ats_query
  captured_ats-Elem db top a t m = Elem-of_unique a _ (Elem-of_sort_by leb a _ m)

  captured_ats-IsSorted :
      (db : String) (top : ℕ) (t : Tables F) → IsSorted leb (captured_ats_query db top t)
  unfolding captured_ats_query
  captured_ats-IsSorted db top t = sort_by-IsSorted leb leb-IsPreorder _

  -- Bisection finds the time that the single read asks for.
  pub boundary_at-captured_ats :
      (db : String) (ts top : ℕ) (t : Tables F)
      → ts ≤ top
      → boundary_at (captured_ats_query db top t) ts ≡ latest_ts_query db ts t
  unfolding latest_ts_query
  boundary_at-captured_ats db ts top t h =
      boundary_at-IsMax caps ts (captured_ats-IsSorted db top t)
      ∙ IsMax-unique _ _ _ _ (max_of-IsMax (filter (λ a. leb a ts) caps))
          (max_of-IsMax (times db (λ k. leb k ts) rows)) to from
    where
      rows : List (QueryMetricSnapshotOrm F)
      rows = t.query_metric_snapshots

      caps : List ℕ
      caps = captured_ats_query db top t

      to : (a : ℕ) → Elem a (filter (λ a. leb a ts) caps) → Elem a (times db (λ k. leb k ts) rows)
      to a m =
          let below = All-Elem (λ a. leb a ts ≡ true) _ (All-filter (λ a. leb a ts) caps) m in
          let (r, at, d, w, e) =
            Timed-Elem db (λ k. leb k top) rows a
              (captured_ats-Elem db top a t (Elem-of_filter (λ a. leb a ts) a caps m)) in
          Elem-Timed db (λ k. leb k ts) rows a (r, at, d, subst (λ y. leb y ts ≡ true) e below, e)

      from : (a : ℕ) → Elem a (times db (λ k. leb k ts) rows) → Elem a (filter (λ a. leb a ts) caps)
      from a m =
          let (r, at, d, w, e) = Timed-Elem db (λ k. leb k ts) rows a m in
          Elem-filter (λ a. leb a ts) caps
            (Elem-captured_ats db top a t (
              Elem-Timed db (λ k. leb k top) rows a
                (r, at, d, le→leb r.captured_at top (le_trans (leb→le r.captured_at ts w) h), e)))
            (subst (λ y. leb y ts ≡ true) (sym e) w)

  -- Where no snapshot is as old as the latest timestamp, no timestamp has a boundary.
  pub latest_ts-none :
      (db : String) (ts top : ℕ) (t : Tables F)
      → ts ≤ top
      → captured_ats_query db top t ≡ []
      → latest_ts_query db ts t ≡ none
  unfolding boundary_at bisect_right nth_before
  latest_ts-none db ts top t h e =
      sym (boundary_at-captured_ats db ts top t h) ∙ ap (λ l. boundary_at l ts) e

pub maximum-ge : (m : ℕ) (xs : List ℕ) → m ≤ maximum m xs
unfolding maximum
maximum-ge m [] = omega arith
maximum-ge m (x ∷ xs) =
    let h = maximum-ge (if ltb m x then x else m) xs in
    elim (Bool-cases (ltb m x)) [
      | inl t ↦ let k : m ≤ (if ltb m x then x else m) = ground arith in le_trans k h
      | inr f ↦ let k : m ≤ (if ltb m x then x else m) = ground arith in le_trans k h
    ]

pub maximum-ge_elem : (ts m : ℕ) (xs : List ℕ) → Elem ts (m ∷ xs) → ts ≤ maximum m xs
unfolding maximum
maximum-ge_elem ts m xs (inl e) = subst (λ y. y ≤ maximum m xs) (sym e) (maximum-ge m xs)
maximum-ge_elem ts m [] (inr r) = absurd r
maximum-ge_elem ts m (x ∷ xs) (inr (inl e)) =
    let k : x ≤ (if ltb m x then x else m) = ground arith in
    subst (λ y. y ≤ maximum m (x ∷ xs)) (sym e)
      (le_trans k (maximum-ge (if ltb m x then x else m) xs))
maximum-ge_elem ts m (x ∷ xs) (inr (inr r)) =
    maximum-ge_elem ts (if ltb m x then x else m) xs (inr r)
