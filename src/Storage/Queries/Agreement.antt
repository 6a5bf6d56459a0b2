-- ===== src/Storage/Queries/Agreement.antt =====
-- The bulk read and the single read of storage/repositories.py, side by side.
pub mod Assembly
use mathlib.Core.Path.{◌≡◌, refl, sym, ap, ◌∙◌, subst}
use pg_monitor.Prelude.{
  ℕ, ◌≤◌, String, Bool, true, false, ◌&&◌, Option, none, some, List, [], ◌∷◌, ◌++◌, map, arith, inl,
  inr, All, All-Elem, All-of_Elem, All-filter, Elem, Elem-map, filter, filter-filter, Bool-cases,
  Option-cases, leb, if◌then◌else◌,
}
use pg_monitor.Prelude.Int.{leb_ℤ}
use pg_monitor.Prelude.Eq.{ℕ_eq, String_eq, ◌=?◌, =?→eq, =?_refl}
use pg_monitor.Prelude.Order.{IsPreorder, lex, on, le_refl, lex-IsPreorder, on-IsPreorder}
use pg_monitor.Prelude.Sort.{sort_by, All-sort_by, Elem-sort_by}
use pg_monitor.Prelude.Sort.Filter.{filter-sort_by, sort_by-agree}
use pg_monitor.Prelude.Dict.{Dict, get, put_all, unique, has}
use pg_monitor.Prelude.Dict.Keys.{has-Elem, Elem-has, Elem-unique, Elem-of_unique, get-put_all}
use pg_monitor.Prelude.Floats.{leb_ℤ-IsPreorder}
use pg_monitor.Exn.{Result, ok, storage_read_error}
use pg_monitor.Storage.Orm.{
  QueryMetricSnapshotOrm, QuerySnapshotRow, QuerySnapshotPoint, Tables, from_orm,
}
use pg_monitor.Storage.Session.{
  Session, Db, select, select_calm, translate, continue, pure, catching,
}
use pg_monitor.Storage.Queries.Latest.{
  Collation, row_order, of_database, latest_row_query, latest_ts_query, rows_at,
  get_latest_snapshot_at_or_before,
}
use pg_monitor.Storage.Queries.Grouping.{
  Points, boundary_at, present, needed_captured_ats, maximum, no_points, assemble, resolve,
}
use pg_monitor.Storage.Queries.Bulk.{
  captured_ats_query, needed_rows_query, get_latest_snapshots_at_or_before,
}
use pg_monitor.Storage.Queries.Groups.{Groups, HasGroup, rows_of, group_rows_lem, build_points_lem}
use pg_monitor.Storage.Queries.Times.{
  leb-IsPreorder, boundary_at-captured_ats, latest_ts-none, maximum-ge_elem,
}

module _ {F : Type 0} ⦃c : Collation⦄ where
  -- The rows of one time, as a point.
  unfoldable pub point_for : String → Tables F → Option ℕ → Option (QuerySnapshotPoint F)
  point_for db t none = none
  point_for db t (some m) =
      some (record { captured_at = m; rows = map from_orm (latest_row_query db m t) })

  -- The snapshot of a database at its latest time that is at most `ts`.
  unfoldable pub latest_point : String → ℕ → Tables F → Option (QuerySnapshotPoint F)
  latest_point db ts t = point_for db t (latest_ts_query db ts t)

  rows_at_calm :
      (db : String) (s : Session F)
      → s.faults ≡ []
      → (o : Option ℕ) → rows_at db o s ≡ (ok (point_for db s.tables o), s)
  unfolding rows_at point_for
  rows_at_calm db s calm none = refl
  rows_at_calm db s calm (some m) = rw (select_calm s calm (latest_row_query db m))

  pub get_latest_snapshot_at_or_before_lem :
      (db : String) (ts : ℕ) (s : Session F)
      → s.faults ≡ []
      → get_latest_snapshot_at_or_before db ts s ≡ (ok (latest_point db ts s.tables), s)
  unfolding get_latest_snapshot_at_or_before latest_point
  get_latest_snapshot_at_or_before_lem db ts s calm =
      rw (select_calm s calm (latest_ts_query db ts)) (
        ap (λ r. (translate storage_read_error r.0, r.1))
          (rows_at_calm db s calm (latest_ts_query db ts s.tables)))

  row_order-IsPreorder : IsPreorder (row_order {F = F})
  row_order-IsPreorder = lex-IsPreorder (on-IsPreorder (λ r. r.queryid) c.le_text-IsPreorder) (
      lex-IsPreorder (on-IsPreorder (λ r. r.dbid) leb_ℤ-IsPreorder)
        (on-IsPreorder (λ r. r.userid) leb_ℤ-IsPreorder))

  by_time : QueryMetricSnapshotOrm F → QueryMetricSnapshotOrm F → Bool
  by_time = lex (on (λ r. r.captured_at) leb) row_order

  by_time-IsPreorder : IsPreorder by_time
  unfolding by_time
  by_time-IsPreorder =
      lex-IsPreorder (on-IsPreorder (λ r. r.captured_at) leb-IsPreorder) row_order-IsPreorder

  by_time-row_order :
      (m : ℕ) (a b : QueryMetricSnapshotOrm F)
      → (a.captured_at =? m) ≡ true
      → (b.captured_at =? m) ≡ true
      → by_time a b ≡ row_order a b
  unfolding by_time
  by_time-row_order m a b h k =
      let p : leb a.captured_at b.captured_at ≡ true = ground arith in
      let q : leb b.captured_at a.captured_at ≡ true = ground arith in rw (p, q)

  at_needed :
      (db : String) (needed : List ℕ) (m : ℕ)
      → has needed m ≡ true
      → (r : QueryMetricSnapshotOrm F)
      → (if of_database db (λ k. has needed k) r then r.captured_at =? m else false)
        ≡ of_database db (λ k. k =? m) r
  at_needed db needed m h r = elim (Bool-cases (r.captured_at =? m)) [
    | inl t ↦
        let e : has needed r.captured_at ≡ true =
          subst (λ y. has needed y ≡ true) (sym (=?→eq r.captured_at m t)) h in
        ground arith
    | inr f ↦ ground arith
  ]

  -- Among the rows of all needed times, those of one time are the rows of the single read, in its order.
  needed_rows-at :
      (db : String) (needed : List ℕ) (m : ℕ) (t : Tables F)
      → has needed m ≡ true
      → rows_of m (needed_rows_query db needed t) ≡ map from_orm (latest_row_query db m t)
  unfolding needed_rows_query latest_row_query by_time
  needed_rows-at db needed m t h =
      let rows = t.query_metric_snapshots in
      let p = λ (r : QueryMetricSnapshotOrm F). r.captured_at =? m in
      let q = of_database db (λ k. has needed k) in
      ap (map from_orm) (
        filter-sort_by by_time by_time-IsPreorder p (filter q rows)
        ∙ sort_by-agree (λ r. p r ≡ true) by_time row_order (by_time-row_order m)
            (filter p (filter q rows)) (All-filter p (filter q rows))
        ∙ ap (sort_by row_order) (
            filter-filter p q (of_database db (λ k. k =? m)) rows
              (All-of_Elem _ rows (λ r _. at_needed db needed m h r))))
