-- ===== src/Storage/Queries/Newest.antt =====
-- What get_latest_snapshot_at_or_before (storage/repositories.py) returns, said of the rows of the table.
use mathlib.Core.Path.{◌≡◌, refl, sym}
use mathlib.Core.List.Perm
use pg_monitor.Prelude.{
  ℕ, ◌≤◌, String, true, Option, none, some, List, [], map, Perm, Elem, filter, leb, leb→le, le→leb,
}
use pg_monitor.Prelude.Eq.{ℕ_eq, String_eq, ◌=?◌}
use pg_monitor.Prelude.Sort.{sort_by-perm}
use pg_monitor.Exn.{ok}
use pg_monitor.Storage.Orm.{QueryMetricSnapshotOrm, QuerySnapshotPoint, Tables, from_orm}
use pg_monitor.Storage.Session.{Session}
use pg_monitor.Storage.Queries.Latest.{
  Collation, row_order, of_database, latest_row_query, latest_ts_query,
  get_latest_snapshot_at_or_before,
}
use pg_monitor.Storage.Queries.Boundaries.{IsMax, max_of-IsMax}
use pg_monitor.Storage.Queries.Times.{times, Timed-Elem, Elem-Timed}
use pg_monitor.Storage.Queries.Agreement.{
  point_for, latest_point, get_latest_snapshot_at_or_before_lem,
}

-- A row of the database `db`, at or before `ts`.
pub record Before {F : Type 0} (db : String) (ts : ℕ) (t : Tables F) (r : QueryMetricSnapshotOrm F)
    : Type 0 where
  pub stored : Elem r t.query_metric_snapshots
  pub of_db : (r.db_identifier =? db) ≡ true
  pub in_time : r.captured_at ≤ ts

-- No row, or the rows of the latest time of all rows at or before `ts`, at which there is such a row.
abbrev pub Newest : {F : Type 0} → String → ℕ → Tables F → Option (QuerySnapshotPoint F) → Type 0
Newest {F} db ts t none = (r : QueryMetricSnapshotOrm F) → ¬ Before db ts t r
Newest {F} db ts t (some p) =
    ((r : QueryMetricSnapshotOrm F) × Before db ts t r × (r.captured_at ≡ p.captured_at))
    × ((r : QueryMetricSnapshotOrm F) → Before db ts t r → r.captured_at ≤ p.captured_at)
    × Perm p.rows
        (map from_orm (filter (of_database db (λ k. k =? p.captured_at)) t.query_metric_snapshots))

module _ {F : Type 0} ⦃c : Collation⦄ (db : String) (ts : ℕ) (t : Tables F) where
  abbrev at_times : List ℕ
  at_times = times db (λ k. leb k ts) t.query_metric_snapshots

  Elem-Before : (r : QueryMetricSnapshotOrm F) → Before db ts t r → Elem r.captured_at at_times
  Elem-Before r b =
      Elem-Timed db (λ k. leb k ts) t.query_metric_snapshots r.captured_at
        (r, b.stored, b.of_db, le→leb r.captured_at ts b.in_time, refl)

  point_for-Newest : (o : Option ℕ) → IsMax o at_times → Newest db ts t (point_for db t o)
  unfolding point_for latest_row_query
  point_for-Newest none h = λ r b. h r.captured_at (Elem-Before r b)
  point_for-Newest (some m) h =
      let (r, at, d, w, e) = Timed-Elem db (λ k. leb k ts) t.query_metric_snapshots m h.0 in
      (
        (r, record { stored = at; of_db = d; in_time = leb→le r.captured_at ts w }, sym e),
        λ r b. h.1 r.captured_at (Elem-Before r b),
        Perm.map from_orm (sort_by-perm row_order _),
      )

  latest_point-Newest : Newest db ts t (latest_point db ts t)
  unfolding latest_point latest_ts_query
  latest_point-Newest = point_for-Newest _ (max_of-IsMax at_times)

module _ {F : Type 0} ⦃c : Collation⦄ where
  -- On a session whose statements succeed, the single read changes nothing and returns the rows of the latest time
  -- that a row of the database has at or before `ts`, each as often as it is stored, or nothing if there is no such row.
  pub get_latest_snapshot_at_or_before-Newest :
      (db : String) (ts : ℕ) (s : Session F)
      → s.faults ≡ []
      → (point : Option (QuerySnapshotPoint F)) × (get_latest_snapshot_at_or_before db ts s
          ≡ (ok point, s))
        × Newest db ts s.tables point
  get_latest_snapshot_at_or_before-Newest db ts s calm = (
    latest_point db ts s.tables,
    get_latest_snapshot_at_or_before_lem db ts s calm,
    latest_point-Newest db ts s.tables,
  )
