-- ===== src/Storage/Queries/Bulk.antt =====
-- get_latest_snapshots_at_or_before of storage/repositories.py.
use pg_monitor.Prelude.{ℕ, String, List, [], ◌∷◌, map, leb, filter}
use pg_monitor.Prelude.Eq.{ℕ_eq, ℤ_eq, String_eq}
use pg_monitor.Prelude.Order.{lex, on}
use pg_monitor.Prelude.Sort.{sort_by}
use pg_monitor.Prelude.Dict.{unique, has}
use pg_monitor.Exn.{storage_read_error}
use pg_monitor.Storage.Orm.{QueryMetricSnapshotOrm, Tables}
use pg_monitor.Storage.Session.{Db, pure, select, catching, ◌>>=◌}
use pg_monitor.Storage.Queries.Latest.{Collation, row_order, of_database}
use pg_monitor.Storage.Queries.Grouping.{Points, needed_captured_ats, maximum, no_points, assemble}

module _ {F : Type 0} where
  -- The distinct times of the snapshots of `db` up to `max_ts`, ascending.
  unfoldable pub captured_ats_query : String → ℕ → Tables F → List ℕ
  captured_ats_query db max_ts t = sort_by leb (
      unique (
        map (λ r. r.captured_at)
          (filter (of_database db (λ c. leb c max_ts)) t.query_metric_snapshots)))

module _ {F : Type 0} ⦃c : Collation⦄ where
  -- `order_by(captured_at, queryid, dbid, userid)` over the times in `needed`
  unfoldable pub needed_rows_query : String → List ℕ → Tables F → List (QueryMetricSnapshotOrm F)
  needed_rows_query db needed t =
      sort_by (lex (on (λ r. r.captured_at) leb) row_order)
        (filter (of_database db (λ c. has needed c)) t.query_metric_snapshots)

  unfoldable pub from_needed : String → List ℕ → List ℕ → List ℕ → Db F (Points F)
  unfolding no_points assemble needed_rows_query
  from_needed db captured_ats timestamps [] = pure (no_points timestamps)
  from_needed db captured_ats timestamps (n ∷ needed) = do
    orm_rows ← catching storage_read_error (select (needed_rows_query db (n ∷ needed)))
    λ s. (assemble captured_ats timestamps (n ∷ needed) orm_rows, s)

  unfoldable pub from_captured : String → List ℕ → List ℕ → Db F (Points F)
  unfolding from_needed needed_captured_ats no_points
  from_captured db timestamps [] = pure (no_points timestamps)
  from_captured db timestamps (at ∷ captured_ats) =
      from_needed db (at ∷ captured_ats) timestamps
        (needed_captured_ats (at ∷ captured_ats) timestamps)

  unfoldable pub from_unique : String → List ℕ → Db F (Points F)
  unfolding from_captured captured_ats_query maximum
  from_unique db [] = pure []
  from_unique db (ts ∷ rest) = do
    captured_ats ← catching storage_read_error (select (captured_ats_query db (maximum ts rest)))
    from_captured db (ts ∷ rest) captured_ats

  unfoldable pub get_latest_snapshots_at_or_before : String → List ℕ → Db F (Points F)
  unfolding from_unique
  get_latest_snapshots_at_or_before db timestamps = from_unique db (unique timestamps)
