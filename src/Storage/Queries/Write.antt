-- ===== src/Storage/Queries/Write.antt =====
-- write_query_snapshot of storage/repositories.py.
pub mod Outcomes
pub mod Accepts
use Prim.Native.String.{count}
use pg_monitor.Prelude.{
  ℕ, suc, ◌+◌, Bool, true, false, ◌&&◌, ◌||◌, Option, none, some, List, [], ◌∷◌, ◌++◌, map, leb,
  length, if◌then◌else◌,
}
use pg_monitor.Prelude.Eq.{ℕ_eq, ℤ_eq, String_eq, ◌=?◌}
use pg_monitor.Exn.{Result, ok, err, sqlalchemy_error, storage_write_error}
use pg_monitor.Collector.Models.{StatementMetric, QuerySnapshotResult}
use pg_monitor.Storage.Orm.{QueryMetricSnapshotOrm, in_int4, in_int8}
use pg_monitor.Storage.Session.{Session, Db, pure, statement, catching, ◌>>◌}

module _ {F : Type 0} where
  -- The columns that an insert sends, before the database gives the id.
  unfoldable pub to_orm : QuerySnapshotResult F → StatementMetric F → QueryMetricSnapshotOrm F
  to_orm snapshot statement = record {
    id = 0;
    captured_at = snapshot.captured_at;
    db_identifier = snapshot.db_identifier;
    queryid = statement.queryid;
    dbid = statement.dbid;
    userid = statement.userid;
    query = statement.query;
    calls = statement.calls;
    total_exec_time_ms = statement.total_exec_time_ms;
    mean_exec_time_ms = statement.mean_exec_time_ms;
    rows = statement.rows;
    shared_blks_hit = statement.shared_blks_hit;
    shared_blks_read = statement.shared_blks_read;
    shared_blks_dirtied = statement.shared_blks_dirtied;
    shared_blks_written = statement.shared_blks_written;
  }

  -- uq_query_metric_snapshot_point
  unfoldable pub same_point : QueryMetricSnapshotOrm F → QueryMetricSnapshotOrm F → Bool
  same_point a b =
      (a.captured_at =? b.captured_at)
      && (a.db_identifier =? b.db_identifier)
      && (a.queryid =? b.queryid)
      && (a.dbid =? b.dbid)
      && (a.userid =? b.userid)

  unfoldable pub fits_columns : QueryMetricSnapshotOrm F → Bool
  fits_columns row =
      leb (count row.db_identifier) 255
      && leb (count row.queryid) 128
      && in_int4 row.dbid
      && in_int4 row.userid
      && in_int8 row.calls
      && in_int8 row.rows
      && in_int8 row.shared_blks_hit
      && in_int8 row.shared_blks_read
      && in_int8 row.shared_blks_dirtied
      && in_int8 row.shared_blks_written

  unfoldable pub taken : QueryMetricSnapshotOrm F → List (QueryMetricSnapshotOrm F) → Bool
  unfolding same_point
  taken row [] = false
  taken row (other ∷ rows) = same_point row other || taken row rows

  -- The inserts of one flush, in order; `none` when one breaks a constraint or a column's range.
  unfoldable pub insert_all :
      ℕ
      → List (QueryMetricSnapshotOrm F)
      → List (QueryMetricSnapshotOrm F)
      → Option (List (QueryMetricSnapshotOrm F))
  unfolding taken fits_columns
  insert_all next [] table = some table
  insert_all next (row ∷ rows) table =
      let rest = insert_all (suc next) rows (table ++ record row { id = next } ∷ []) in
      if fits_columns row && not_taken then rest else none
    where
      not_taken : Bool
      not_taken = if taken row table then false else true

  store_rows :
      Option (List (QueryMetricSnapshotOrm F)) → ℕ → Session F → Result (Unit {0}) × Session F
  store_rows none n s = (err sqlalchemy_error, s)
  store_rows (some table) n s = (
    ok tt,
    record s {
      tables = record s.tables { query_metric_snapshots = table };
      sequences = record s.sequences {
        query_metric_snapshots_id = s.sequences.query_metric_snapshots_id + n;
      };
    },
  )

  -- `session.add_all(orm_rows)` and `await session.flush()`
  unfoldable pub flush_rows : List (QueryMetricSnapshotOrm F) → Db F (Unit {0})
  unfolding insert_all store_rows
  flush_rows rows = statement >> λ s.
      store_rows
        (insert_all s.sequences.query_metric_snapshots_id rows s.tables.query_metric_snapshots)
        (length rows) s

  write_rows : List (QueryMetricSnapshotOrm F) → Db F ℕ
  unfolding flush_rows
  write_rows [] = pure 0
  write_rows (row ∷ rows) =
      catching storage_write_error (flush_rows (row ∷ rows)) >> pure (length (row ∷ rows))

  unfoldable pub write_query_snapshot : QuerySnapshotResult F → Db F ℕ
  unfolding write_rows to_orm
  write_query_snapshot snapshot = write_rows (map (to_orm snapshot) snapshot.statements)
