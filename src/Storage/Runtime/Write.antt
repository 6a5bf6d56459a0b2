-- ===== src/Storage/Runtime/Write.antt =====
-- write_runtime_snapshot of storage/repositories.py: the history, and the latest state by upserts.
pub mod Outcomes
pub mod Forward
pub mod Stale
pub mod Databases
pub mod Values
use Prim.Native.String.{count}
use pg_monitor.Prelude.{
  ℕ, suc, ◌+◌, Bool, true, false, ◌&&◌, Option, none, some, List, [], ◌∷◌, ◌++◌, map, ltb, leb,
  length, if◌then◌else◌,
}
use pg_monitor.Prelude.Eq.{String_eq}
use pg_monitor.Exn.{ok, err, sqlalchemy_error, storage_write_error}
use pg_monitor.Collector.Models.{DatabaseMetric, RuntimeSnapshotResult}
use pg_monitor.Storage.Orm.{RuntimeSnapshotOrm, RuntimeDatabaseSnapshotOrm, in_int8}
use pg_monitor.Storage.Session.{Db, pure, select, update, statement, catching, ◌>>=◌, ◌>>◌}
use pg_monitor.Storage.Runtime.Upserts.{
  upsert_runtime_current, current_captured_at, delete_gone, upsert_all, distinct_names,
}

-- `latest_current_ts is not None and latest_current_ts > snapshot.captured_at`
unfoldable pub is_stale : Option ℕ → ℕ → Bool
is_stale none captured_at = false
is_stale (some latest) captured_at = ltb captured_at latest

fits_database : DatabaseMetric → Bool
fits_database row =
    in_int8 row.datid
    && leb (count row.datname) 255
    && in_int8 row.numbackends
    && in_int8 row.xact_commit
    && in_int8 row.xact_rollback
    && in_int8 row.blks_read
    && in_int8 row.blks_hit
    && in_int8 row.deadlocks

unfoldable pub fit_all : List DatabaseMetric → Bool
unfolding fits_database
fit_all [] = true
fit_all (row ∷ rows) = fits_database row && fit_all rows

module _ {F : Type 0} where
  fits_runtime : RuntimeSnapshotResult F → Bool
  fits_runtime snapshot =
      leb (count snapshot.db_identifier) 255
      && in_int8 snapshot.activity.active_connections
      && in_int8 snapshot.activity.blocked_sessions
      && in_int8 snapshot.locks.waiting_locks
      && in_int8 snapshot.locks.granted_locks

  -- A value that no column holds is an SQL error.
  unfoldable pub require_fit : Bool → Db F (Unit {0})
  require_fit true s = (ok tt, s)
  require_fit false s = (err sqlalchemy_error, s)

  unfoldable pub runtime_orm : RuntimeSnapshotResult F → ℕ → RuntimeSnapshotOrm F
  runtime_orm snapshot id = record {
    id = id;
    captured_at = snapshot.captured_at;
    db_identifier = snapshot.db_identifier;
    active_connections = snapshot.activity.active_connections;
    blocked_sessions = snapshot.activity.blocked_sessions;
    longest_tx_duration_s = snapshot.activity.longest_tx_duration_s;
    waiting_locks = snapshot.locks.waiting_locks;
    granted_locks = snapshot.locks.granted_locks;
  }

  -- `session.add(runtime_orm)` and `flush`, which gives the id
  unfoldable pub flush_runtime : RuntimeSnapshotResult F → Db F ℕ
  unfolding statement require_fit fits_runtime runtime_orm
  flush_runtime snapshot = statement >> require_fit (fits_runtime snapshot) >> λ s.
      let id = s.sequences.runtime_snapshots_id in
      (
        ok id,
        record s {
          tables = record s.tables {
            runtime_snapshots = s.tables.runtime_snapshots ++ runtime_orm snapshot id ∷ [];
          };
          sequences = record s.sequences { runtime_snapshots_id = suc id };
        },
      )

unfoldable pub history_row : ℕ → DatabaseMetric → ℕ → RuntimeDatabaseSnapshotOrm
history_row runtime_snapshot_id row id = record {
  id = id;
  runtime_snapshot_id = runtime_snapshot_id;
  datid = row.datid;
  datname = row.datname;
  numbackends = row.numbackends;
  xact_commit = row.xact_commit;
  xact_rollback = row.xact_rollback;
  blks_read = row.blks_read;
  blks_hit = row.blks_hit;
  deadlocks = row.deadlocks;
}

unfoldable pub history_rows : ℕ → ℕ → List DatabaseMetric → List RuntimeDatabaseSnapshotOrm
unfolding history_row
history_rows runtime_snapshot_id next [] = []
history_rows runtime_snapshot_id next (row ∷ rows) =
    history_row runtime_snapshot_id row next ∷ history_rows runtime_snapshot_id (suc next) rows

module _ {F : Type 0} where
  flush_history : ℕ → List DatabaseMetric → Db F (Unit {0})
  unfolding statement require_fit fit_all history_rows
  flush_history id [] = pure tt
  flush_history id (row ∷ rows) = statement >> require_fit (fit_all (row ∷ rows)) >> λ s.
      let next = s.sequences.runtime_database_snapshots_id in
      (
        ok tt,
        record s {
          tables = record s.tables {
            runtime_database_snapshots =
                s.tables.runtime_database_snapshots ++ history_rows id next (row ∷ rows);
          };
          sequences = record s.sequences {
            runtime_database_snapshots_id = next + length (row ∷ rows);
          };
        },
      )

  -- The values of one INSERT fit their columns, and no two are of one row.
  abbrev pub fits_values : RuntimeSnapshotResult F → Bool
  fits_values snapshot =
      leb (count snapshot.db_identifier) 255
      && fit_all snapshot.database
      && distinct_names (map (λ r. r.datname) snapshot.database)

  -- The INSERT of all values, after the DELETE of the databases that are gone.
  upsert_values : RuntimeSnapshotResult F → Db F (Unit {0})
  unfolding statement require_fit fit_all upsert_all distinct_names
  upsert_values snapshot = statement >> require_fit (fits_values snapshot) >> λ s.
      let next = s.sequences.runtime_database_current_id in
      (
        ok tt,
        record s {
          tables = record s.tables {
            runtime_database_current =
                upsert_all snapshot.db_identifier snapshot.captured_at next snapshot.database
                  s.tables.runtime_database_current;
          };
          sequences = record s.sequences {
            runtime_database_current_id = next + length snapshot.database;
          };
        },
      )

  delete_databases : RuntimeSnapshotResult F → Db F (Unit {0})
  unfolding delete_gone
  delete_databases snapshot = update λ t. record t {
    runtime_database_current =
        delete_gone snapshot.db_identifier (map (λ r. r.datname) snapshot.database)
          t.runtime_database_current;
  }

  -- With no database rows the method returns after the DELETE.
  unfoldable pub replace_databases : RuntimeSnapshotResult F → List DatabaseMetric → Db F (Unit {0})
  unfolding delete_databases upsert_values
  replace_databases snapshot [] = delete_databases snapshot
  replace_databases snapshot (row ∷ rows) = delete_databases snapshot >> upsert_values snapshot

  unfoldable pub upsert_runtime_database_current : RuntimeSnapshotResult F → Db F (Unit {0})
  unfolding replace_databases current_captured_at is_stale
  upsert_runtime_database_current snapshot = do
    latest_current_ts ← select λ t. current_captured_at snapshot.db_identifier t.runtime_current
    if is_stale latest_current_ts snapshot.captured_at
        then pure tt
        else replace_databases snapshot snapshot.database

  unfoldable pub write_runtime_snapshot : RuntimeSnapshotResult F → Db F ℕ
  unfolding flush_runtime upsert_runtime_current upsert_runtime_database_current flush_history
  write_runtime_snapshot snapshot = do
    catching storage_write_error do
      id ← flush_runtime snapshot
      upsert_runtime_current snapshot
      upsert_runtime_database_current snapshot
      flush_history id snapshot.database
    pure (1 + length snapshot.database)
