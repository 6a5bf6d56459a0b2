-- ===== src/Storage/Runtime/Upserts.antt =====
-- _upsert_runtime_current and _upsert_runtime_database_current of storage/repositories.py: the statements as
-- functions on the tables.
use pg_monitor.Prelude.{
  ℕ, suc, String, Bool, true, not, ◌&&◌, Option, none, some, List, [], ◌∷◌, leb, filter,
  if◌then◌else◌,
}
use pg_monitor.Prelude.Eq.{String_eq, ◌=?◌}
use pg_monitor.Prelude.Dict.{has}
use pg_monitor.Collector.Models.{DatabaseMetric, RuntimeSnapshotResult}
use pg_monitor.Storage.Orm.{RuntimeCurrentOrm, RuntimeDatabaseCurrentOrm}
use pg_monitor.Storage.Session.{Db, update}

module _ {F : Type 0} where
  unfoldable pub current_row : RuntimeSnapshotResult F → RuntimeCurrentOrm F
  current_row snapshot = record {
    db_identifier = snapshot.db_identifier;
    captured_at = snapshot.captured_at;
    active_connections = snapshot.activity.active_connections;
    blocked_sessions = snapshot.activity.blocked_sessions;
    longest_tx_duration_s = snapshot.activity.longest_tx_duration_s;
    waiting_locks = snapshot.locks.waiting_locks;
    granted_locks = snapshot.locks.granted_locks;
  }

  -- INSERT … ON CONFLICT (db_identifier) DO UPDATE … WHERE excluded.captured_at >= captured_at
  unfoldable pub upsert_current :
      RuntimeCurrentOrm F → List (RuntimeCurrentOrm F) → List (RuntimeCurrentOrm F)
  upsert_current excluded [] = excluded ∷ []
  upsert_current excluded (row ∷ rows) =
      if row.db_identifier =? excluded.db_identifier
      then (if leb row.captured_at excluded.captured_at then excluded else row) ∷ rows
      else row ∷ upsert_current excluded rows

  unfoldable pub upsert_runtime_current : RuntimeSnapshotResult F → Db F (Unit {0})
  unfolding upsert_current current_row
  upsert_runtime_current snapshot =
      update
        λ t. record t { runtime_current = upsert_current (current_row snapshot) t.runtime_current }

  -- `select(captured_at).where(db_identifier == db)`: the first row's value
  unfoldable pub current_captured_at : String → List (RuntimeCurrentOrm F) → Option ℕ
  current_captured_at db [] = none
  current_captured_at db (row ∷ rows) =
      if row.db_identifier =? db then some row.captured_at else current_captured_at db rows

-- DELETE … WHERE db_identifier = db AND datname NOT IN datnames (all of `db`, if there are none)
unfoldable pub delete_gone :
    String → List String → List RuntimeDatabaseCurrentOrm → List RuntimeDatabaseCurrentOrm
delete_gone db datnames rows =
    filter (λ r. not ((r.db_identifier =? db) && not (has datnames r.datname))) rows

unfoldable pub database_values : String → ℕ → DatabaseMetric → ℕ → RuntimeDatabaseCurrentOrm
database_values db captured_at row id = record {
  id = id;
  db_identifier = db;
  captured_at = captured_at;
  datid = row.datid;
  datname = row.datname;
  numbackends = row.numbackends;
  xact_commit = row.xact_commit;
  xact_rollback = row.xact_rollback;
  blks_read = row.blks_read;
  blks_hit = row.blks_hit;
  deadlocks = row.deadlocks;
}

-- INSERT … ON CONFLICT (db_identifier, datname) DO UPDATE …: the row that is there keeps its id.
unfoldable pub upsert_database :
    RuntimeDatabaseCurrentOrm → List RuntimeDatabaseCurrentOrm → List RuntimeDatabaseCurrentOrm
upsert_database excluded [] = excluded ∷ []
upsert_database excluded (row ∷ rows) =
    if (row.db_identifier =? excluded.db_identifier) && (row.datname =? excluded.datname)
    then (if leb row.captured_at excluded.captured_at then record excluded { id = row.id } else row)
      ∷ rows
    else row ∷ upsert_database excluded rows

-- One statement inserts all values; the sequence moves on for each of them.
unfoldable pub upsert_all :
    String
    → ℕ
    → ℕ
    → List DatabaseMetric
    → List RuntimeDatabaseCurrentOrm
    → List RuntimeDatabaseCurrentOrm
unfolding upsert_database database_values
upsert_all db captured_at next [] table = table
upsert_all db captured_at next (row ∷ rows) table =
    upsert_all db captured_at (suc next) rows
      (upsert_database (database_values db captured_at row next) table)

-- ON CONFLICT DO UPDATE cannot change one row twice in a statement.
unfoldable pub distinct_names : List String → Bool
distinct_names [] = true
distinct_names (name ∷ names) = not (has names name) && distinct_names names
