-- ===== src/Storage/Orm.antt =====
-- The tables of storage/orm.py and the read models of storage/models.py. A point in time is a number of
-- microseconds since datetime.min in UTC, and `F` is the type of floats.
use pg_monitor.Prelude.{ℕ, ◌-◌, ◌^◌, String, Bool, Option, List, leb}
use pg_monitor.Prelude.Int.{ℤ, pos, negsuc}

pub record QueryMetricSnapshotOrm (F : Type 0) : Type 0 where
  pub id : ℕ
  pub captured_at : ℕ
  pub db_identifier : String
  pub queryid : String
  pub dbid : ℤ
  pub userid : ℤ
  pub query : String
  pub calls : ℤ
  pub total_exec_time_ms : F
  pub mean_exec_time_ms : F
  pub rows : ℤ
  pub shared_blks_hit : ℤ
  pub shared_blks_read : ℤ
  pub shared_blks_dirtied : ℤ
  pub shared_blks_written : ℤ

pub record RuntimeSnapshotOrm (F : Type 0) : Type 0 where
  pub id : ℕ
  pub captured_at : ℕ
  pub db_identifier : String
  pub active_connections : ℤ
  pub blocked_sessions : ℤ
  pub longest_tx_duration_s : Option F
  pub waiting_locks : ℤ
  pub granted_locks : ℤ

pub record RuntimeDatabaseSnapshotOrm : Type 0 where
  pub id : ℕ
  pub runtime_snapshot_id : ℕ
  pub datid : ℤ
  pub datname : String
  pub numbackends : ℤ
  pub xact_commit : ℤ
  pub xact_rollback : ℤ
  pub blks_read : ℤ
  pub blks_hit : ℤ
  pub deadlocks : ℤ

pub record RuntimeCurrentOrm (F : Type 0) : Type 0 where
  pub db_identifier : String
  pub captured_at : ℕ
  pub active_connections : ℤ
  pub blocked_sessions : ℤ
  pub longest_tx_duration_s : Option F
  pub waiting_locks : ℤ
  pub granted_locks : ℤ

pub record RuntimeDatabaseCurrentOrm : Type 0 where
  pub id : ℕ
  pub db_identifier : String
  pub captured_at : ℕ
  pub datid : ℤ
  pub datname : String
  pub numbackends : ℤ
  pub xact_commit : ℤ
  pub xact_rollback : ℤ
  pub blks_read : ℤ
  pub blks_hit : ℤ
  pub deadlocks : ℤ

-- storage/models.py
pub record QuerySnapshotRow (F : Type 0) : Type 0 where
  pub captured_at : ℕ
  pub db_identifier : String
  pub queryid : String
  pub dbid : ℤ
  pub userid : ℤ
  pub query : String
  pub calls : ℤ
  pub total_exec_time_ms : F
  pub mean_exec_time_ms : F
  pub rows : ℤ
  pub shared_blks_hit : ℤ
  pub shared_blks_read : ℤ
  pub shared_blks_dirtied : ℤ
  pub shared_blks_written : ℤ

pub record QuerySnapshotPoint (F : Type 0) : Type 0 where
  pub captured_at : ℕ
  pub rows : List (QuerySnapshotRow F)

pub record RuntimeDatabaseState : Type 0 where
  pub datid : ℤ
  pub datname : String
  pub numbackends : ℤ
  pub xact_commit : ℤ
  pub xact_rollback : ℤ
  pub blks_read : ℤ
  pub blks_hit : ℤ
  pub deadlocks : ℤ

pub record RuntimeState (F : Type 0) : Type 0 where
  pub captured_at : ℕ
  pub db_identifier : String
  pub active_connections : ℤ
  pub blocked_sessions : ℤ
  pub longest_tx_duration_s : Option F
  pub waiting_locks : ℤ
  pub granted_locks : ℤ
  pub database : List RuntimeDatabaseState

-- QuerySnapshotRow.from_orm
unfoldable pub from_orm : {F : Type 0} → QueryMetricSnapshotOrm F → QuerySnapshotRow F
from_orm row = record {
  captured_at = row.captured_at;
  db_identifier = row.db_identifier;
  queryid = row.queryid;
  dbid = row.dbid;
  userid = row.userid;
  query = row.query;
  calls = row.calls;
  total_exec_time_ms = row.total_exec_time_ms;
  mean_exec_time_ms = row.mean_exec_time_ms;
  rows = row.rows;
  shared_blks_hit = row.shared_blks_hit;
  shared_blks_read = row.shared_blks_read;
  shared_blks_dirtied = row.shared_blks_dirtied;
  shared_blks_written = row.shared_blks_written;
}

-- The ranges of the columns `Integer` and `BigInteger`: a value out of range is an SQL error.
abbrev pub in_int4 : ℤ → Bool
in_int4 (pos n) = leb n (2 ^ 31 - 1)
in_int4 (negsuc n) = leb n (2 ^ 31 - 1)

abbrev pub in_int8 : ℤ → Bool
in_int8 (pos n) = leb n (2 ^ 63 - 1)
in_int8 (negsuc n) = leb n (2 ^ 63 - 1)

pub record Tables (F : Type 0) : Type 0 where
  pub query_metric_snapshots : List (QueryMetricSnapshotOrm F)
  pub runtime_snapshots : List (RuntimeSnapshotOrm F)
  pub runtime_database_snapshots : List RuntimeDatabaseSnapshotOrm
  pub runtime_current : List (RuntimeCurrentOrm F)
  pub runtime_database_current : List RuntimeDatabaseCurrentOrm
