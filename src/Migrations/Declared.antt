-- ===== src/Migrations/Declared.antt =====
-- The schema that storage/orm.py declares. The column of a foreign key has the type of the one that it refers to.
use pg_monitor.Prelude.{none, some, [], ◌∷◌}
use pg_monitor.Migrations.Schema.{
  integer, big_integer, float, datetime_with_timezone, string, Table, Schema,
}
use pg_monitor.Migrations.Revisions.{required, nullable, index}

abbrev pub declared_query_metric_snapshots : Table
declared_query_metric_snapshots = record {
  name = "query_metric_snapshots";
  columns =
      required "id" integer
      ∷ required "captured_at" datetime_with_timezone
      ∷ required "db_identifier" (string (some 255))
      ∷ required "queryid" (string (some 128))
      ∷ required "dbid" integer
      ∷ required "userid" integer
      ∷ required "query" (string none)
      ∷ required "calls" big_integer
      ∷ required "total_exec_time_ms" float
      ∷ required "mean_exec_time_ms" float
      ∷ required "rows" big_integer
      ∷ required "shared_blks_hit" big_integer
      ∷ required "shared_blks_read" big_integer
      ∷ required "shared_blks_dirtied" big_integer
      ∷ required "shared_blks_written" big_integer
      ∷ [];
  primary_key = "id" ∷ [];
  unique_constraints =
      (
        "uq_query_metric_snapshot_point",
        "captured_at" ∷ "db_identifier" ∷ "queryid" ∷ "dbid" ∷ "userid" ∷ [],
      )
      ∷ [];
  foreign_keys = [];
}

abbrev pub declared_runtime_snapshots : Table
declared_runtime_snapshots = record {
  name = "runtime_snapshots";
  columns =
      required "id" integer
      ∷ required "captured_at" datetime_with_timezone
      ∷ required "db_identifier" (string (some 255))
      ∷ required "active_connections" big_integer
      ∷ required "blocked_sessions" big_integer
      ∷ nullable "longest_tx_duration_s" float
      ∷ required "waiting_locks" big_integer
      ∷ required "granted_locks" big_integer
      ∷ [];
  primary_key = "id" ∷ [];
  unique_constraints = [];
  foreign_keys = [];
}

abbrev pub declared_runtime_database_snapshots : Table
declared_runtime_database_snapshots = record {
  name = "runtime_database_snapshots";
  columns =
      required "id" integer
      ∷ required "runtime_snapshot_id" integer
      ∷ required "datid" big_integer
      ∷ required "datname" (string (some 255))
      ∷ required "numbackends" big_integer
      ∷ required "xact_commit" big_integer
      ∷ required "xact_rollback" big_integer
      ∷ required "blks_read" big_integer
      ∷ required "blks_hit" big_integer
      ∷ required "deadlocks" big_integer
      ∷ [];
  primary_key = "id" ∷ [];
  unique_constraints = [];
  foreign_keys =
      record {
        columns = "runtime_snapshot_id" ∷ [];
        referred_table = "runtime_snapshots";
        referred_columns = "id" ∷ [];
        on_delete = "CASCADE";
      }
      ∷ [];
}

abbrev pub declared_runtime_current : Table
declared_runtime_current = record {
  name = "runtime_current";
  columns =
      required "db_identifier" (string (some 255))
      ∷ required "captured_at" datetime_with_timezone
      ∷ required "active_connections" big_integer
      ∷ required "blocked_sessions" big_integer
      ∷ nullable "longest_tx_duration_s" float
      ∷ required "waiting_locks" big_integer
      ∷ required "granted_locks" big_integer
      ∷ [];
  primary_key = "db_identifier" ∷ [];
  unique_constraints = [];
  foreign_keys = [];
}

abbrev pub declared_runtime_database_current : Table
declared_runtime_database_current = record {
  name = "runtime_database_current";
  columns =
      required "id" integer
      ∷ required "db_identifier" (string (some 255))
      ∷ required "captured_at" datetime_with_timezone
      ∷ required "datid" big_integer
      ∷ required "datname" (string (some 255))
      ∷ required "numbackends" big_integer
      ∷ required "xact_commit" big_integer
      ∷ required "xact_rollback" big_integer
      ∷ required "blks_read" big_integer
      ∷ required "blks_hit" big_integer
      ∷ required "deadlocks" big_integer
      ∷ [];
  primary_key = "id" ∷ [];
  unique_constraints =
      ("uq_runtime_database_current_db_identifier_datname", "db_identifier" ∷ "datname" ∷ []) ∷ [];
  foreign_keys = [];
}

abbrev pub declared : Schema
declared = record {
  tables =
      declared_query_metric_snapshots ∷ declared_runtime_snapshots
      ∷ declared_runtime_database_snapshots ∷ declared_runtime_current
      ∷ declared_runtime_database_current ∷ [];
  indexes =
      index "ix_query_metric_snapshots_db_identifier_captured_at" "query_metric_snapshots"
        ("db_identifier" ∷ "captured_at" ∷ [])
      ∷ index "ix_query_metric_snapshots_queryid_captured_at" "query_metric_snapshots"
          ("queryid" ∷ "captured_at" ∷ [])
      ∷ index "ix_runtime_snapshots_db_identifier_captured_at" "runtime_snapshots"
          ("db_identifier" ∷ "captured_at" ∷ [])
      ∷ index "ix_runtime_database_snapshots_runtime_snapshot_id_datname"
          "runtime_database_snapshots" ("runtime_snapshot_id" ∷ "datname" ∷ [])
      ∷ index "ix_runtime_database_current_db_identifier" "runtime_database_current"
          ("db_identifier" ∷ [])
      ∷ [];
}
