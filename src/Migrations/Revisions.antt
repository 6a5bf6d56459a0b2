-- ===== src/Migrations/Revisions.antt =====
-- The revisions of src/alembic/versions.
use pg_monitor.Prelude.{String, Option, none, some, true, false, List, [], ◌∷◌}
use pg_monitor.Migrations.Schema.{
  ColumnType, integer, big_integer, float, datetime_with_timezone, string, Column, Table, Index,
  Operation, create_table, create_index, drop_index, drop_table, alter_column,
}

-- `sa.Column(...)` with `nullable=False` and with `nullable=True`
abbrev pub required : String → ColumnType → Column
required name type = record { name = name; type_of = type; nullable = false }

abbrev pub nullable : String → ColumnType → Column
nullable name type = record { name = name; type_of = type; nullable = true }

-- The arguments of `op.create_index(..., unique=False)`
abbrev pub index : String → String → List String → Index
index name table columns = record {
  name = name;
  table_name = table;
  columns = columns;
  is_unique = false;
}

abbrev pub query_metric_snapshots : Table
query_metric_snapshots = record {
  name = "query_metric_snapshots";
  columns =
      required "id" integer
      ∷ required "captured_at" datetime_with_timezone
      ∷ required "db_identifier" (string (some 255))
      ∷ required "queryid" (string (some 128))
      ∷ required "dbid" integer
      ∷ required "userid" integer
      ∷ required "query" (string none)
      ∷ required "calls" integer
      ∷ required "total_exec_time_ms" float
      ∷ required "mean_exec_time_ms" float
      ∷ required "rows" integer
      ∷ required "shared_blks_hit" integer
      ∷ required "shared_blks_read" integer
      ∷ required "shared_blks_dirtied" integer
      ∷ required "shared_blks_written" integer
      ∷ [];
  primary_key = "id" ∷ [];
  unique_constraints =
      (
        "uq_query_metric_snapshot_point",
        "captured_at" ∷ "db_identifier" ∷ "queryid" ∷ "dbid" ∷ "userid" ∷ [],
      )
      ∷ [];
  foreign_keys = [];
}

abbrev pub runtime_snapshots : Table
runtime_snapshots = record {
  name = "runtime_snapshots";
  columns =
      required "id" integer
      ∷ required "captured_at" datetime_with_timezone
      ∷ required "db_identifier" (string (some 255))
      ∷ required "active_connections" big_integer
      ∷ required "blocked_sessions" big_integer
      ∷ nullable "longest_tx_duration_s" float
      ∷ required "waiting_locks" big_integer
      ∷ required "granted_locks" big_integer
      ∷ [];
  primary_key = "id" ∷ [];
  unique_constraints = [];
  foreign_keys = [];
}

abbrev pub runtime_database_snapshots : Table
runtime_database_snapshots = record {
  name = "runtime_database_snapshots";
  columns =
      required "id" integer
      ∷ required "runtime_snapshot_id" integer
      ∷ required "datid" big_integer
      ∷ required "datname" (string (some 255))
      ∷ required "numbackends" big_integer
      ∷ required "xact_commit" big_integer
      ∷ required "xact_rollback" big_integer
      ∷ required "blks_read" big_integer
      ∷ required "blks_hit" big_integer
      ∷ required "deadlocks" big_integer
      ∷ [];
  primary_key = "id" ∷ [];
  unique_constraints = [];
  foreign_keys =
      record {
        columns = "runtime_snapshot_id" ∷ [];
        referred_table = "runtime_snapshots";
        referred_columns = "id" ∷ [];
        on_delete = "CASCADE";
      }
      ∷ [];
}

abbrev pub runtime_current : Table
runtime_current = record {
  name = "runtime_current";
  columns =
      required "db_identifier" (string (some 255))
      ∷ required "captured_at" datetime_with_timezone
      ∷ required "active_connections" big_integer
      ∷ required "blocked_sessions" big_integer
      ∷ nullable "longest_tx_duration_s" float
      ∷ required "waiting_locks" big_integer
      ∷ required "granted_locks" big_integer
      ∷ [];
  primary_key = "db_identifier" ∷ [];
  unique_constraints = [];
  foreign_keys = [];
}

abbrev pub runtime_database_current : Table
runtime_database_current = record {
  name = "runtime_database_current";
  columns =
      required "id" integer
      ∷ required "db_identifier" (string (some 255))
      ∷ required "captured_at" datetime_with_timezone
      ∷ required "datid" big_integer
      ∷ required "datname" (string (some 255))
      ∷ required "numbackends" big_integer
      ∷ required "xact_commit" big_integer
      ∷ required "xact_rollback" big_integer
      ∷ required "blks_read" big_integer
      ∷ required "blks_hit" big_integer
      ∷ required "deadlocks" big_integer
      ∷ [];
  primary_key = "id" ∷ [];
  unique_constraints =
      ("uq_runtime_database_current_db_identifier_datname", "db_identifier" ∷ "datname" ∷ []) ∷ [];
  foreign_keys = [];
}

abbrev pub upgrade_of_create_query_metric_snapshots : List Operation
upgrade_of_create_query_metric_snapshots =
    create_table query_metric_snapshots
    ∷ create_index (
        index "ix_query_metric_snapshots_db_identifier_captured_at" "query_metric_snapshots"
          ("db_identifier" ∷ "captured_at" ∷ []))
    ∷ create_index (
        index "ix_query_metric_snapshots_queryid_captured_at" "query_metric_snapshots"
          ("queryid" ∷ "captured_at" ∷ []))
    ∷ []

abbrev pub upgrade_of_add_runtime_storage_tables : List Operation
upgrade_of_add_runtime_storage_tables =
    create_table runtime_snapshots
    ∷ create_index (
        index "ix_runtime_snapshots_db_identifier_captured_at" "runtime_snapshots"
          ("db_identifier" ∷ "captured_at" ∷ []))
    ∷ create_table runtime_database_snapshots
    ∷ create_index (
        index "ix_runtime_database_snapshots_runtime_snapshot_id_datname"
          "runtime_database_snapshots" ("runtime_snapshot_id" ∷ "datname" ∷ []))
    ∷ create_table runtime_current
    ∷ create_table runtime_database_current
    ∷ create_index (
        index "ix_runtime_database_current_db_identifier" "runtime_database_current"
          ("db_identifier" ∷ []))
    ∷ []

abbrev pub upgrade_of_upgrade_query_metric_counters_to_bigint : List Operation
upgrade_of_upgrade_query_metric_counters_to_bigint =
    alter_column "query_metric_snapshots" "calls" integer big_integer
    ∷ alter_column "query_metric_snapshots" "rows" integer big_integer
    ∷ alter_column "query_metric_snapshots" "shared_blks_hit" integer big_integer
    ∷ alter_column "query_metric_snapshots" "shared_blks_read" integer big_integer
    ∷ alter_column "query_metric_snapshots" "shared_blks_dirtied" integer big_integer
    ∷ alter_column "query_metric_snapshots" "shared_blks_written" integer big_integer
    ∷ []

abbrev pub downgrade_of_create_query_metric_snapshots : List Operation
downgrade_of_create_query_metric_snapshots =
    drop_index "ix_query_metric_snapshots_queryid_captured_at" "query_metric_snapshots"
    ∷ drop_index "ix_query_metric_snapshots_db_identifier_captured_at" "query_metric_snapshots"
    ∷ drop_table "query_metric_snapshots"
    ∷ []

abbrev pub downgrade_of_add_runtime_storage_tables : List Operation
downgrade_of_add_runtime_storage_tables =
    drop_index "ix_runtime_database_current_db_identifier" "runtime_database_current"
    ∷ drop_table "runtime_database_current"
    ∷ drop_table "runtime_current"
    ∷ drop_index "ix_runtime_database_snapshots_runtime_snapshot_id_datname"
        "runtime_database_snapshots"
    ∷ drop_table "runtime_database_snapshots"
    ∷ drop_index "ix_runtime_snapshots_db_identifier_captured_at" "runtime_snapshots"
    ∷ drop_table "runtime_snapshots"
    ∷ []

abbrev pub downgrade_of_upgrade_query_metric_counters_to_bigint : List Operation
downgrade_of_upgrade_query_metric_counters_to_bigint =
    alter_column "query_metric_snapshots" "shared_blks_written" big_integer integer
    ∷ alter_column "query_metric_snapshots" "shared_blks_dirtied" big_integer integer
    ∷ alter_column "query_metric_snapshots" "shared_blks_read" big_integer integer
    ∷ alter_column "query_metric_snapshots" "shared_blks_hit" big_integer integer
    ∷ alter_column "query_metric_snapshots" "rows" big_integer integer
    ∷ alter_column "query_metric_snapshots" "calls" big_integer integer
    ∷ []

pub data Revision : Type 0 where
  create_query_metric_snapshots add_runtime_storage_tables : Revision
  upgrade_query_metric_counters_to_bigint : Revision

-- `down_revision`
unfoldable pub down_revision : Revision → Option Revision
down_revision create_query_metric_snapshots = none
down_revision add_runtime_storage_tables = some create_query_metric_snapshots
down_revision upgrade_query_metric_counters_to_bigint = some add_runtime_storage_tables

unfoldable pub upgrade : Revision → List Operation
upgrade create_query_metric_snapshots = upgrade_of_create_query_metric_snapshots
upgrade add_runtime_storage_tables = upgrade_of_add_runtime_storage_tables
upgrade upgrade_query_metric_counters_to_bigint = upgrade_of_upgrade_query_metric_counters_to_bigint

unfoldable pub downgrade : Revision → List Operation
downgrade create_query_metric_snapshots = downgrade_of_create_query_metric_snapshots
downgrade add_runtime_storage_tables = downgrade_of_add_runtime_storage_tables
downgrade upgrade_query_metric_counters_to_bigint =
    downgrade_of_upgrade_query_metric_counters_to_bigint
