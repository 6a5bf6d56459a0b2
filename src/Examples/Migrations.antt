-- ===== src/Examples/Migrations.antt =====
-- Runs of the revisions of the schema.
use pg_monitor.Prelude.{◌≡◌, refl, some, true, [], ◌∷◌, ◌++◌}
use pg_monitor.Prelude.Dict.{has}
use pg_monitor.Migrations.Schema.{Schema, apply, run, integer}
use pg_monitor.Migrations.Revisions.{
  required, create_query_metric_snapshots, add_runtime_storage_tables,
  upgrade_query_metric_counters_to_bigint, upgrade, downgrade,
}
use pg_monitor.Migrations.Undo.{goes_through, downgrade-upgrade}
use pg_monitor.Migrations.Declared.{declared}

abbrev empty : Schema
empty = record { tables = []; indexes = [] }

-- The upgrades of all revisions lead to the schema that the code declares.
declared_by_head :
    run
      (upgrade create_query_metric_snapshots
        ++ upgrade add_runtime_storage_tables
        ++ upgrade upgrade_query_metric_counters_to_bigint)
      empty
    ≡ some declared
unfolding run upgrade
declared_by_head = refl

-- A database that has a table of its own.
abbrev occupied : Schema
occupied = record {
  tables =
      record {
        name = "alembic_version";
        columns = required "version" integer ∷ [];
        primary_key = "version" ∷ [];
        unique_constraints = [];
        foreign_keys = [];
      }
      ∷ [];
  indexes = [];
}

goes : goes_through (upgrade add_runtime_storage_tables) occupied ≡ true
unfolding goes_through upgrade apply has
goes = refl

downgrade-upgrade_example :
    (s : Schema) × (run (upgrade add_runtime_storage_tables) occupied ≡ some s)
    × (run (downgrade add_runtime_storage_tables) s ≡ some occupied)
downgrade-upgrade_example = downgrade-upgrade add_runtime_storage_tables occupied refl goes
