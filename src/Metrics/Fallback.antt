-- ===== src/Metrics/Fallback.antt =====
-- _render_fallback of metrics/prometheus_exporter.py, the text without the client library.
pub mod Lines
use pg_monitor.Prelude.{ℕ, String, Option, List, [], ◌∷◌, ◌++◌, concat}
use pg_monitor.Prelude.Int.{ℤ}
use pg_monitor.Prelude.Floats.{Floats}
use pg_monitor.Prelude.Text.{Text, codes}
use pg_monitor.Prelude.Text.Decimal.{int_text}
use pg_monitor.Metrics.Models.{RuntimeDatabaseMetrics, RuntimeMetricsState, Numbers}
use pg_monitor.Metrics.Escape.{escape_label}
use pg_monitor.Metrics.Exporter.{age_seconds, or_zero_f, end_lines}

-- `f'db_identifier="{db_identifier}"'` and `f'{labels},datname="{datname}"'`
unfoldable pub server_labels : String → Text
unfolding escape_label
server_labels db_identifier =
    concat (codes "db_identifier=\"" ∷ escape_label (codes db_identifier) ∷ codes "\"" ∷ [])

unfoldable pub database_labels : Text → String → Text
unfolding escape_label
database_labels labels datname =
    concat (labels ∷ codes ",datname=\"" ∷ escape_label (codes datname) ∷ codes "\"" ∷ [])

-- `f"# TYPE {name} gauge"` and `f"{name}{{{labels}}} {value}"`
unfoldable pub sample_lines : String → Text → Text → List Text
sample_lines name labels value =
    concat (codes "# TYPE " ∷ codes name ∷ codes " gauge" ∷ [])
    ∷ concat (codes name ∷ codes "{" ∷ labels ∷ codes "} " ∷ value ∷ [])
    ∷ []

-- The lines of several gauges with the same labels, given by their names and values.
unfoldable pub gauge_lines : Text → List (String × Text) → List Text
unfolding sample_lines
gauge_lines labels [] = []
gauge_lines labels ((name, value) ∷ rest) =
    sample_lines name labels value ++ gauge_lines labels rest

unfoldable pub database_texts : RuntimeDatabaseMetrics → List (String × Text)
unfolding int_text
database_texts db =
    ("pg_monitor_runtime_db_numbackends", int_text db.numbackends)
    ∷ ("pg_monitor_runtime_db_xact_commit", int_text db.xact_commit)
    ∷ ("pg_monitor_runtime_db_xact_rollback", int_text db.xact_rollback)
    ∷ ("pg_monitor_runtime_db_blks_read", int_text db.blks_read)
    ∷ ("pg_monitor_runtime_db_blks_hit", int_text db.blks_hit)
    ∷ ("pg_monitor_runtime_db_deadlocks", int_text db.deadlocks)
    ∷ []

unfoldable pub database_lines : Text → RuntimeDatabaseMetrics → List Text
unfolding database_labels gauge_lines database_texts
database_lines labels db = gauge_lines (database_labels labels db.datname) (database_texts db)

unfoldable pub databases_lines : Text → List RuntimeDatabaseMetrics → List Text
unfolding database_lines
databases_lines labels [] = []
databases_lines labels (db ∷ rest) = database_lines labels db ++ databases_lines labels rest

module _ {F : Type 0} ⦃f : Floats F⦄ ⦃n : Numbers F⦄ where
  unfoldable pub server_texts : ℕ → RuntimeMetricsState F → List (String × Text)
  unfolding int_text
  server_texts observed_at state =
      ("pg_monitor_runtime_active_connections", int_text state.active_connections)
      ∷ ("pg_monitor_runtime_blocked_sessions", int_text state.blocked_sessions)
      ∷ (
        "pg_monitor_runtime_longest_tx_duration_seconds",
        n.float_text (or_zero_f state.longest_tx_duration_s),
      )
      ∷ ("pg_monitor_runtime_waiting_locks", int_text state.waiting_locks)
      ∷ ("pg_monitor_runtime_granted_locks", int_text state.granted_locks)
      ∷ ("pg_monitor_runtime_snapshot_age_seconds", n.float_text (age_seconds observed_at state))
      ∷ []

  unfoldable pub server_lines : ℕ → RuntimeMetricsState F → List Text
  unfolding server_labels gauge_lines server_texts
  server_lines observed_at state =
      gauge_lines (server_labels state.db_identifier) (server_texts observed_at state)

  unfoldable pub fallback_lines : ℕ → List (RuntimeMetricsState F) → List Text
  unfolding server_lines databases_lines
  fallback_lines observed_at [] = []
  fallback_lines observed_at (state ∷ rest) = concat (
      server_lines observed_at state
      ∷ databases_lines (server_labels state.db_identifier) state.database
      ∷ fallback_lines observed_at rest
      ∷ [])

  unfoldable pub render_fallback : List (RuntimeMetricsState F) → ℕ → Text
  unfolding fallback_lines end_lines
  render_fallback states observed_at = end_lines (fallback_lines observed_at states)
