-- ===== src/Metrics/Models.antt =====
-- metrics/runtime_models.py, and the numbers that the exporter writes. `float(n)`, the seconds of a timedelta in
-- microseconds and the text of a float are Python's.
use pg_monitor.Prelude.{ℕ, String, Option, List}
use pg_monitor.Prelude.Int.{ℤ}
use pg_monitor.Prelude.Text.{Text, newline, Lacks}

pub record RuntimeDatabaseMetrics : Type 0 where
  pub datid : ℤ
  pub datname : String
  pub numbackends : ℤ
  pub xact_commit : ℤ
  pub xact_rollback : ℤ
  pub blks_read : ℤ
  pub blks_hit : ℤ
  pub deadlocks : ℤ

pub record RuntimeMetricsState (F : Type 0) : Type 0 where
  pub captured_at : ℕ
  pub db_identifier : String
  pub active_connections : ℤ
  pub blocked_sessions : ℤ
  pub longest_tx_duration_s : Option F
  pub waiting_locks : ℤ
  pub granted_locks : ℤ
  pub database : List RuntimeDatabaseMetrics

pub record Numbers (F : Type 0) : Type 0 where
  pub float_of : ℤ → F
  pub total_seconds : ℤ → F
  pub float_text : F → Text
  pub float_text-Lacks : (x : F) → Lacks newline (float_text x)
