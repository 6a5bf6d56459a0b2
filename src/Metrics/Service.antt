-- ===== src/Metrics/Service.antt =====
-- metrics/runtime_service.py: RuntimeMetricsService over the unit of work of storage.
pub mod Current
use pg_monitor.Prelude.{String, Option, none, some, List, [], ◌∷◌, map}
use pg_monitor.Storage.Orm.{RuntimeDatabaseState, RuntimeState}
use pg_monitor.Storage.Session.{Db, pure, ◌>>=◌}
use pg_monitor.Storage.Uow.{with_uow}
use pg_monitor.Storage.Queries.Latest.{Collation}
use pg_monitor.Storage.Runtime.Read.{get_runtime_current, list_runtime_current}
use pg_monitor.Metrics.Models.{RuntimeDatabaseMetrics, RuntimeMetricsState}

unfoldable pub to_database_metrics : RuntimeDatabaseState → RuntimeDatabaseMetrics
to_database_metrics item = record {
  datid = item.datid;
  datname = item.datname;
  numbackends = item.numbackends;
  xact_commit = item.xact_commit;
  xact_rollback = item.xact_rollback;
  blks_read = item.blks_read;
  blks_hit = item.blks_hit;
  deadlocks = item.deadlocks;
}

module _ {F : Type 0} where
  unfoldable pub to_runtime_metrics_state : RuntimeState F → RuntimeMetricsState F
  unfolding to_database_metrics
  to_runtime_metrics_state state = record {
    captured_at = state.captured_at;
    db_identifier = state.db_identifier;
    active_connections = state.active_connections;
    blocked_sessions = state.blocked_sessions;
    longest_tx_duration_s = state.longest_tx_duration_s;
    waiting_locks = state.waiting_locks;
    granted_locks = state.granted_locks;
    database = map to_database_metrics state.database;
  }

  -- `[] if state is None else [state]`
  unfoldable pub as_list : Option (RuntimeState F) → List (RuntimeState F)
  as_list none = []
  as_list (some state) = state ∷ []

module _ {F : Type 0} ⦃c : Collation⦄ where
  unfoldable pub read_states : Option String → Db F (List (RuntimeState F))
  unfolding as_list
  read_states none = list_runtime_current
  read_states (some db_identifier) = do
    state ← get_runtime_current db_identifier
    pure (as_list state)

  unfoldable pub get_metrics_state : Option String → Db F (List (RuntimeMetricsState F))
  unfolding read_states
  get_metrics_state db_identifier = do
    states ← with_uow (read_states db_identifier)
    pure (map to_runtime_metrics_state states)
