-- ===== src/Collector/Service.antt =====
-- collector/service.py: one cycle of collection. The clock and the fresh identifier are arguments; durations
-- are not modelled.
pub mod Cycle
use pg_monitor.Prelude.{ℕ, String, Bool, true, false, Option, none, some, List, if◌then◌else◌}
use pg_monitor.Exn.{
  Result, ok, err, collector_query_error, collector_prerequisite_error, is_collector_error,
  is_exception, ◌>>=◌,
}
use pg_monitor.Collector.Models.{
  Objects, FloatObjects, Row, RuntimeSnapshotResult, QuerySnapshotResult, activity_from_row,
  locks_from_row, database_from_row, statement_from_row, map_rows,
}
use pg_monitor.Collector.Context.{
  Profile, runtime, queries, Context, collector_cycle_started, collector_cycle_succeeded,
  collector_cycle_failed, log_event, set_poll_cycle_id, reset_poll_cycle_id,
}

-- What the repository answers in this cycle; `fetch_runtime_rows` is optional.
pub record CollectorRepository (V : Type 0) : Type 0 where
  pub fetch_db_identifier : Result String
  pub is_pg_stat_statements_available : Result Bool
  pub fetch_activity_row : Result (Row V)
  pub fetch_locks_row : Result (Row V)
  pub fetch_database_rows : Result (List (Row V))
  pub fetch_statement_rows : Result (List (Row V))
  pub fetch_runtime_rows : Option (Result (Row V × Row V × List (Row V)))

module _ {V : Type 0} where
  load_runtime_by :
      CollectorRepository V
      → Option (Result (Row V × Row V × List (Row V)))
      → Result (Row V × Row V × List (Row V))
  load_runtime_by repository (some rows) = rows
  load_runtime_by repository none = do
    activity_row ← repository.fetch_activity_row
    locks_row ← repository.fetch_locks_row
    database_rows ← repository.fetch_database_rows
    ok (activity_row, locks_row, database_rows)

  unfoldable pub load_runtime_rows : CollectorRepository V → Result (Row V × Row V × List (Row V))
  unfolding load_runtime_by
  load_runtime_rows repository = load_runtime_by repository repository.fetch_runtime_rows

-- The handlers and the `finally` of a cycle whose body ended with `r`, when `db_identifier` was `db`.
end_cycle :
    {A : Type 0} → Profile → Option String → Result A → String → Context → Result A × Context
end_cycle profile token (ok a) db c =
    (ok a, reset_poll_cycle_id token (log_event (collector_cycle_succeeded profile db) c))
end_cycle profile token (err e) db c =
    if is_collector_error e
    then (err e, reset_poll_cycle_id token (log_event (collector_cycle_failed profile db e) c))
    else if is_exception e
    then (
      err collector_query_error,
      reset_poll_cycle_id token
          (log_event (collector_cycle_failed profile db collector_query_error) c),
    )
    else (err e, reset_poll_cycle_id token c)

-- The variable `db_identifier`, once the body has ended.
unfoldable pub db_of : Result String → String
db_of (ok db) = db
db_of (err e) = "unknown"

-- Both cycles: set the identifier, log the start, run the body, handle its end.
unfoldable pub run_cycle :
    {A : Type 0}
    → Profile
    → String
    → Result String
    → (String → Result A)
    → Context
    → Result A × Context
unfolding end_cycle db_of log_event set_poll_cycle_id reset_poll_cycle_id
run_cycle profile uuid identifier body c =
    let (token, c') = set_poll_cycle_id (some uuid) c in
    end_cycle profile token (identifier >>= body) (db_of identifier)
      (log_event (collector_cycle_started profile) c')

require_available : Bool → Result (Unit {0})
require_available true = ok tt
require_available false = err collector_prerequisite_error

module _ {F V : Type 0} ⦃py : Objects V⦄ ⦃fp : FloatObjects F V⦄
    (repository : CollectorRepository V) where
  unfoldable pub runtime_body : ℕ → String → Result (RuntimeSnapshotResult F)
  unfolding load_runtime_rows activity_from_row locks_from_row database_from_row map_rows
  runtime_body captured_at db_identifier = do
    (activity_row, locks_row, database_rows) ← load_runtime_rows repository
    activity ← activity_from_row activity_row
    locks ← locks_from_row locks_row
    database ← map_rows database_from_row database_rows
    ok (record {
      captured_at = captured_at;
      db_identifier = db_identifier;
      activity = activity;
      locks = locks;
      database = database;
    })

  unfoldable pub collect_runtime_once :
      ℕ → String → Context → Result (RuntimeSnapshotResult F) × Context
  unfolding run_cycle runtime_body
  collect_runtime_once now uuid =
      run_cycle runtime uuid repository.fetch_db_identifier (runtime_body now)

  unfoldable pub queries_body : ℕ → String → Result (QuerySnapshotResult F)
  unfolding require_available statement_from_row map_rows
  queries_body captured_at db_identifier = do
    is_available ← repository.is_pg_stat_statements_available
    checked ← require_available is_available
    statement_rows ← repository.fetch_statement_rows
    statements ← map_rows statement_from_row statement_rows
    ok (record {
      captured_at = captured_at;
      db_identifier = db_identifier;
      statements = statements;
    })

  unfoldable pub collect_queries_once :
      ℕ → String → Context → Result (QuerySnapshotResult F) × Context
  unfolding run_cycle queries_body
  collect_queries_once now uuid =
      run_cycle queries uuid repository.fetch_db_identifier (queries_body now)
