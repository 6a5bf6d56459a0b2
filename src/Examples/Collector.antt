-- ===== src/Examples/Collector.antt =====
-- Runs of the model of collector.
use Prim.Native.Nat.{ℕ, zero, suc}
use pg_monitor.Prelude.{
  ◌+◌, ◌<◌, Elem, arith, All, ◌≡◌, refl, ◌⊎◌, inl, inr, true, false, none, some, [], ◌∷◌, some, ◌↔◌,
}
use pg_monitor.Prelude.Int.{ℤ, pos}
use pg_monitor.Prelude.Floats.{ℤ_floats}
use pg_monitor.Exn.{
  cancelled_error, interface_error, ok, err, collector_connection_error, value_error,
  postgres_connection_error,
}
use pg_monitor.Collector.Provider.{build_db_identifier}
use pg_monitor.Prelude.Text.{codes, lstrip}
use pg_monitor.Prelude.Text.Decimal.{decimal}
use pg_monitor.Collector.Repository.{
  Pool, Formats, sql_ping, fetch_row, fetch_rows, ping, fetch_runtime_rows,
}
use pg_monitor.Collector.Repository.Reads.{NoPostgresError, reads-NoPostgresError}
use pg_monitor.Collector.Repository.Snapshot.{over_pool, load_runtime_rows-agrees}
use pg_monitor.Collector.Models.{
  Objects, FloatObjects, Row, statement_from_row, database_from_row, locks_from_row,
}
use pg_monitor.Collector.Models.Required.{
  IsThere, IfOk, statement_keys, database_keys, locks_keys, from_row-IsThere,
}
use pg_monitor.Collector.Context.{Context, runtime}
use pg_monitor.Collector.Service.{
  CollectorRepository, db_of, run_cycle, collect_runtime_once, collect_queries_once,
  load_runtime_rows,
}
use pg_monitor.Collector.Service.Cycle.{IsCycle, run_cycle-IsCycle}
use pg_monitor.Collector.Jobs.{World, wait_for, run_runtime_job, run_queries_job}
use pg_monitor.Collector.Jobs.Outcomes.{IsJob, jobs-IsJob}
use pg_monitor.Collector.Scheduler.{CollectorScheduler, start, shutdown}
use pg_monitor.Collector.Scheduler.Lifecycle.{made, started, stopped, InStep, Reaches-InStep}
use pg_monitor.Collector.Worker.{
  WorkerSettings, Attempt, WorkerState, collector_worker_started, try_start,
  build_and_start_scheduler_with_retry, run_worker,
}
use pg_monitor.Collector.Worker.Retry.{IsRetry, build_and_start_scheduler_with_retry-IsRetry}
use pg_monitor.Collector.Worker.Cleanup.{run_worker-closes}
use pg_monitor.Collector.Worker.Start.{run_worker-starts}
use pg_monitor.Storage.Queries.Write.{write_query_snapshot}
use pg_monitor.Storage.Runtime.Write.{write_runtime_snapshot}
use pg_monitor.Examples.Data.{by_count, calm_session}

-- The objects of the driver: whole numbers.
instance abbrev number_objects : Objects ℤ
number_objects = record { int_of = λ v. ok v; str_of = λ v. ok "7"; truth_of = λ v. true }

instance abbrev number_floats : FloatObjects ℤ ℤ
number_floats = record { float_of = λ v. ok v }

abbrev quiet : Context
quiet = record { poll_cycle_id = none; log = [] }

abbrev world : World ℤ
world = record { context = quiet; session = calm_session }

abbrev one_statement : Row ℤ
one_statement =
    ("queryid", some (pos 7))
    ∷ ("dbid", some (pos 16_384))
    ∷ ("userid", some (pos 10))
    ∷ ("query", some (pos 7))
    ∷ ("calls", some (pos 4))
    ∷ ("total_exec_time_ms", some (pos 12))
    ∷ ("mean_exec_time_ms", some (pos 3))
    ∷ ("rows", some (pos 4))
    ∷ ("shared_blks_hit", some (pos 1))
    ∷ ("shared_blks_read", some (pos 1))
    ∷ ("shared_blks_dirtied", some (pos 0))
    ∷ ("shared_blks_written", some (pos 0))
    ∷ []

-- A server with statements and no readable activity.
abbrev answers : CollectorRepository ℤ
answers = record {
  fetch_db_identifier = ok "main";
  is_pg_stat_statements_available = ok true;
  fetch_activity_row = ok [];
  fetch_locks_row = ok [];
  fetch_database_rows = ok [];
  fetch_statement_rows = ok (one_statement ∷ []);
  fetch_runtime_rows = none;
}

run_cycle-IsCycle_example :
    let out = run_cycle {A = ℕ} runtime "id" (ok "main") (λ db. err value_error) quiet in
    IsCycle runtime "id" (db_of (ok "main")) (err value_error) out.0 quiet out.1
run_cycle-IsCycle_example = run_cycle-IsCycle runtime "id" (ok "main") (λ db. err value_error) quiet

jobs-IsJob_example :
    (let out = run_runtime_job answers 300 "id" false world in
      IsJob write_runtime_snapshot
        (wait_for false (collect_runtime_once answers 300 "id" quiet).0)
        world
        out.0
        out.1)
    × (let out = run_queries_job answers 300 "id" false world in
        IsJob write_query_snapshot
          (wait_for false (collect_queries_once answers 300 "id" quiet).0)
          world
          out.0
          out.1)
jobs-IsJob_example = jobs-IsJob answers 300 "id" false world

abbrev fresh : CollectorScheduler
fresh = record {
  settings = record {
    runtime_poll_interval_seconds = pos 15;
    query_poll_interval_seconds = pos 60;
  };
  started = false;
  calls = [];
}

Reaches-InStep_example : let up = start (ok tt) fresh world in InStep (shutdown up.1 up.2).0
Reaches-InStep_example = Reaches-InStep (stopped (started (ok tt) (made fresh.settings world)))

-- The first attempt finds no server, the second succeeds.
abbrev second_works : ℕ → Attempt
second_works zero = record {
  make_container = ok tt;
  get_scheduler = ok tt;
  start_scheduler = err collector_connection_error;
}
second_works (suc zero) = record {
  make_container = ok tt;
  get_scheduler = ok tt;
  start_scheduler = err collector_connection_error;
}
second_works (suc (suc n)) = record {
  make_container = ok tt;
  get_scheduler = ok tt;
  start_scheduler = ok tt;
}

abbrev three_attempts : WorkerSettings ℤ
three_attempts = record {
  collector_scheduler_enabled = true;
  collector_startup_retry_attempts = pos 3;
  collector_startup_retry_base_delay_seconds = pos 1;
  collector_startup_retry_max_delay_seconds = pos 10;
}

abbrev idle_worker : WorkerState ℤ
idle_worker = record { open_containers = 0; running = false; slept = []; log = [] }

build_and_start_scheduler_with_retry-IsRetry_example :
    let out = build_and_start_scheduler_with_retry three_attempts second_works idle_worker in
    IsRetry second_works (pos 10) 2 1 (pos 1) idle_worker out.0 out.1
build_and_start_scheduler_with_retry-IsRetry_example =
    build_and_start_scheduler_with_retry-IsRetry second_works (pos 10) three_attempts 2 idle_worker
      refl refl

second_works_expected :
    (i : ℕ)
    → ((try_start (second_works i)).result ≡ ok tt)
      ⊎ ((try_start (second_works i)).result ≡ err collector_connection_error)
unfolding try_start
second_works_expected zero = inr refl
second_works_expected (suc zero) = inr refl
second_works_expected (suc (suc n)) = inl refl

run_worker-closes_example :
    (run_worker three_attempts second_works (ok tt) idle_worker).1.open_containers ≡ 0
run_worker-closes_example =
    run_worker-closes second_works second_works_expected three_attempts (ok tt) idle_worker

first_fails :
    (i : ℕ) → i < 1 → (try_start (second_works (i + 1))).result ≡ err collector_connection_error
unfolding try_start
first_fails zero h = refl
first_fails (suc i) h = absurd (omega arith)

second_starts : (try_start (second_works (1 + 1))).result ≡ ok tt
unfolding try_start
second_starts = refl

run_worker-starts_example :
    let out = run_worker three_attempts second_works (err cancelled_error) idle_worker in
    (out.0 ≡ err cancelled_error) × Elem collector_worker_started out.1.log
run_worker-starts_example =
    run_worker-starts three_attempts second_works 1 (err cancelled_error) idle_worker refl
      (omega arith) first_fails second_starts

-- A pool whose connection breaks in the reads of one row.
abbrev broken : Pool ℤ
broken = record {
  acquire = ok tt;
  fetchrow = λ query. err postgres_connection_error;
  fetch = λ query. ok [];
  begin_transaction = ok tt;
  end_transaction = ok tt;
}

reads-NoPostgresError_example :
    NoPostgresError (fetch_row broken sql_ping)
    × NoPostgresError (fetch_rows broken sql_ping)
    × NoPostgresError (ping broken)
    × NoPostgresError (fetch_runtime_rows broken)
reads-NoPostgresError_example = reads-NoPostgresError broken sql_ping

-- asyncpg's InterfaceError is no PostgresError.
interface_error_passes :
    fetch_row (record broken { acquire = err interface_error }) sql_ping ≡ err interface_error
unfolding fetch_row
interface_error_passes = refl

abbrev working : Pool ℤ
working = record broken { fetchrow = λ query. ok (some []) }

instance abbrev short_format : Formats
short_format = record { db_identifier_text = λ db host port. db }

load_runtime_rows-agrees_example :
    (load_runtime_rows (over_pool working (some (fetch_runtime_rows working))) ≡ ok ([], [], []))
    ↔ (load_runtime_rows (over_pool working none) ≡ ok ([], [], []))
load_runtime_rows-agrees_example = load_runtime_rows-agrees working refl refl refl ([], [], [])

from_row-IsThere_example :
    IfOk (statement_from_row {F = ℤ} one_statement) (All (IsThere one_statement) statement_keys)
    × IfOk (database_from_row one_statement) (All (IsThere one_statement) database_keys)
    × IfOk (locks_from_row one_statement) (All (IsThere one_statement) locks_keys)
from_row-IsThere_example = from_row-IsThere ℤ one_statement

named_by_dsn :
    build_db_identifier
      (record { url_path = codes "/shop"; hostname = some (codes "db"); port = none })
    ≡ codes "shop@db:5432"
unfolding build_db_identifier lstrip decimal
named_by_dsn = refl
