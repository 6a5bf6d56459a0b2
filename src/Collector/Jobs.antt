-- ===== src/Collector/Jobs.antt =====
-- The jobs of collector/scheduler.py: collect within a time limit, then write in one unit of work.
pub mod Outcomes
use pg_monitor.Prelude.{ℕ, String, Bool, if◌then◌else◌}
use pg_monitor.Exn.{
  Result, ok, err, cancelled_error, timeout_error, is_collector_error, is_storage_error,
  is_timeout_error,
}
use pg_monitor.Collector.Models.{Objects, FloatObjects}
use pg_monitor.Collector.Context.{
  Profile, runtime, queries, Context, log_event, collector_job_failed,
  collector_snapshot_write_failed, collector_job_timeout, collector_job_completed,
}
use pg_monitor.Collector.Service.{CollectorRepository, collect_runtime_once, collect_queries_once}
use pg_monitor.Storage.Session.{Session, Db}
use pg_monitor.Storage.Uow.{with_uow}
use pg_monitor.Storage.Queries.Write.{write_query_snapshot}
use pg_monitor.Storage.Runtime.Write.{write_runtime_snapshot}

-- What a job works on.
pub record World (F : Type 0) : Type 0 where
  pub context : Context
  pub session : Session F

-- `asyncio.wait_for(coroutine, timeout)`: when the time is up the coroutine is cancelled, and its
-- cancellation comes out as a TimeoutError.
unfoldable pub wait_for : {A : Type 0} → Bool → Result A → Result A
wait_for expired (ok a) = ok a
wait_for expired (err cancelled_error) = if expired then err timeout_error else err cancelled_error
wait_for expired (err e) = err e

module _ {F : Type 0} where
  log_in : World F → (Context → Context) → World F
  log_in w f = record w { context = f w.context }

  -- The `except` clauses, in their order, and the log entry behind them.
  unfoldable pub end_job : Profile → String → Result ℕ → World F → Result (Unit {0}) × World F
  unfolding log_in log_event
  end_job profile db (ok rows_written) w =
      (ok tt, log_in w (log_event (collector_job_completed profile db rows_written)))
  end_job profile db (err e) w =
      if is_collector_error e
      then (ok tt, log_in w (log_event (collector_job_failed profile)))
      else if is_storage_error e
      then (ok tt, log_in w (log_event (collector_snapshot_write_failed profile)))
      else if is_timeout_error e
      then (ok tt, log_in w (log_event (collector_job_timeout profile)))
      else (err e, w)

  -- `async with uow: write(snapshot)` for a snapshot that was collected.
  store_snapshot :
      {A : Type 0}
      → Profile
      → (A → String)
      → (A → Db F ℕ)
      → Result A
      → World F
      → Result (Unit {0}) × World F
  unfolding end_job with_uow
  store_snapshot profile db write (err e) w = end_job profile "" (err e) w
  store_snapshot profile db write (ok snapshot) w =
      let (written, s') = with_uow (write snapshot) w.session in
      end_job profile (db snapshot) written (record w { session = s' })

  unfoldable pub run_job :
      {A : Type 0}
      → Profile
      → (A → String)
      → (A → Db F ℕ)
      → Bool
      → (Context → Result A × Context)
      → World F
      → Result (Unit {0}) × World F
  unfolding store_snapshot wait_for
  run_job profile db write expired collect w =
      let (collected, c') = collect w.context in
      store_snapshot profile db write (wait_for expired collected) (record w { context = c' })

module _ {F V : Type 0} ⦃py : Objects V⦄ ⦃fp : FloatObjects F V⦄
    (repository : CollectorRepository V) where
  -- _run_runtime_job: `expired` says whether the time limit cancels the collection.
  unfoldable pub run_runtime_job : ℕ → String → Bool → World F → Result (Unit {0}) × World F
  unfolding run_job collect_runtime_once write_runtime_snapshot
  run_runtime_job now uuid expired =
      run_job runtime (λ r. r.db_identifier) write_runtime_snapshot expired
        (collect_runtime_once repository now uuid)

  -- _run_queries_job
  unfoldable pub run_queries_job : ℕ → String → Bool → World F → Result (Unit {0}) × World F
  unfolding run_job collect_queries_once write_query_snapshot
  run_queries_job now uuid expired =
      run_job queries (λ r. r.db_identifier) write_query_snapshot expired
        (collect_queries_once repository now uuid)
