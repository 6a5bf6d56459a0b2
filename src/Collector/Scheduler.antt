-- ===== src/Collector/Scheduler.antt =====
-- CollectorScheduler of collector/scheduler.py: start, shutdown and the check of dependencies. APScheduler's
-- scheduler is foreign code: the calls that reach it are recorded.
pub mod Lifecycle
use pg_monitor.Prelude.{String, Bool, true, false, List, [], ◌∷◌, ◌++◌, if◌then◌else◌}
use pg_monitor.Prelude.Int.{ℤ}
use pg_monitor.Exn.{Result, ok, err, collector_connection_error, is_storage_error}
use pg_monitor.Collector.Context.{
  log_event, collector_scheduler_started, collector_scheduler_stopped,
}
use pg_monitor.Collector.Jobs.{World}
use pg_monitor.Storage.Uow.{with_uow}
use pg_monitor.Storage.Queries.Latest.{Collation}
use pg_monitor.Storage.Runtime.Read.{list_runtime_current}

-- The fields of CollectorSettings that the scheduler reads.
pub record Intervals : Type 0 where
  pub runtime_poll_interval_seconds : ℤ
  pub query_poll_interval_seconds : ℤ

-- A call of APScheduler. The jobs have `trigger="interval"`, `max_instances=1`, `coalesce=True`, the same
-- number of seconds for `misfire_grace_time`, and start now.
pub data SchedulerCall : Type 0 where
  add_job : String → ℤ → SchedulerCall
  start_scheduler : SchedulerCall
  -- `shutdown(wait=True)`
  shutdown_scheduler : SchedulerCall
  remove_all_jobs : SchedulerCall

pub record CollectorScheduler : Type 0 where
  pub settings : Intervals
  pub started : Bool
  pub calls : List SchedulerCall

abbrev pub call_all : List SchedulerCall → CollectorScheduler → CollectorScheduler
call_all calls self = record self { calls = self.calls ++ calls }

abbrev pub start_calls : Intervals → List SchedulerCall
start_calls settings =
    add_job "collector_runtime" settings.runtime_poll_interval_seconds
    ∷ add_job "collector_queries" settings.query_poll_interval_seconds
    ∷ start_scheduler
    ∷ []

-- `except StorageError as exc: raise CollectorConnectionError(…) from exc`
abbrev pub as_connection_error : {A : Type 0} → Result A → Result (Unit {0})
as_connection_error (ok a) = ok tt
as_connection_error (err e) = if is_storage_error e then err collector_connection_error else err e

module _ {F : Type 0} ⦃c : Collation⦄ where
  check_storage : World F → Result (Unit {0}) × World F
  unfolding with_uow list_runtime_current
  check_storage w =
      let (r, s') = with_uow list_runtime_current w.session in
      (as_connection_error r, record w { session = s' })

  -- _preflight_dependencies; `ping` is the answer of the repository's `ping`.
  unfoldable pub preflight_dependencies : Result (Unit {0}) → World F → Result (Unit {0}) × World F
  unfolding check_storage
  preflight_dependencies (ok tt) w = check_storage w
  preflight_dependencies (err e) w = (err e, w)

  finish_start :
      CollectorScheduler
      → Result (Unit {0}) × World F
      → Result (Unit {0}) × CollectorScheduler × World F
  unfolding log_event
  finish_start self (err e, w) = (err e, self, w)
  finish_start self (ok tt, w) = (
    ok tt,
    record (call_all (start_calls self.settings) self) { started = true },
    record w { context = log_event collector_scheduler_started w.context },
  )

  unfoldable pub start :
      Result (Unit {0})
      → CollectorScheduler
      → World F
      → Result (Unit {0}) × CollectorScheduler × World F
  unfolding preflight_dependencies finish_start
  start ping self w =
      if self.started then (ok tt, self, w) else finish_start self (preflight_dependencies ping w)

module _ {F : Type 0} where
  unfoldable pub shutdown : CollectorScheduler → World F → CollectorScheduler × World F
  unfolding log_event
  shutdown self w =
      if self.started
      then (
        record (call_all (shutdown_scheduler ∷ remove_all_jobs ∷ []) self) { started = false },
        record w { context = log_event collector_scheduler_stopped w.context },
      )
      else (self, w)
