-- ===== src/Collector/Worker.antt =====
-- collector/worker.py: the worker starts its scheduler with retries, waits for the stop event, and cleans up.
pub mod Attempts
pub mod Retry
pub mod Cleanup
pub mod Start
use Prim.Native.Nat.{ℕ, zero, suc}
use pg_monitor.Prelude.{◌+◌, ◌-◌, Bool, true, false, List, [], ◌∷◌, ◌++◌, leb, if◌then◌else◌}
use pg_monitor.Prelude.Int.{ℤ, pos, negsuc}
use pg_monitor.Prelude.Floats.{Floats, min_f}
use pg_monitor.Exn.{Exn, Result, ok, err, collector_connection_error, runtime_error, ◌>>◌}

-- The fields of CollectorSettings that the worker reads.
pub record WorkerSettings (F : Type 0) : Type 0 where
  pub collector_scheduler_enabled : Bool
  pub collector_startup_retry_attempts : ℤ
  pub collector_startup_retry_base_delay_seconds : F
  pub collector_startup_retry_max_delay_seconds : F

-- What one attempt to start meets: `make_async_container`, `container.get(CollectorScheduler)` and
-- `scheduler.start()`.
pub record Attempt : Type 0 where
  pub make_container : Result (Unit {0})
  pub get_scheduler : Result (Unit {0})
  pub start_scheduler : Result (Unit {0})

pub data WorkerEvent (F : Type 0) : Type 0 where
  collector_worker_disabled collector_worker_started collector_worker_stopped : WorkerEvent F
  collector_scheduler_startup_failed : WorkerEvent F
  -- with the number of the attempt and the delay
  collector_scheduler_start_retry : ℕ → F → WorkerEvent F

pub record WorkerState (F : Type 0) : Type 0 where
  -- The containers that were made and not closed.
  pub open_containers : ℕ
  -- Whether a started scheduler is running.
  pub running : Bool
  pub slept : List F
  pub log : List (WorkerEvent F)

-- One attempt, with the number of containers that it has made.
pub record Outcome : Type 0 where
  pub result : Result (Unit {0})
  pub made : ℕ

unfoldable pub try_start : Attempt → Outcome
try_start a = elim a.make_container [
  | err e ↦ record { result = err e; made = 0 }
  | ok made ↦ record { result = a.get_scheduler >> a.start_scheduler; made = 1 }
]

-- `except CollectorConnectionError`
unfoldable pub is_connection_error : Exn → Bool
is_connection_error collector_connection_error = true
is_connection_error _ = false

-- `attempt >= max_attempts`
unfoldable pub is_last : ℕ → ℤ → Bool
is_last attempt (pos n) = leb n attempt
is_last attempt (negsuc n) = true

-- How many times `for attempt in range(1, max_attempts + 1)` goes round.
abbrev pub rounds_of : ℤ → ℕ
rounds_of (pos n) = n
rounds_of (negsuc n) = 0

module _ {F : Type 0} where
  unfoldable pub log_worker : WorkerEvent F → WorkerState F → WorkerState F
  log_worker e s = record s { log = s.log ++ e ∷ [] }

  unfoldable pub sleep : F → WorkerState F → WorkerState F
  sleep delay s = record s { slept = s.slept ++ delay ∷ [] }

  -- The end of an attempt: `rest` is what the later attempts give. The container of an attempt that ended
  -- with a CollectorConnectionError is closed.
  unfoldable pub after_attempt :
      Bool
      → Outcome
      → WorkerState F
      → Result (Unit {0}) × WorkerState F
      → Result (Unit {0}) × WorkerState F
  unfolding is_connection_error log_worker
  after_attempt last o s rest = elim o.result [
    | ok started ↦
        (ok tt, record s { open_containers = s.open_containers + o.made; running = true })
    | err e ↦
        if is_connection_error e
        then (if last then (err e, log_worker collector_scheduler_startup_failed s) else rest)
        else (err e, record s { open_containers = s.open_containers + o.made })
  ]

module _ {F : Type 0} ⦃f : Floats F⦄ (attempts : ℕ → Attempt) (max_attempts : ℤ)
    (max_delay : F) where
  -- `rounds` are the attempts that are left, `attempt` is the number of this one.
  unfoldable pub retry_loop :
      (rounds attempt : ℕ) (delay : F) → WorkerState F → Result (Unit {0}) × WorkerState F
  unfolding try_start after_attempt log_worker sleep is_last
  retry_loop zero attempt delay s = (err runtime_error, s)
  retry_loop (suc rounds) attempt delay s =
      let rest =
        retry_loop rounds (suc attempt) (min_f (f.double delay) max_delay)
          (sleep delay (log_worker (collector_scheduler_start_retry attempt delay) s)) in
      after_attempt (is_last attempt max_attempts) (try_start (attempts attempt)) s rest

module _ {F : Type 0} ⦃f : Floats F⦄ where
  unfoldable pub build_and_start_scheduler_with_retry :
      WorkerSettings F → (ℕ → Attempt) → WorkerState F → Result (Unit {0}) × WorkerState F
  unfolding retry_loop
  build_and_start_scheduler_with_retry settings attempts =
      retry_loop attempts settings.collector_startup_retry_attempts
        settings.collector_startup_retry_max_delay_seconds
        (rounds_of settings.collector_startup_retry_attempts) 1
        settings.collector_startup_retry_base_delay_seconds

  -- The `finally` of `run_worker`: only what the start has returned is shut down and closed.
  finally_stop : Result (Unit {0}) → WorkerState F → WorkerState F
  unfolding log_worker
  finally_stop (ok started) s =
      log_worker collector_worker_stopped
        (record s { running = false; open_containers = s.open_containers - 1 })
  finally_stop (err e) s = log_worker collector_worker_stopped s

  -- `stopped` is how the wait for the stop event ends.
  after_start :
      Result (Unit {0}) → Result (Unit {0}) × WorkerState F → Result (Unit {0}) × WorkerState F
  unfolding finally_stop
  after_start stopped (ok started, s) =
      (stopped, finally_stop (ok started) (log_worker collector_worker_started s))
  after_start stopped (err e, s) = (err e, finally_stop (err e) s)

  unfoldable pub run_worker :
      WorkerSettings F
      → (ℕ → Attempt)
      → Result (Unit {0})
      → WorkerState F
      → Result (Unit {0}) × WorkerState F
  unfolding build_and_start_scheduler_with_retry after_start log_worker
  run_worker settings attempts stopped s =
      let started = build_and_start_scheduler_with_retry settings attempts s in
      if settings.collector_scheduler_enabled
      then after_start stopped started
      else (ok tt, log_worker collector_worker_disabled s)
