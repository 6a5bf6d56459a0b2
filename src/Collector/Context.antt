-- ===== src/Collector/Context.antt =====
-- The state of a task of the collector that is not the database: the context variable `poll_cycle_id`
-- (logging/context.py) and what was logged. An entry has the identifier that the formatter reads from the
-- context when the entry is made.
use pg_monitor.Prelude.{ℕ, String, Option, List, [], ◌∷◌, ◌++◌}
use pg_monitor.Exn.{Exn}

pub data Profile : Type 0 where
  runtime queries : Profile

pub data Event : Type 0 where
  collector_cycle_started : Profile → Event
  collector_cycle_succeeded : Profile → String → Event
  -- with `db_identifier` and the class named in `error_type`
  collector_cycle_failed : Profile → String → Exn → Event
  collector_job_failed collector_snapshot_write_failed collector_job_timeout : Profile → Event
  -- with `db_identifier` and `rows_written`
  collector_job_completed : Profile → String → ℕ → Event
  collector_scheduler_started collector_scheduler_stopped : Event

pub record Entry : Type 0 where
  pub event : Event
  pub poll_cycle_id : Option String

pub record Context : Type 0 where
  pub poll_cycle_id : Option String
  pub log : List Entry

unfoldable pub log_event : Event → Context → Context
log_event e c = record c {
  log = c.log ++ record { event = e; poll_cycle_id = c.poll_cycle_id } ∷ [];
}

-- `set_poll_cycle_id` returns a token that holds the old value; `reset_poll_cycle_id` puts it back.
unfoldable pub set_poll_cycle_id : Option String → Context → Option String × Context
set_poll_cycle_id value c = (c.poll_cycle_id, record c { poll_cycle_id = value })

unfoldable pub reset_poll_cycle_id : Option String → Context → Context
reset_poll_cycle_id token c = record c { poll_cycle_id = token }
