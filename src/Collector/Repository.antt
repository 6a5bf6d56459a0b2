-- ===== src/Collector/Repository.antt =====
-- collector/repository.py: AsyncpgCollectorRepository over a connection pool. The pool is asyncpg's, so what it
-- answers to each operation is a parameter.
pub mod Reads
pub mod Snapshot
use pg_monitor.Prelude.{String, Bool, true, false, Option, none, some, List, if◌then◌else◌}
use pg_monitor.Prelude.Int.{ℤ, pos}
use pg_monitor.Prelude.Eq.{String_eq}
use pg_monitor.Prelude.Dict.{get}
use pg_monitor.Exn.{
  Exn, Result, ok, err, collector_connection_error, collector_query_error, is_connection_failure,
  is_postgres_error, ◌>>=◌, ◌>>◌,
}
use pg_monitor.Collector.Models.{Row, Objects}

-- collector/queries.py
pub data Sql : Type 0 where
  sql_db_identifier sql_check_pg_stat_statements sql_ping sql_query_statements : Sql
  sql_runtime_activity sql_runtime_database sql_runtime_locks : Sql

-- What the pool answers. A row is `none` if the query has no rows.
pub record Pool (V : Type 0) : Type 0 where
  pub acquire : Result (Unit {0})
  pub fetchrow : Sql → Result (Option (Row V))
  pub fetch : Sql → Result (List (Row V))
  -- BEGIN ISOLATION LEVEL REPEATABLE READ READ ONLY, and the end of that transaction
  pub begin_transaction : Result (Unit {0})
  pub end_transaction : Result (Unit {0})

-- `f"{db_name}@{host}:{port}"`
pub record Formats : Type 0 where
  pub db_identifier_text : String → String → ℤ → String

-- The handlers of the three `try` blocks: connection failures first, then any other PostgresError.
abbrev pub map_error : Exn → Exn
map_error e =
    if is_connection_failure e
    then collector_connection_error
    else if is_postgres_error e
    then collector_query_error
    else e

abbrev pub guarded : {A : Type 0} → Result A → Result A
guarded (ok a) = ok a
guarded (err e) = err (map_error e)

-- What asyncpg's create_pool answers, with its connection failures mapped; other errors pass.
unfoldable pub create_pool : {P : Type 0} → Result P → Result P
create_pool (ok pool) = ok pool
create_pool (err e) = err (if is_connection_failure e then collector_connection_error else e)

unfoldable pub require_row : {A : Type 0} → Option A → Result A
require_row none = err collector_query_error
require_row (some row) = ok row

module _ {V : Type 0} (pool : Pool V) where
  unfoldable pub fetch_row : Sql → Result (Row V)
  unfolding require_row
  fetch_row query = do row ← guarded (pool.acquire >> pool.fetchrow query); require_row row

  unfoldable pub fetch_rows : Sql → Result (List (Row V))
  fetch_rows query = guarded (pool.acquire >> pool.fetch query)

  unfoldable pub ping : Result (Unit {0})
  unfolding fetch_row
  ping = do row ← fetch_row sql_ping; ok tt

  -- The three reads of one snapshot, in one read-only transaction.
  unfoldable pub fetch_runtime_rows : Result (Row V × Row V × List (Row V))
  unfolding require_row
  fetch_runtime_rows = do
    (activity, locks, database) ← guarded do
      pool.acquire
      pool.begin_transaction
      activity_row ← pool.fetchrow sql_runtime_activity
      locks_row ← pool.fetchrow sql_runtime_locks
      database_rows ← pool.fetch sql_runtime_database
      pool.end_transaction
      ok (activity_row, locks_row, database_rows)
    activity_row ← require_row activity
    locks_row ← require_row locks
    ok (activity_row, locks_row, database)

module _ {V : Type 0} ⦃py : Objects V⦄ where
  -- `x or default`: a missing value, NULL and a false value give the default
  or_default : Option (Option V) → Option V
  or_default none = none
  or_default (some none) = none
  or_default (some (some v)) = if py.truth_of v then some v else none

  str_or_unknown : Option V → Result String
  str_or_unknown none = ok "unknown"
  str_or_unknown (some v) = py.str_of v

  int_or_zero : Option V → Result ℤ
  int_or_zero none = ok (pos 0)
  int_or_zero (some v) = py.int_of v

  module _ ⦃fmt : Formats⦄ (pool : Pool V) where
    unfoldable pub fetch_db_identifier : Option String → Result String
    unfolding fetch_row or_default str_or_unknown int_or_zero
    fetch_db_identifier (some identifier) = ok identifier
    fetch_db_identifier none = do
      row ← fetch_row pool sql_db_identifier
      db_name ← str_or_unknown (or_default (get row "db_name"))
      host ← str_or_unknown (or_default (get row "host"))
      port ← int_or_zero (or_default (get row "port"))
      ok (fmt.db_identifier_text db_name host port)

  is_true : Option (Option V) → Bool
  unfolding or_default
  is_true value = elim (or_default value) [ none ↦ false | some v ↦ true ]

  module _ (pool : Pool V) where
    unfoldable pub is_pg_stat_statements_available : Result Bool
    unfolding fetch_row is_true
    is_pg_stat_statements_available = do
      row ← fetch_row pool sql_check_pg_stat_statements
      ok (is_true (get row "is_available"))
