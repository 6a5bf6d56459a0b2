-- ===== src/Collector/Repository/Reads.antt =====
-- The errors that leave the reads of collector/repository.py.
use pg_monitor.Prelude.{◌≡◌, refl, false, Option, none, some, List, arith}
use pg_monitor.Exn.{Result, ok, err, is_connection_failure, is_postgres_error, ◌>>=◌, ◌>>◌}
use pg_monitor.Collector.Models.{Row}
use pg_monitor.Collector.Repository.{
  Sql, sql_runtime_activity, sql_runtime_locks, sql_runtime_database, sql_ping, Pool, guarded,
  require_row, fetch_row, fetch_rows, ping, fetch_runtime_rows,
}

-- A value, or an error that is no PostgresError, no OSError and no TimeoutError. An InterfaceError of asyncpg is one.
abbrev pub NoPostgresError : {A : Type 0} → Result A → Type 0
NoPostgresError (ok a) = Unit
NoPostgresError (err e) = (is_connection_failure e ≡ false) × (is_postgres_error e ≡ false)

guarded-NoPostgresError : {A : Type 0} (r : Result A) → NoPostgresError (guarded r)
guarded-NoPostgresError (ok a) = tt
guarded-NoPostgresError (err e) = (ground arith, ground arith)

>>=-NoPostgresError :
    {A B : Type 0} (r : Result A) (next : A → Result B)
    → NoPostgresError r
    → ((a : A) → NoPostgresError (next a))
    → NoPostgresError (r >>= next)
>>=-NoPostgresError (ok a) next n h = h a
>>=-NoPostgresError (err e) next n h = n

require_row-NoPostgresError : {A : Type 0} (row : Option A) → NoPostgresError (require_row row)
unfolding require_row
require_row-NoPostgresError none = (refl, refl)
require_row-NoPostgresError (some row) = tt

module _ {V : Type 0} (pool : Pool V) where
  fetch_row-NoPostgresError : (query : Sql) → NoPostgresError (fetch_row pool query)
  unfolding fetch_row
  fetch_row-NoPostgresError query =
      >>=-NoPostgresError (guarded (pool.acquire >> pool.fetchrow query)) require_row
        (guarded-NoPostgresError (pool.acquire >> pool.fetchrow query)) require_row-NoPostgresError

  ping-NoPostgresError : NoPostgresError (ping pool)
  unfolding ping
  ping-NoPostgresError =
      >>=-NoPostgresError (fetch_row pool sql_ping) (λ row. ok tt)
        (fetch_row-NoPostgresError sql_ping) (λ row. tt)

  -- The reads inside the transaction.
  abbrev inside : Result (Option (Row V) × Option (Row V) × List (Row V))
  inside = do
    pool.acquire
    pool.begin_transaction
    activity_row ← pool.fetchrow sql_runtime_activity
    locks_row ← pool.fetchrow sql_runtime_locks
    database_rows ← pool.fetch sql_runtime_database
    pool.end_transaction
    ok (activity_row, locks_row, database_rows)

  abbrev both_rows :
      Option (Row V) × Option (Row V) × List (Row V) → Result (Row V × Row V × List (Row V))
  both_rows (activity, locks, database) = do
    activity_row ← require_row activity
    locks_row ← require_row locks
    ok (activity_row, locks_row, database)

  runtime_rows-NoPostgresError : NoPostgresError (fetch_runtime_rows pool)
  unfolding fetch_runtime_rows
  runtime_rows-NoPostgresError =
      >>=-NoPostgresError (guarded inside) both_rows (guarded-NoPostgresError inside) λ rows.
        >>=-NoPostgresError (require_row rows.0) _ (require_row-NoPostgresError rows.0) λ activity.
          >>=-NoPostgresError (require_row rows.1) _ (require_row-NoPostgresError rows.1)
            λ locks. tt

  -- Whatever the pool raises, no read of the repository lets a PostgresError, an OSError or a TimeoutError out.
  pub reads-NoPostgresError :
      (query : Sql)
      → NoPostgresError (fetch_row pool query)
        × NoPostgresError (fetch_rows pool query)
        × NoPostgresError (ping pool)
        × NoPostgresError (fetch_runtime_rows pool)
  unfolding fetch_rows
  reads-NoPostgresError query = (
    fetch_row-NoPostgresError query,
    guarded-NoPostgresError (pool.acquire >> pool.fetch query),
    ping-NoPostgresError,
    runtime_rows-NoPostgresError,
  )
