-- ===== src/Collector/Repository/Snapshot.antt =====
-- The three runtime reads in one transaction (fetch_runtime_rows of collector/repository.py) against the three separate
-- reads that collector/service.py falls back to.
use pg_monitor.Prelude.{◌≡◌, ◌↔◌, Option, none, some, List}
use pg_monitor.Exn.{Result, ok, err, ◌>>=◌}
use pg_monitor.Collector.Models.{Row, Objects}
use pg_monitor.Collector.Repository.{
  sql_runtime_activity, sql_runtime_locks, sql_runtime_database, Pool, Formats, guarded,
  require_row, fetch_row, fetch_rows, fetch_runtime_rows, sql_query_statements, fetch_db_identifier,
  is_pg_stat_statements_available,
}
use pg_monitor.Collector.Service.{CollectorRepository, load_runtime_rows}

module _ {V : Type 0} where
  -- What the two ways of reading make of the answers to the three queries.
  joint :
      Result (Option (Row V))
      → Result (Option (Row V))
      → Result (List (Row V))
      → Result (Row V × Row V × List (Row V))
  unfolding require_row
  joint a l d = do
    (activity, locks, database) ← guarded do
      activity_row ← a
      locks_row ← l
      database_rows ← d
      ok (activity_row, locks_row, database_rows)
    activity_row ← require_row activity
    locks_row ← require_row locks
    ok (activity_row, locks_row, database)

  apart :
      Result (Option (Row V))
      → Result (Option (Row V))
      → Result (List (Row V))
      → Result (Row V × Row V × List (Row V))
  unfolding require_row
  apart a l d = do
    activity_row ← guarded a >>= require_row
    locks_row ← guarded l >>= require_row
    database_rows ← guarded d
    ok (activity_row, locks_row, database_rows)

  joint-apart :
      (a l : Result (Option (Row V))) (d : Result (List (Row V)))
      (rows : Row V × Row V × List (Row V))
      → (joint a l d ≡ ok rows) ↔ (apart a l d ≡ ok rows)
  unfolding joint apart
  joint-apart (ok (some a)) (ok (some l)) (ok d) rows = (λ h. h, λ h. h)
  joint-apart (ok (some a)) (ok (some l)) (err e) rows = (λ h. cc, λ h. cc)
  joint-apart (ok (some a)) (ok none) (ok d) rows = (λ h. cc, λ h. cc)
  joint-apart (ok (some a)) (ok none) (err e) rows = (λ h. cc, λ h. cc)
  joint-apart (ok (some a)) (err e) d rows = (λ h. cc, λ h. cc)
  joint-apart (ok none) (ok (some l)) (ok d) rows = (λ h. cc, λ h. cc)
  joint-apart (ok none) (ok (some l)) (err e) rows = (λ h. cc, λ h. cc)
  joint-apart (ok none) (ok none) (ok d) rows = (λ h. cc, λ h. cc)
  joint-apart (ok none) (ok none) (err e) rows = (λ h. cc, λ h. cc)
  joint-apart (ok none) (err e) d rows = (λ h. cc, λ h. cc)
  joint-apart (err e) l d rows = (λ h. cc, λ h. cc)

  module _ ⦃py : Objects V⦄ ⦃fmt : Formats⦄ (pool : Pool V) where
    -- AsyncpgCollectorRepository over a pool, with and without its optional method.
    abbrev pub over_pool : Option (Result (Row V × Row V × List (Row V))) → CollectorRepository V
    over_pool runtime_rows = record {
      fetch_db_identifier = fetch_db_identifier pool none;
      is_pg_stat_statements_available = is_pg_stat_statements_available pool;
      fetch_activity_row = fetch_row pool sql_runtime_activity;
      fetch_locks_row = fetch_row pool sql_runtime_locks;
      fetch_database_rows = fetch_rows pool sql_runtime_database;
      fetch_statement_rows = fetch_rows pool sql_query_statements;
      fetch_runtime_rows = runtime_rows;
    }

    -- If the pool gives a connection and the transaction begins and ends, a cycle reads the same rows in one transaction
    -- as by three separate reads of the same answers, and succeeds with the one exactly if it does with the other.
    pub load_runtime_rows-agrees :
        pool.acquire ≡ ok tt
        → pool.begin_transaction ≡ ok tt
        → pool.end_transaction ≡ ok tt
        → (rows : Row V × Row V × List (Row V))
        → (load_runtime_rows (over_pool (some (fetch_runtime_rows pool))) ≡ ok rows)
          ↔ (load_runtime_rows (over_pool none) ≡ ok rows)
    unfolding load_runtime_rows fetch_runtime_rows fetch_row fetch_rows joint apart
    load_runtime_rows-agrees a b e rows =
        rw (a, b, e)
          (joint-apart (pool.fetchrow sql_runtime_activity) (pool.fetchrow sql_runtime_locks)
            (pool.fetch sql_runtime_database) rows)
