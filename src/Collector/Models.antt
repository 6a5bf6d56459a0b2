-- ===== src/Collector/Models.antt =====
-- collector/models.py: rows as asyncpg returns them, and the snapshots that are read from them.
pub mod Required
use pg_monitor.Prelude.{ℕ, String, Bool, Option, none, some, List, [], ◌∷◌}
use pg_monitor.Prelude.Int.{ℤ}
use pg_monitor.Prelude.Dict.{Dict, get}
use pg_monitor.Prelude.Eq.{String_eq}
use pg_monitor.Exn.{Result, ok, err, value_error, ◌>>=◌}

-- `int(v)`, `str(v)`, truth and `float(v)` of the objects `V` that the driver returns.
pub record Objects (V : Type 0) : Type 0 where
  pub int_of : V → Result ℤ
  pub str_of : V → Result String
  pub truth_of : V → Bool

pub record FloatObjects (F V : Type 0) : Type 0 where
  pub float_of : V → Result F

-- A row maps names to objects, `none` for NULL.
abbrev pub Row : Type 0 → Type 0
Row V = Dict String (Option V)

pub record StatementMetric (F : Type 0) : Type 0 where
  pub queryid : String
  pub dbid : ℤ
  pub userid : ℤ
  pub query : String
  pub calls : ℤ
  pub total_exec_time_ms : F
  pub mean_exec_time_ms : F
  pub rows : ℤ
  pub shared_blks_hit : ℤ
  pub shared_blks_read : ℤ
  pub shared_blks_dirtied : ℤ
  pub shared_blks_written : ℤ

pub record ActivitySnapshot (F : Type 0) : Type 0 where
  pub active_connections : ℤ
  pub blocked_sessions : ℤ
  pub longest_tx_duration_s : Option F

pub record LocksSnapshot : Type 0 where
  pub waiting_locks : ℤ
  pub granted_locks : ℤ

pub record DatabaseMetric : Type 0 where
  pub datid : ℤ
  pub datname : String
  pub numbackends : ℤ
  pub xact_commit : ℤ
  pub xact_rollback : ℤ
  pub blks_read : ℤ
  pub blks_hit : ℤ
  pub deadlocks : ℤ

pub record RuntimeSnapshotResult (F : Type 0) : Type 0 where
  pub captured_at : ℕ
  pub db_identifier : String
  pub activity : ActivitySnapshot F
  pub locks : LocksSnapshot
  pub database : List DatabaseMetric

pub record QuerySnapshotResult (F : Type 0) : Type 0 where
  pub captured_at : ℕ
  pub db_identifier : String
  pub statements : List (StatementMetric F)

require_some : {V : Type 0} → Option (Option V) → Result V
require_some none = err value_error
require_some (some none) = err value_error
require_some (some (some v)) = ok v

-- A key that is missing and a value that is NULL are both a ValueError.
unfoldable pub require_value : {V : Type 0} → Row V → String → Result V
unfolding require_some
require_value row key = require_some (get row key)

module _ {V : Type 0} ⦃py : Objects V⦄ where
  unfoldable pub to_int : Row V → String → Result ℤ
  to_int row key = do value ← require_value row key; py.int_of value

  unfoldable pub to_str : Row V → String → Result String
  to_str row key = do value ← require_value row key; py.str_of value

  -- LocksSnapshot.from_row
  unfoldable pub locks_from_row : Row V → Result LocksSnapshot
  unfolding to_int
  locks_from_row row = do
    waiting_locks ← to_int row "waiting_locks"
    granted_locks ← to_int row "granted_locks"
    ok (record { waiting_locks = waiting_locks; granted_locks = granted_locks })

  -- DatabaseMetric.from_row
  unfoldable pub database_from_row : Row V → Result DatabaseMetric
  unfolding to_int to_str
  database_from_row row = do
    datid ← to_int row "datid"
    datname ← to_str row "datname"
    numbackends ← to_int row "numbackends"
    xact_commit ← to_int row "xact_commit"
    xact_rollback ← to_int row "xact_rollback"
    blks_read ← to_int row "blks_read"
    blks_hit ← to_int row "blks_hit"
    deadlocks ← to_int row "deadlocks"
    ok (record {
      datid = datid;
      datname = datname;
      numbackends = numbackends;
      xact_commit = xact_commit;
      xact_rollback = xact_rollback;
      blks_read = blks_read;
      blks_hit = blks_hit;
      deadlocks = deadlocks;
    })

-- `[from_row(row) for row in rows]`: the first failure ends the comprehension.
unfoldable pub map_rows : {V A : Type 0} → (Row V → Result A) → List (Row V) → Result (List A)
map_rows from_row [] = ok []
map_rows from_row (row ∷ rows) = do
  item ← from_row row
  items ← map_rows from_row rows
  ok (item ∷ items)

-- `row["longest_tx_duration_s"]` must be there, and may be NULL.
longest_tx : {V : Type 0} → Option (Option V) → Result (Option V)
longest_tx none = err value_error
longest_tx (some value) = ok value

module _ {F V : Type 0} ⦃py : Objects V⦄ ⦃fp : FloatObjects F V⦄ where
  unfoldable pub to_float : Row V → String → Result F
  to_float row key = do value ← require_value row key; fp.float_of value

  -- StatementMetric.from_row
  unfoldable pub statement_from_row : Row V → Result (StatementMetric F)
  unfolding to_int to_float to_str
  statement_from_row row = do
    queryid ← to_str row "queryid"
    dbid ← to_int row "dbid"
    userid ← to_int row "userid"
    query ← to_str row "query"
    calls ← to_int row "calls"
    total_exec_time_ms ← to_float row "total_exec_time_ms"
    mean_exec_time_ms ← to_float row "mean_exec_time_ms"
    rows ← to_int row "rows"
    shared_blks_hit ← to_int row "shared_blks_hit"
    shared_blks_read ← to_int row "shared_blks_read"
    shared_blks_dirtied ← to_int row "shared_blks_dirtied"
    shared_blks_written ← to_int row "shared_blks_written"
    ok (record {
      queryid = queryid;
      dbid = dbid;
      userid = userid;
      query = query;
      calls = calls;
      total_exec_time_ms = total_exec_time_ms;
      mean_exec_time_ms = mean_exec_time_ms;
      rows = rows;
      shared_blks_hit = shared_blks_hit;
      shared_blks_read = shared_blks_read;
      shared_blks_dirtied = shared_blks_dirtied;
      shared_blks_written = shared_blks_written;
    })

  nullable_float : Option V → Result (Option F)
  nullable_float none = ok none
  nullable_float (some v) = do x ← fp.float_of v; ok (some x)

  -- ActivitySnapshot.from_row
  unfoldable pub activity_from_row : Row V → Result (ActivitySnapshot F)
  unfolding to_int nullable_float longest_tx
  activity_from_row row = do
    longest ← longest_tx (get row "longest_tx_duration_s")
    active_connections ← to_int row "active_connections"
    blocked_sessions ← to_int row "blocked_sessions"
    longest_tx_duration_s ← nullable_float longest
    ok (record {
      active_connections = active_connections;
      blocked_sessions = blocked_sessions;
      longest_tx_duration_s = longest_tx_duration_s;
    })
