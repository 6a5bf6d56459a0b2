-- ===== src/Examples/Storage.antt =====
-- Runs of the model of storage.
use pg_monitor.Prelude.{
  String, false, arith, ℕ, ◌≡◌, refl, String, true, false, Option, none, some, [], ◌∷◌, ◌++◌, inl,
  inr, All, map, length, Elem,
}
use pg_monitor.Prelude.Int.{ℤ, pos}
use pg_monitor.Prelude.Eq.{ℕ_eq, String_eq, ◌=?◌}
use pg_monitor.Prelude.Dict.{get, has}
use pg_monitor.Exn.{ok, err, storage_write_error}
use pg_monitor.Storage.Runtime.Read.{load_runtime_states}
use pg_monitor.Storage.Runtime.Read.Loaded.{AskedRows, shown, load_runtime_states-Loaded}
use pg_monitor.Prelude.{List, Perm, filter}
use pg_monitor.Prelude.Order.{on}
use pg_monitor.Prelude.Sort.{IsSorted}
use pg_monitor.Storage.Runtime.Write.Values.{
  NoNewer, IsRowOf, upsert_runtime_database_current-stores,
}
use pg_monitor.Storage.Runtime.Write.Stale.{write_runtime_snapshot-stale}
use pg_monitor.Storage.Runtime.Upserts.{
  distinct_names, current_captured_at, current_row, database_values,
}
use pg_monitor.Collector.Models.{
  DatabaseMetric, StatementMetric, QuerySnapshotResult, RuntimeSnapshotResult,
}
use pg_monitor.Storage.Runtime.Write.{
  fit_all, fits_values, is_stale, upsert_runtime_database_current, write_runtime_snapshot,
}
use pg_monitor.Storage.Runtime.Write.Databases.{
  has_row, names, before, upsert_runtime_database_current-replaces,
}
use pg_monitor.Storage.Runtime.Write.Forward.{Forward, write_runtime_snapshot-Forward}
use pg_monitor.Storage.Queries.Write.{to_orm, same_point, fits_columns, write_query_snapshot}
use pg_monitor.Storage.Queries.Write.Outcomes.{
  DistinctPoints, numbered, IsWrite, write_query_snapshot-IsWrite, write_query_snapshot-misfit,
}
use pg_monitor.Storage.Queries.Write.Accepts.{write_query_snapshot-accepts}
use pg_monitor.Storage.Orm.{
  RuntimeCurrentOrm, RuntimeDatabaseCurrentOrm, Tables, QuerySnapshotPoint,
}
use pg_monitor.Storage.Session.{Session, Db}
use pg_monitor.Storage.Uow.{with_uow}
use pg_monitor.Storage.Uow.Atomicity.{entered, IsAtomic, with_uow-IsAtomic}
use pg_monitor.Storage.Queries.Latest.{get_latest_snapshot_at_or_before}
use pg_monitor.Storage.Queries.Grouping.{Points}
use pg_monitor.Storage.Queries.Bulk.{get_latest_snapshots_at_or_before}
use pg_monitor.Storage.Queries.Agreement.Assembly.{get_latest_snapshots_at_or_before-agrees}
use pg_monitor.Storage.Queries.Newest.{Newest, get_latest_snapshot_at_or_before-Newest}
use pg_monitor.Examples.Data.{by_count, two_captures, session_with, calm_session}

get_latest_snapshots_at_or_before-agrees_example :
    (points : Points ℤ) × (get_latest_snapshots_at_or_before "main"
        (250 ∷ 120 ∷ 50 ∷ [])
        calm_session
      ≡ (ok points, calm_session))
    × ((ts : ℕ)
        → Elem ts (250 ∷ 120 ∷ 50 ∷ [])
        → (point : Option (QuerySnapshotPoint ℤ)) × (get_latest_snapshot_at_or_before "main" ts
              calm_session
            ≡ (ok point, calm_session))
          × (get points ts ≡ some point))
    × ((ts : ℕ) → ¬ Elem ts (250 ∷ 120 ∷ 50 ∷ []) → get points ts ≡ none)
get_latest_snapshots_at_or_before-agrees_example =
    get_latest_snapshots_at_or_before-agrees "main" (250 ∷ 120 ∷ 50 ∷ []) calm_session refl

get_latest_snapshot_at_or_before-Newest_example :
    (point : Option (QuerySnapshotPoint ℤ)) × (get_latest_snapshot_at_or_before "main" 120
        calm_session
      ≡ (ok point, calm_session))
    × Newest "main" 120 two_captures point
get_latest_snapshot_at_or_before-Newest_example =
    get_latest_snapshot_at_or_before-Newest "main" 120 calm_session refl

-- A body that forgets all snapshots of queries.
abbrev forget : Db ℤ ℕ
forget s = (ok 4, record s { tables = record s.tables { query_metric_snapshots = [] } })

with_uow-IsAtomic_example :
    IsAtomic
      (session_with (true ∷ []))
      (forget (entered (session_with (true ∷ [])))).1
      (forget (entered (session_with (true ∷ [])))).0
      (with_uow forget (session_with (true ∷ []))).0
      (with_uow forget (session_with (true ∷ []))).1
with_uow-IsAtomic_example = with_uow-IsAtomic forget (session_with (true ∷ [])) refl refl

abbrev metric : String → ℤ → StatementMetric ℤ
metric queryid dbid = record {
  queryid = queryid;
  dbid = dbid;
  userid = pos 10;
  query = "select 1";
  calls = pos 4;
  total_exec_time_ms = pos 12;
  mean_exec_time_ms = pos 3;
  rows = pos 4;
  shared_blks_hit = pos 1;
  shared_blks_read = pos 1;
  shared_blks_dirtied = pos 0;
  shared_blks_written = pos 0;
}

abbrev two_metrics : QuerySnapshotResult ℤ
two_metrics = record {
  captured_at = 300;
  db_identifier = "main";
  statements = metric "a" (pos 16_384) ∷ metric "b" (pos 16_384) ∷ [];
}

-- The second statement is of a database whose oid is beyond the range of integer.
abbrev large_oid : QuerySnapshotResult ℤ
large_oid = record two_metrics {
  statements = metric "a" (pos 16_384) ∷ metric "b" (pos 3_000_000_000) ∷ [];
}

write_query_snapshot-IsWrite_example :
    let out = write_query_snapshot two_metrics calm_session in
    IsWrite (map (to_orm two_metrics) two_metrics.statements) out.0 calm_session out.1
write_query_snapshot-IsWrite_example = write_query_snapshot-IsWrite two_metrics calm_session

misfit : fits_columns (to_orm large_oid (metric "b" (pos 3_000_000_000))) ≡ false
unfolding fits_columns to_orm
misfit = refl

write_query_snapshot-misfit_example :
    let out = write_query_snapshot large_oid calm_session in
    (out.0 ≡ err storage_write_error) × (out.1.tables ≡ two_captures)
write_query_snapshot-misfit_example =
    write_query_snapshot-misfit large_oid calm_session (metric "b" (pos 3_000_000_000))
      (inr (inl refl)) misfit

two_fit : All (λ r. fits_columns r ≡ true) (map (to_orm two_metrics) two_metrics.statements)
unfolding fits_columns to_orm
two_fit = (refl, (refl, tt))

two_distinct :
    DistinctPoints
      (two_captures.query_metric_snapshots ++ map (to_orm two_metrics) two_metrics.statements)
unfolding same_point to_orm
two_distinct = (
  (refl, (refl, (refl, (refl, (refl, tt))))),
  (
    (refl, (refl, (refl, (refl, tt)))),
    ((refl, (refl, (refl, tt))), ((refl, (refl, tt)), ((refl, tt), (tt, tt)))),
  ),
)

write_query_snapshot-accepts_example :
    let rows = map (to_orm two_metrics) two_metrics.statements in
    ((write_query_snapshot two_metrics calm_session).0 ≡ ok (length rows))
    × ((write_query_snapshot two_metrics calm_session).1.tables ≡ record calm_session.tables {
      query_metric_snapshots =
          calm_session.tables.query_metric_snapshots
          ++ numbered calm_session.sequences.query_metric_snapshots_id rows;
    })
write_query_snapshot-accepts_example =
    write_query_snapshot-accepts two_metrics calm_session refl two_fit two_distinct

abbrev a_database : DatabaseMetric
a_database = record {
  datid = pos 16_384;
  datname = "app";
  numbackends = pos 3;
  xact_commit = pos 100;
  xact_rollback = pos 1;
  blks_read = pos 10;
  blks_hit = pos 1000;
  deadlocks = pos 0;
}

abbrev runtime_at : ℕ → RuntimeSnapshotResult ℤ
runtime_at at = record {
  captured_at = at;
  db_identifier = "main";
  activity = record {
    active_connections = pos 3;
    blocked_sessions = pos 0;
    longest_tx_duration_s = none;
  };
  locks = record { waiting_locks = pos 0; granted_locks = pos 5 };
  database = a_database ∷ [];
}

-- Tables with a current state of "main".
abbrev with_current : Tables ℤ
with_current = record two_captures {
  runtime_current = current_row (runtime_at 250) ∷ [];
  runtime_database_current = database_values "main" 250 a_database 1 ∷ [];
}

abbrev current_session : Session ℤ
current_session = record calm_session { committed = with_current; tables = with_current }

write_runtime_snapshot-Forward_example :
    Forward with_current (write_runtime_snapshot (runtime_at 300) current_session).1.tables
write_runtime_snapshot-Forward_example =
    write_runtime_snapshot-Forward (runtime_at 300) current_session

time_of_main : current_captured_at "main" with_current.runtime_current ≡ some 250
unfolding current_captured_at current_row
time_of_main = refl

write_runtime_snapshot-stale_example :
    let t = (write_runtime_snapshot (runtime_at 200) current_session).1.tables in
    (t.runtime_current ≡ with_current.runtime_current)
    × (t.runtime_database_current ≡ with_current.runtime_database_current)
write_runtime_snapshot-stale_example =
    write_runtime_snapshot-stale (runtime_at 200) 250 (omega arith) current_session time_of_main

fitting : fits_values (runtime_at 300) ≡ true
unfolding fit_all distinct_names has
fitting = refl

not_stale : is_stale (current_captured_at "main" with_current.runtime_current) 300 ≡ false
unfolding is_stale current_captured_at current_row
not_stale = refl

upsert_runtime_database_current-replaces_example :
    let out = upsert_runtime_database_current (runtime_at 300) current_session in
    (out.0 ≡ ok tt)
    × ((name : String)
        → has_row "main" name out.1.tables.runtime_database_current
          ≡ has (names (runtime_at 300) current_session) name)
    × ((other name : String)
        → ("main" =? other) ≡ false
        → has_row other name out.1.tables.runtime_database_current
          ≡ has_row other name (before (runtime_at 300) current_session))
upsert_runtime_database_current-replaces_example =
    upsert_runtime_database_current-replaces (runtime_at 300) current_session refl fitting not_stale

no_newer : NoNewer "main" 300 current_session.tables.runtime_database_current
unfolding database_values
no_newer = (λ e. ground arith, tt)

upsert_runtime_database_current-stores_example :
    let out = upsert_runtime_database_current (runtime_at 300) current_session in
    (out.0 ≡ ok tt)
    × ((metric : DatabaseMetric)
        → Elem metric (runtime_at 300).database
        → (r : RuntimeDatabaseCurrentOrm) × Elem r out.1.tables.runtime_database_current
          × IsRowOf "main" 300 metric r)
upsert_runtime_database_current-stores_example =
    upsert_runtime_database_current-stores (runtime_at 300) current_session refl fitting not_stale
      no_newer

load_runtime_states-Loaded_example :
    (rows : List (RuntimeCurrentOrm ℤ)) × (own : RuntimeCurrentOrm ℤ
      → List RuntimeDatabaseCurrentOrm)
    × AskedRows (some "main") rows with_current.runtime_current
    × IsSorted (on (λ r. r.db_identifier) by_count.le_text) rows
    × ((row : RuntimeCurrentOrm ℤ)
        → Perm (own row) (
            filter
              (λ r. r.db_identifier =? row.db_identifier)
              with_current.runtime_database_current))
    × ((row : RuntimeCurrentOrm ℤ) → IsSorted (on (λ r. r.datname) by_count.le_text) (own row))
    × (load_runtime_states (some "main") current_session
        ≡ (ok (map (λ row. shown row (own row)) rows), current_session))
load_runtime_states-Loaded_example = load_runtime_states-Loaded current_session refl (some "main")
