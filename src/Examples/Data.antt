-- ===== src/Examples/Data.antt =====
-- Concrete tables, sessions and snapshots, with whole numbers as floats.
use Prim.Native.String.{count}
use pg_monitor.Prelude.{ℕ, ◌-◌, String, Bool, true, false, List, [], ◌∷◌, leb, arith}
use pg_monitor.Prelude.Int.{ℤ, pos}
use pg_monitor.Prelude.Order.{IsPreorder, on, on-IsPreorder}
use pg_monitor.Storage.Orm.{QueryMetricSnapshotOrm, QuerySnapshotRow, QuerySnapshotPoint, Tables}
use pg_monitor.Storage.Session.{Session}
use pg_monitor.Storage.Queries.Latest.{Collation}
use pg_monitor.Analytics.Models.{DateTime, PeriodWindow}

pub leb-IsPreorder : IsPreorder leb
leb-IsPreorder = record { total = λ a b h. ground arith; trans = λ a b c h k. ground arith }

-- A collation by length.
instance abbrev pub by_count : Collation
by_count = record {
  le_text = on count leb;
  le_text-IsPreorder = on-IsPreorder count leb-IsPreorder;
}

abbrev pub stored : ℕ → ℕ → String → String → ℤ → QueryMetricSnapshotOrm ℤ
stored id at db queryid calls = record {
  id = id;
  captured_at = at;
  db_identifier = db;
  queryid = queryid;
  dbid = pos 16_384;
  userid = pos 10;
  query = "select 1";
  calls = calls;
  total_exec_time_ms = calls;
  mean_exec_time_ms = pos 1;
  rows = calls;
  shared_blks_hit = pos 0;
  shared_blks_read = pos 0;
  shared_blks_dirtied = pos 0;
  shared_blks_written = pos 0;
}

abbrev pub row : String → ℤ → QuerySnapshotRow ℤ
row queryid calls = record {
  captured_at = 100;
  db_identifier = "main";
  queryid = queryid;
  dbid = pos 16_384;
  userid = pos 10;
  query = "select 1";
  calls = calls;
  total_exec_time_ms = calls;
  mean_exec_time_ms = pos 1;
  rows = calls;
  shared_blks_hit = pos 0;
  shared_blks_read = pos 0;
  shared_blks_dirtied = pos 0;
  shared_blks_written = pos 0;
}

abbrev pub before_point : QuerySnapshotPoint ℤ
before_point = record { captured_at = 100; rows = row "a" (pos 5) ∷ row "b" (pos 3) ∷ [] }

abbrev pub after_point : QuerySnapshotPoint ℤ
after_point = record {
  captured_at = 200;
  rows = row "a" (pos 9) ∷ row "b" (pos 3) ∷ row "c" (pos 2) ∷ [];
}

abbrev pub two_captures : Tables ℤ
two_captures = record {
  query_metric_snapshots =
      stored 1 100 "main" "a" (pos 5)
      ∷ stored 2 100 "main" "b" (pos 3)
      ∷ stored 3 200 "main" "a" (pos 9)
      ∷ stored 4 150 "other" "a" (pos 1)
      ∷ [];
  runtime_snapshots = [];
  runtime_database_snapshots = [];
  runtime_current = [];
  runtime_database_current = [];
}

abbrev pub session_with : List Bool → Session ℤ
session_with faults = record {
  committed = two_captures;
  tables = two_captures;
  sequences = record {
    query_metric_snapshots_id = 5;
    runtime_snapshots_id = 1;
    runtime_database_snapshots_id = 1;
    runtime_database_current_id = 1;
  };
  faults = faults;
  entered = false;
}

abbrev pub calm_session : Session ℤ
calm_session = session_with []

-- A datetime at a point after the first, with an offset of a microsecond less than a day.
abbrev pub far_east : ℕ → DateTime
far_east at = record { local = at - 1; behind = 1; aware = true }

abbrev pub window_of : ℕ → ℕ → PeriodWindow
window_of start end = record { start_at = far_east start; end_at = far_east end }
