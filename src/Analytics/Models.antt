-- ===== src/Analytics/Models.antt =====
-- query_analytics/models.py.
use pg_monitor.Prelude.{ℕ, ◌+◌, String, Bool, not, Option, List, leb, if◌then◌else◌}
use pg_monitor.Prelude.Int.{ℤ}
use pg_monitor.Exn.{Result, ok, err, query_analytics_validation_error}

pub data QuerySortBy : Type 0 where
  total_exec_time_ms calls : QuerySortBy

-- `local` is what the fields of the datetime say, in microseconds since datetime.min; `aware` says whether it has an
-- offset from UTC. The offset is less than a day in both directions, and `behind` is what it lacks to a day.
pub record DateTime : Type 0 where
  pub local : ℕ
  pub behind : ℕ
  pub aware : Bool

-- `timedelta(days=1)`, which is `behind` for UTC
abbrev pub day : ℕ
day = 86_400_000_000

-- The point in time in UTC, by which aware datetimes compare, counted from a day before datetime.min: local time less
-- the offset.
abbrev pub instant : DateTime → ℕ
instant d = d.local + d.behind

pub record PeriodWindow : Type 0 where
  pub start_at : DateTime
  pub end_at : DateTime

-- PeriodWindow(...) with __post_init__
unfoldable pub period_window : DateTime → DateTime → Result PeriodWindow
period_window start end =
    if not start.aware
    then err (query_analytics_validation_error "period window start_at must be timezone-aware")
    else if not end.aware
    then err (query_analytics_validation_error "period window end_at must be timezone-aware")
    else if leb (instant end) (instant start)
    then err (query_analytics_validation_error "period window start_at must be before end_at")
    else ok (record { start_at = start; end_at = end })

pub record QueryDelta (F : Type 0) : Type 0 where
  pub queryid : String
  pub dbid : ℤ
  pub userid : ℤ
  pub query : String
  pub calls_delta : ℤ
  pub total_exec_time_ms_delta : F
  pub mean_exec_time_ms_delta : Option F
  pub rows_delta : ℤ
  pub shared_blks_hit_delta : ℤ
  pub shared_blks_read_delta : ℤ
  pub shared_blks_dirtied_delta : ℤ
  pub shared_blks_written_delta : ℤ

pub record PeriodTopQueriesResult (F : Type 0) : Type 0 where
  pub db_identifier : String
  pub window : PeriodWindow
  pub snapshot_start_at : Option ℕ
  pub snapshot_end_at : Option ℕ
  pub sort_by : QuerySortBy
  pub limit : ℤ
  pub items : List (QueryDelta F)

pub record WeekOverWeekQueriesResult (F : Type 0) : Type 0 where
  pub db_identifier : String
  pub sort_by : QuerySortBy
  pub limit : ℤ
  pub current_week : PeriodTopQueriesResult F
  pub previous_week : PeriodTopQueriesResult F
