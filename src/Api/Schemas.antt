-- ===== src/Api/Schemas.antt =====
-- api/schemas/query_analytics.py: the responses to requests for query analytics.
use pg_monitor.Prelude.{ℕ, String, Option, List, if◌then◌else◌, map}
use pg_monitor.Prelude.Int.{ℤ}
use pg_monitor.Prelude.Eq.{String_eq, ◌=?◌}
use pg_monitor.Exn.{Result, ok, err, value_error, ◌>>=◌}
use pg_monitor.Analytics.Models.{
  QuerySortBy, total_exec_time_ms, calls, DateTime, QueryDelta, PeriodTopQueriesResult,
  WeekOverWeekQueriesResult,
}

pub data QuerySortByResponse : Type 0 where
  total_exec_time_ms_delta calls_delta : QuerySortByResponse

-- `sort_by.value`, and the lookup of a member by its value
unfoldable pub sort_value : QuerySortBy → String
sort_value total_exec_time_ms = "total_exec_time_ms_delta"
sort_value calls = "calls_delta"

unfoldable pub sort_by_response : String → Result QuerySortByResponse
sort_by_response value =
    if value =? "total_exec_time_ms_delta"
    then ok total_exec_time_ms_delta
    else if value =? "calls_delta"
    then ok calls_delta
    else err value_error

pub record QueryDeltaResponse (F : Type 0) : Type 0 where
  pub queryid : String
  pub dbid : ℤ
  pub userid : ℤ
  pub query : String
  pub calls_delta : ℤ
  pub total_exec_time_ms_delta : F
  pub mean_exec_time_ms_delta : Option F
  pub rows_delta : ℤ
  pub shared_blks_hit_delta : ℤ
  pub shared_blks_read_delta : ℤ
  pub shared_blks_dirtied_delta : ℤ
  pub shared_blks_written_delta : ℤ

pub record PeriodTopQueriesResponse (F : Type 0) : Type 0 where
  pub db_identifier : String
  pub window_start_at : DateTime
  pub window_end_at : DateTime
  pub snapshot_start_at : Option ℕ
  pub snapshot_end_at : Option ℕ
  pub sort_by : QuerySortByResponse
  pub limit : ℤ
  pub items : List (QueryDeltaResponse F)

pub record WeekOverWeekQueriesResponse (F : Type 0) : Type 0 where
  pub db_identifier : String
  pub sort_by : QuerySortByResponse
  pub limit : ℤ
  pub current_week : PeriodTopQueriesResponse F
  pub previous_week : PeriodTopQueriesResponse F

module _ {F : Type 0} where
  unfoldable pub to_delta_response : QueryDelta F → QueryDeltaResponse F
  to_delta_response item = record {
    queryid = item.queryid;
    dbid = item.dbid;
    userid = item.userid;
    query = item.query;
    calls_delta = item.calls_delta;
    total_exec_time_ms_delta = item.total_exec_time_ms_delta;
    mean_exec_time_ms_delta = item.mean_exec_time_ms_delta;
    rows_delta = item.rows_delta;
    shared_blks_hit_delta = item.shared_blks_hit_delta;
    shared_blks_read_delta = item.shared_blks_read_delta;
    shared_blks_dirtied_delta = item.shared_blks_dirtied_delta;
    shared_blks_written_delta = item.shared_blks_written_delta;
  }

  unfoldable pub to_period_response : PeriodTopQueriesResult F → Result (PeriodTopQueriesResponse F)
  unfolding sort_by_response sort_value to_delta_response
  to_period_response result = sort_by_response (sort_value result.sort_by) >>= λ by. ok (record {
    db_identifier = result.db_identifier;
    window_start_at = result.window.start_at;
    window_end_at = result.window.end_at;
    snapshot_start_at = result.snapshot_start_at;
    snapshot_end_at = result.snapshot_end_at;
    sort_by = by;
    limit = result.limit;
    items = map to_delta_response result.items;
  })

  unfoldable pub to_week_over_week_response :
      WeekOverWeekQueriesResult F → Result (WeekOverWeekQueriesResponse F)
  unfolding sort_by_response sort_value to_period_response
  to_week_over_week_response result = sort_by_response (sort_value result.sort_by) >>= λ by.
      to_period_response result.current_week >>= λ current_week.
      to_period_response result.previous_week >>= λ previous_week. ok (record {
        db_identifier = result.db_identifier;
        sort_by = by;
        limit = result.limit;
        current_week = current_week;
        previous_week = previous_week;
      })
