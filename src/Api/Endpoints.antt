-- ===== src/Api/Endpoints.antt =====
-- The endpoints: api/query_analytics.py, api/metrics.py and api/health.py. FastAPI checks the parameters of a
-- query before it calls an endpoint; its answer to those that do not fit is its own.
pub mod Answers
pub mod Weeks
use pg_monitor.Prelude.{
  ℕ, String, Option, none, some, List, Bool, true, false, not, ◌&&◌, if◌then◌else◌,
}
use pg_monitor.Prelude.Int.{ℤ, pos, leb_ℤ}
use pg_monitor.Prelude.Eq.{String_eq, ◌=?◌}
use pg_monitor.Prelude.Floats.{Floats}
use pg_monitor.Prelude.Text.{Text, codes}
use pg_monitor.Exn.{Result, ok, err}
use pg_monitor.Storage.Session.{Db, pure, ◌>>=◌}
use pg_monitor.Storage.Queries.Latest.{Collation}
use pg_monitor.Analytics.Models.{QuerySortBy, DateTime}
use pg_monitor.Analytics.Service.{
  QuerySnapshotReader, lift, get_weekly_top_queries, get_week_over_week_queries,
}
use pg_monitor.Metrics.Models.{RuntimeMetricsState, Numbers}
use pg_monitor.Metrics.Service.{get_metrics_state}
use pg_monitor.Api.Schemas.{to_period_response, to_week_over_week_response}
use pg_monitor.Api.Server.{Server, Request, Response, Inner}
use pg_monitor.Api.Exceptions.{
  Body, period_top_queries, week_over_week, metrics, status, invalid_query, response,
  handle_exceptions,
}

-- The parameters of the two endpoints of query analytics.
pub record QueryParameters : Type 0 where
  pub db_identifier : String
  pub limit : ℤ
  pub sort_by : QuerySortBy
  pub window_start_at : Option DateTime
  pub window_end_at : Option DateTime

-- `min_length=1`, `ge=1` and `le=200`
unfoldable pub fits_query : QueryParameters → Bool
fits_query q = not (q.db_identifier =? "") && leb_ℤ (pos 1) q.limit && leb_ℤ q.limit (pos 200)

-- `min_length=1`, where the parameter is given
unfoldable pub fits_identifier : Option String → Bool
fits_identifier none = true
fits_identifier (some db_identifier) = not (db_identifier =? "")

module _ {F : Type 0} where
  module _ ⦃f : Floats F⦄ (reader : QuerySnapshotReader F) (clock : ℕ) where
    unfoldable pub weekly_top : QueryParameters → Db F (Body F)
    weekly_top q = do
      result ←
          get_weekly_top_queries reader q.db_identifier q.limit q.sort_by q.window_start_at
            q.window_end_at none clock
      answer ← lift (to_period_response result)
      pure (period_top_queries answer)

    unfoldable pub week_over_week_endpoint : QueryParameters → Db F (Body F)
    week_over_week_endpoint q = do
      result ←
          get_week_over_week_queries reader q.db_identifier q.limit q.sort_by q.window_start_at
            q.window_end_at none clock
      answer ← lift (to_week_over_week_response result)
      pure (week_over_week answer)

  -- get_metrics; `render` is that of the exporter, and the clock is read after the states are.
  unfoldable pub get_metrics :
      ⦃c : Collation⦄
      → (List (RuntimeMetricsState F) → ℕ → Text)
      → ℕ
      → Option String
      → Db F (Body F)
  unfolding get_metrics_state
  get_metrics render clock db_identifier = do
    states ← get_metrics_state db_identifier
    pure (metrics (render states clock))

  -- healthz
  unfoldable pub healthz : Db F (Body F)
  healthz = pure (status "ok")

  run_endpoint : Request → Text → Db F (Body F) → Server F → Result (Response (Body F)) × Server F
  unfolding handle_exceptions
  run_endpoint request request_id endpoint server =
      let (result, storage) = endpoint server.storage in
      handle_exceptions request request_id (result, record server { storage = storage })

  -- The application behind the middleware, on the route of an endpoint: its parameters are checked, it runs on
  -- the storage, and its errors are handled.
  unfoldable pub route_to :
      Text → Bool → Db F (Body F) → Request → Text → Server F → Inner F (Body F)
  unfolding run_endpoint
  route_to path fits endpoint request request_id server =
      let answered = run_endpoint request request_id endpoint server in
      let (result, server') =
        if fits then answered else (ok (response 422 invalid_query), server) in
      record { result = result; server = server'; route = some (some path) }
