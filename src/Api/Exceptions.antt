-- ===== src/Api/Exceptions.antt =====
-- api/exceptions.py: the handlers that turn the program's errors into responses.
use pg_monitor.Prelude.{ℕ, String, none, some, if◌then◌else◌}
use pg_monitor.Prelude.Text.{Text}
use pg_monitor.Exn.{Exn, Result, ok, err, is_storage_error}
use pg_monitor.Api.Schemas.{PeriodTopQueriesResponse, WeekOverWeekQueriesResponse}
use pg_monitor.Api.Server.{ApiEvent, Server, Request, Response, log_api}

-- The content of a response.
pub data Body (F : Type 0) : Type 0 where
  period_top_queries : PeriodTopQueriesResponse F → Body F
  week_over_week : WeekOverWeekQueriesResponse F → Body F
  metrics : Text → Body F
  status : String → Body F
  detail : String → Body F
  -- FastAPI's own answer to a query that does not fit the endpoint's parameters
  invalid_query : Body F

-- The exceptions that have a handler.
pub data Handled : Type 0 where
  validation : String → Handled
  storage not_handled : Handled

unfoldable pub handler_of : Exn → Handled
handler_of (Exn.query_analytics_validation_error msg) = validation msg
handler_of e = if is_storage_error e then storage else not_handled

module _ {F : Type 0} where
  -- JSONResponse
  abbrev pub response : ℕ → Body F → Response (Body F)
  response status_code body = record { status_code = status_code; x_request_id = none; body = body }

  -- The context of the request has its identifier.
  unfoldable pub handle :
      Request → Text → Exn → Handled → Server F → Result (Response (Body F)) × Server F
  unfolding log_api
  handle request request_id e (validation msg) server = (
    ok (response 422 (detail msg)),
    log_api (some request_id)
        (ApiEvent.query_analytics_validation_error request.method request.url_path) server,
  )
  handle request request_id e storage server = (
    ok (response 503 (detail "storage is unavailable")),
    log_api (some request_id) (ApiEvent.storage_error request.method request.url_path) server,
  )
  handle request request_id e not_handled server = (err e, server)

  unfoldable pub handle_exceptions :
      Request → Text → Result (Body F) × Server F → Result (Response (Body F)) × Server F
  unfolding handler_of handle
  handle_exceptions request request_id (ok body, server) = (ok (response 200 body), server)
  handle_exceptions request request_id (err e, server) =
      handle request request_id e (handler_of e) server
