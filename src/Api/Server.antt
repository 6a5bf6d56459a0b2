-- ===== src/Api/Server.antt =====
-- The state of the API that its requests share, and requests and responses as the middleware sees them.
use pg_monitor.Prelude.{ℕ, Option, List, Bool, [], ◌∷◌, ◌++◌}
use pg_monitor.Prelude.Int.{ℤ}
use pg_monitor.Prelude.Text.{Text}
use pg_monitor.Exn.{Result}
use pg_monitor.Storage.Session.{Session}
use pg_monitor.Metrics.Requests.{ServiceMetrics}

-- The log entries of api/middleware.py, with method, path and duration, and of api/exceptions.py.
pub data ApiEvent : Type 0 where
  http_request_completed : Text → Text → ℕ → ℤ → ApiEvent
  http_request_failed : Text → Text → ℤ → ApiEvent
  query_analytics_validation_error storage_error : Text → Text → ApiEvent

pub record ApiEntry : Type 0 where
  pub event : ApiEvent
  pub request_id : Option Text

pub record Server (F : Type 0) : Type 0 where
  pub log : List ApiEntry
  pub service_metrics : ServiceMetrics F
  -- Whether `app.state.service_metrics` is set; it is the one of the container.
  pub cached : Bool
  -- What `app.state.dishka_container`, if it is there, answers to `get(ServiceMetrics)`.
  pub dishka_container : Option (Result (Unit {0}))
  pub storage : Session F

pub record Request : Type 0 where
  pub method : Text
  pub url_path : Text
  -- the header X-Request-ID
  pub x_request_id : Option Text

pub record Response (B : Type 0) : Type 0 where
  pub status_code : ℕ
  -- the header X-Request-ID
  pub x_request_id : Option Text
  pub body : B

-- What the application behind the middleware leaves: its result, the shared state, and the route of the
-- request's scope, with its attribute `path`.
pub record Inner (F B : Type 0) : Type 0 where
  pub result : Result (Response B)
  pub server : Server F
  pub route : Option (Option Text)

unfoldable pub log_api : {F : Type 0} → Option Text → ApiEvent → Server F → Server F
log_api request_id event server = record server {
  log = server.log ++ record { event = event; request_id = request_id } ∷ [];
}
