-- ===== src/Api/Middleware.antt =====
-- api/middleware.py: the identifier of a request, its log entry and its metrics. The context variable
-- `request_id` is a state of its own; the application behind the middleware runs in a copy of the context.
pub mod Runs
use pg_monitor.Prelude.{ℕ, Option, none, some, List, [], ◌∷◌, Bool, true, false, if◌then◌else◌}
use pg_monitor.Prelude.Int.{ℤ}
use pg_monitor.Prelude.Floats.{Floats}
use pg_monitor.Prelude.Text.{Text, codes, strip}
use pg_monitor.Exn.{Result, ok, err, runtime_error, is_exception}
use pg_monitor.Metrics.Requests.{Observation, observe_http_request}
use pg_monitor.Api.Server.{
  ApiEvent, http_request_completed, http_request_failed, Server, Request, Response, Inner, log_api,
}

-- `route.path` of the route of the scope, or the label of requests that match none.
unfoldable pub resolve_metrics_path : Option (Option Text) → Text
resolve_metrics_path (some (some (c ∷ path))) = c ∷ path
resolve_metrics_path _ = codes "/__unmatched__"

or_empty : Option Text → Text
or_empty none = []
or_empty (some header) = header

or_fresh : Text → Text → Text
or_fresh [] fresh = fresh
or_fresh (c ∷ incoming) fresh = c ∷ incoming

-- `(request.headers.get("X-Request-ID") or "").strip() or uuid4().hex`
unfoldable pub request_id_of : Request → Text → Text
unfolding or_empty or_fresh strip
request_id_of request fresh = or_fresh (strip (or_empty request.x_request_id)) fresh

-- The variable gets a value, and the token holds the old one.
unfoldable pub set_request_id : Text → Option Text → Option Text × Option Text
set_request_id value variable = (variable, some value)

unfoldable pub reset_request_id : Option Text → Option Text → Option Text
reset_request_id token variable = token

module _ {F : Type 0} where
  from_container : Option (Result (Unit {0})) → Server F → Result (Unit {0}) × Server F
  from_container none server = (err runtime_error, server)
  from_container (some (err e)) server = (err e, server)
  from_container (some (ok tt)) server = (ok tt, record server { cached = true })

  -- _get_service_metrics
  unfoldable pub get_service_metrics : Server F → Result (Unit {0}) × Server F
  unfolding from_container
  get_service_metrics server =
      let asked = from_container server.dishka_container server in
      if server.cached then (ok tt, server) else asked

-- One call of the middleware: the request, the application behind it, `uuid4().hex`, and the time that the request
-- takes, in seconds and as `int(elapsed * 1000)`.
pub record Call (F B : Type 0) : Type 0 where
  pub request : Request
  pub call_next : Text → Server F → Inner F B
  pub fresh : Text
  pub elapsed : F
  pub duration_ms : ℤ

module _ {F B : Type 0} ⦃f : Floats F⦄ where
  unfoldable pub observed : Call F B → Inner F B → ℕ → Observation F
  unfolding resolve_metrics_path
  observed call inner status = record {
    method = call.request.method;
    path = resolve_metrics_path inner.route;
    status_code = status;
    duration_seconds = call.elapsed;
  }

  note : Call F B → Inner F B → ApiEvent → ℕ → Option Text → Server F
  unfolding log_api observed observe_http_request
  note call inner event status variable =
      let logged = log_api variable event inner.server in
      record logged {
        service_metrics = observe_http_request (observed call inner status) logged.service_metrics;
      }

  -- The `try` and the `except Exception`, with the variable as it is.
  unfoldable pub end_request :
      Call F B
      → Inner F B
      → Option Text
      → Text
      → Result (Response B)
      → Result (Response B) × Server F
  unfolding note
  end_request call inner variable request_id (ok response) = (
    ok (record response { x_request_id = some request_id }),
    note call inner
        (http_request_completed call.request.method call.request.url_path response.status_code
          call.duration_ms)
        response.status_code variable,
  )
  end_request call inner variable request_id (err e) = (
    err e,
    if is_exception e
        then note call inner
            (http_request_failed call.request.method call.request.url_path call.duration_ms) 500
            variable
        else inner.server,
  )

  unfoldable pub after_metrics :
      Call F B
      → Text
      → Option Text
      → Option Text
      → Result (Unit {0}) × Server F
      → Result (Response B) × Server F × Option Text
  unfolding end_request reset_request_id
  after_metrics call request_id token variable (err e, server) = (err e, server, variable)
  after_metrics call request_id token variable (ok _, server) =
      let inner = call.call_next request_id server in
      let (result, server') = end_request call inner variable request_id inner.result in
      (result, server', reset_request_id token variable)

  -- The state is the server and the context variable.
  unfoldable pub request_context_middleware :
      Call F B → Server F × Option Text → Result (Response B) × Server F × Option Text
  unfolding request_id_of set_request_id get_service_metrics after_metrics
  request_context_middleware call (server, variable) =
      let request_id = request_id_of call.request call.fresh in
      let (token, set) = set_request_id request_id variable in
      after_metrics call request_id token set (get_service_metrics server)
