-- ===== src/Examples/Api.antt =====
-- Runs of the model of the API.
use pg_monitor.Prelude.{
  ℕ, ◌+◌, ◌-◌, ◌≤◌, ◌<◌, ◌≡◌, ◌⊎◌, refl, inr, String, true, false, Option, none, some, List, [],
  ◌∷◌, ◌++◌, filter, length, arith,
}
use pg_monitor.Prelude.Int.{ℤ, pos}
use pg_monitor.Prelude.Floats.{ℤ_floats}
use pg_monitor.Prelude.Text.{Text, codes}
use pg_monitor.Exn.{Exn, Result, ok, err, overflow_error, other_error, cancelled_error}
use pg_monitor.Analytics.Models.{instant, QuerySortBy, PeriodWindow}
use pg_monitor.Analytics.Window.Validity.{IsValid, Requested}
use pg_monitor.Metrics.Requests.Counts.{total, labels_for, fresh}
use pg_monitor.Api.Server.{Server, Request, Response}
use pg_monitor.Api.Middleware.{Call, request_context_middleware}
use pg_monitor.Api.Middleware.Runs.{
  is_http, serve_all, trace, entries_of, ends_with, Keeps, serve_all-accounts,
}
use pg_monitor.Api.Exceptions.{Body, response}
use pg_monitor.Api.Endpoints.{QueryParameters, fits_query}
use pg_monitor.Api.Endpoints.Answers.{
  Answered, Refused, weekly_body, weekly_result, weekly_top-Answered,
}
use pg_monitor.Api.Endpoints.Weeks.{weeks_body, weeks_result, week_over_week_endpoint-Answered}
use pg_monitor.Examples.Data.{by_count, calm_session, far_east}

abbrev server : Server ℤ
server = record {
  log = [];
  service_metrics = fresh;
  cached = false;
  dishka_container = some (ok tt);
  storage = calm_session;
}

abbrev get_request : String → Option Text → Request
get_request path x_request_id = record {
  method = codes "GET";
  url_path = codes path;
  x_request_id = x_request_id;
}

abbrev call_of : Option Text → Result (Response (Body ℤ)) → Call ℤ (Body ℤ)
call_of x_request_id result = record {
  request = get_request "/healthz" x_request_id;
  call_next = λ id server. record {
    result = result;
    server = server;
    route = some (some (codes "/healthz"));
  };
  fresh = codes "0f";
  elapsed = pos 3;
  duration_ms = pos 3000;
}

-- Answered, failed, cancelled, and answered again.
abbrev four_calls : List (Call ℤ (Body ℤ))
four_calls =
    call_of (some (codes " abc ")) (ok (response 200 (Body.status "ok")))
    ∷ call_of none (err other_error)
    ∷ call_of none (err cancelled_error)
    ∷ call_of none (ok (response 200 (Body.status "ok")))
    ∷ []

serve_all-accounts_example :
    let served = serve_all four_calls (server, none) in
    let seen = trace four_calls (server, none) in
    let labels = labels_for (codes "GET") (codes "/healthz") 200 in
    (total served.0.service_metrics labels
      ≡ total server.service_metrics labels
        + length (filter (ends_with (codes "GET") (codes "/healthz") 200) seen))
    × (filter is_http served.0.log ≡ filter is_http server.log ++ entries_of seen)
    × (served.1 ≡ none)
serve_all-accounts_example =
    serve_all-accounts four_calls server none (inr refl) (keeps, (keeps, (keeps, (keeps, tt))))
      (codes "GET") (codes "/healthz") 200
  where
    keeps : {x : Option Text} {r : Result (Response (Body ℤ))} → Keeps (call_of x r)
    keeps = record {
      keeps_metrics = λ s. refl;
      keeps_entries = λ s. refl;
      keeps_cached = λ s. refl;
    }

-- The identifier of the header, stripped, is that of the response.
answered_with_id :
    (request_context_middleware
      (call_of (some (codes " abc ")) (ok (response 200 (Body.status "ok"))))
      (server, none)).0
    ≡ ok (record (response 200 (Body.status "ok")) { x_request_id = some (codes "abc") })
unfolding request_context_middleware
answered_with_id = refl

-- Where the metrics cannot be had, the variable is not reset, and nothing is logged.
not_reset :
    request_context_middleware
      (call_of (some (codes "abc")) (ok (response 200 (Body.status "ok"))))
      (record server { dishka_container = none }, none)
    ≡ (err Exn.runtime_error, record server { dishka_container = none }, some (codes "abc"))
unfolding request_context_middleware
not_reset = refl

abbrev now : ℕ
now = 1_000_000_000_000

abbrev asked : ℕ → ℕ → QueryParameters
asked start end = record {
  db_identifier = "main";
  limit = pos 20;
  sort_by = QuerySortBy.calls;
  window_start_at = some (far_east start);
  window_end_at = some (far_east end);
}

fits_asked : fits_query (asked 100 200) ≡ true
unfolding fits_query
fits_asked = refl

weekly_top-Answered_example :
    ((window : PeriodWindow) × IsValid window
      × Requested (some (far_east 100)) (some (far_east 200)) none now window
      × Answered (weekly_body (asked 100 200) window calm_session) (
          weekly_result server refl
            (get_request "/" none)
            (codes "id")
            (codes "/")
            now
            (omega arith)
            (asked 100 200)))
    ⊎ (((window : PeriodWindow)
          → IsValid window
          → Requested (some (far_east 100)) (some (far_east 200)) none now window
          → ⊥)
        × Refused (
            weekly_result server refl
              (get_request "/" none)
              (codes "id")
              (codes "/")
              now
              (omega arith)
              (asked 100 200)))
weekly_top-Answered_example =
    weekly_top-Answered server refl (get_request "/" none) (codes "id") (codes "/") now
      (omega arith) (asked 100 200) fits_asked

week_over_week_endpoint-Answered_example :
    ((window : PeriodWindow) × IsValid window
      × Requested (some (far_east 100)) (some (far_east 200)) none now window
      × (instant window.end_at - instant window.start_at ≤ window.start_at.local)
      × Answered (weeks_body (asked 100 200) window calm_session) (
          weeks_result server refl
            (get_request "/" none)
            (codes "id")
            (codes "/")
            now
            (omega arith)
            (asked 100 200)))
    ⊎ (((window : PeriodWindow)
          → IsValid window
          → Requested (some (far_east 100)) (some (far_east 200)) none now window
          → ⊥)
        × Refused (
            weeks_result server refl
              (get_request "/" none)
              (codes "id")
              (codes "/")
              now
              (omega arith)
              (asked 100 200)))
    ⊎ ((window : PeriodWindow) × IsValid window
        × Requested (some (far_east 100)) (some (far_east 200)) none now window
        × (window.start_at.local < instant window.end_at - (instant window.start_at))
        × (weeks_result server refl
              (get_request "/" none)
              (codes "id")
              (codes "/")
              now
              (omega arith)
              (asked 100 200)
            ≡ err overflow_error))
week_over_week_endpoint-Answered_example =
    week_over_week_endpoint-Answered server refl (get_request "/" none) (codes "id") (codes "/") now
      (omega arith) (asked 100 200) fits_asked
