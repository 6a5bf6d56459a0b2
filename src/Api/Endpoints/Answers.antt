-- ===== src/Api/Endpoints/Answers.antt =====
-- What the endpoints of query analytics answer.
use pg_monitor.Prelude.{
  ℕ, ◌≡◌, ◌≤◌, ◌-◌, refl, sym, ap, ◌∙◌, subst, ◌⊎◌, ◌↔◌, inl, inr, String, Option, none, some, [],
  map, Bool-cases, leb, true, false, ltb, arith,
}
use pg_monitor.Prelude.Eq.{String_eq}
use pg_monitor.Prelude.Floats.{Floats}
use pg_monitor.Prelude.Text.{Text}
use pg_monitor.Exn.{Exn, Result, ok, err, query_analytics_validation_error}
use pg_monitor.Storage.Session.{Session, Db, continue, pure, ◌>>=◌}
use pg_monitor.Storage.Uow.Atomicity.{left}
use pg_monitor.Storage.Queries.Latest.{Collation}
use pg_monitor.Analytics.Models.{
  instant, QuerySortBy, DateTime, PeriodWindow, period_window, PeriodTopQueriesResult,
  WeekOverWeekQueriesResult,
}
use pg_monitor.Analytics.Window.{
  week, utc, resolve_current_window, default_window, validate_period_request, earlier,
}
use pg_monitor.Analytics.Window.Validity.{IsValid, Requested, resolve_current_window-exact}
use pg_monitor.Analytics.Service.{lift}
use pg_monitor.Analytics.Service.Readers.{repository, load_bulk}
use pg_monitor.Analytics.Service.Weeks.{period_answer, weekly_calm}
use pg_monitor.Api.Schemas.{
  QuerySortByResponse, PeriodTopQueriesResponse, WeekOverWeekQueriesResponse, sort_value,
  sort_by_response, to_delta_response, to_period_response, to_week_over_week_response,
}
use pg_monitor.Api.Server.{Server, Request, Response}
use pg_monitor.Api.Exceptions.{
  Body, period_top_queries, detail, response, handler_of, handle, handle_exceptions,
}
use pg_monitor.Api.Endpoints.{QueryParameters, fits_query, weekly_top, run_endpoint, route_to}

-- The member of the response for a sort order.
abbrev shown_sort : QuerySortBy → QuerySortByResponse
shown_sort QuerySortBy.total_exec_time_ms = QuerySortByResponse.total_exec_time_ms_delta
shown_sort QuerySortBy.calls = QuerySortByResponse.calls_delta

sort_lem : (by : QuerySortBy) → sort_by_response (sort_value by) ≡ ok (shown_sort by)
unfolding sort_by_response sort_value
sort_lem QuerySortBy.total_exec_time_ms = refl
sort_lem QuerySortBy.calls = refl

module _ {F : Type 0} where
  -- A result as the API shows it.
  abbrev pub shown_period : PeriodTopQueriesResult F → PeriodTopQueriesResponse F
  shown_period result = record {
    db_identifier = result.db_identifier;
    window_start_at = result.window.start_at;
    window_end_at = result.window.end_at;
    snapshot_start_at = result.snapshot_start_at;
    snapshot_end_at = result.snapshot_end_at;
    sort_by = shown_sort result.sort_by;
    limit = result.limit;
    items = map to_delta_response result.items;
  }

  abbrev pub shown_weeks : WeekOverWeekQueriesResult F → WeekOverWeekQueriesResponse F
  shown_weeks result = record {
    db_identifier = result.db_identifier;
    sort_by = shown_sort result.sort_by;
    limit = result.limit;
    current_week = shown_period result.current_week;
    previous_week = shown_period result.previous_week;
  }

  to_period_lem :
      (result : PeriodTopQueriesResult F) → to_period_response result ≡ ok (shown_period result)
  unfolding to_period_response
  to_period_lem result = rw (sort_lem result.sort_by)

  pub to_weeks_lem :
      (result : WeekOverWeekQueriesResult F)
      → to_week_over_week_response result ≡ ok (shown_weeks result)
  unfolding to_week_over_week_response
  to_weeks_lem result = rw (
    sort_lem result.sort_by,
    to_period_lem result.current_week,
    to_period_lem result.previous_week,
  )

-- What is refused is refused with a validation error.
abbrev pub OrRefused : Result PeriodWindow → Type 0
OrRefused (ok window) = Unit
OrRefused (err (query_analytics_validation_error msg)) = Unit
OrRefused (err _) = ⊥

pub not_both : {e : Exn} {window : PeriodWindow} → err e ≡ ok window → ⊥
not_both e = cc

pub from_refusal :
    (e : Exn) → OrRefused (err e) → (msg : String) × (e ≡ query_analytics_validation_error msg)
from_refusal (query_analytics_validation_error msg) h = (msg, refl)
from_refusal _ h = absurd h

period_window-OrRefused : (start end : DateTime) → OrRefused (period_window start end)
unfolding period_window
period_window-OrRefused start end = elim (Bool-cases start.aware) [
  | inr f ↦ rw f tt
  | inl t ↦ elim (Bool-cases end.aware) [
    | inr f ↦ rw (t, f) tt
    | inl u ↦ elim (Bool-cases (leb (instant end) (instant start))) [
      | inl o ↦ rw (t, u, o) tt
      | inr o ↦ rw (t, u, o) tt
    ]
  ]
]

pub window-OrRefused :
    (start end : Option DateTime) (clock : ℕ)
    → week ≤ clock
    → OrRefused (resolve_current_window start end none clock)
unfolding resolve_current_window default_window earlier
window-OrRefused (some start) (some end) clock h = period_window-OrRefused start end
window-OrRefused none none clock h =
    let late : ltb clock week ≡ false = ground arith in
    rw late (period_window-OrRefused (record (utc clock) { local = clock - week }) (utc clock))
window-OrRefused (some start) none clock h = tt
window-OrRefused none (some end) clock h = tt

module _ {F : Type 0} where
  pub handled_any :
      (path : Text) (endpoint : Db F (Body F)) (request : Request) (request_id : Text)
      (server : Server F) (m : Result (Body F) × Session F)
      → endpoint server.storage ≡ m
      → (route_to path true endpoint request request_id server).result
        ≡ (handle_exceptions request request_id (m.0, record server { storage = m.1 })).0
  unfolding route_to run_endpoint
  handled_any path endpoint request request_id server m e = rw e

  -- The answer 200 with a content, and the answer 422 with a message.
  abbrev pub Answered : Body F → Result (Response (Body F)) → Type 0
  Answered body r = r ≡ ok (response 200 body)

  abbrev pub Refused : Result (Response (Body F)) → Type 0
  Refused r = (msg : String) × (r ≡ ok (response 422 (detail msg)))

pub fits_parts :
    (q : QueryParameters)
    → fits_query q ≡ true
    → validate_period_request q.db_identifier q.limit ≡ ok tt
unfolding fits_query validate_period_request
fits_parts q h = ground arith

module _ {F X : Type 0} where
  -- What is made of a window is shown.
  period_shown :
      (r : Result X) (result : X → Session F → PeriodTopQueriesResult F) (s : Session F)
      → let m = continue r (λ x s. (ok (result x s), left s)) s in
        continue m.0
          (λ result.
            lift (to_period_response result) >>= λ answer. pure (period_top_queries answer))
          m.1
        ≡ continue r (λ x s. (ok (period_top_queries (shown_period (result x s))), left s)) s
  period_shown (ok x) result s = rw (to_period_lem (result x s))
  period_shown (err e) result s = refl

  -- The result behind the middleware of an endpoint whose query fits.
  handled :
      (path : Text) (endpoint : Db F (Body F)) (request : Request) (request_id : Text)
      (server : Server F) (r : Result X) (body : X → Session F → Body F)
      → endpoint server.storage ≡ continue r (λ x s. (ok (body x s), left s)) server.storage
      → (route_to path true endpoint request request_id server).result
        ≡ (handle_exceptions request request_id (
            let m = continue r (λ x s. (ok (body x s), left s)) server.storage in
            (m.0, record server { storage = m.1 }))).0
  unfolding route_to run_endpoint
  handled path endpoint request request_id server r body e = rw e

module _ {F : Type 0} ⦃c : Collation⦄ ⦃f : Floats F⦄ where
  -- The ranking of a window, from what is committed.
  abbrev pub weekly_body : QueryParameters → PeriodWindow → Session F → Body F
  weekly_body q window s =
      period_top_queries
        (shown_period (period_answer q.db_identifier window q.limit q.sort_by s.committed))

module _ {F : Type 0} ⦃c : Collation⦄ ⦃f : Floats F⦄ (server : Server F)
    (calm : server.storage.faults ≡ []) (request : Request) (request_id path : Text) (clock : ℕ)
    (late : week ≤ clock) where
  -- The result behind the middleware, with the reader of the repository.
  abbrev pub weekly_result : QueryParameters → Result (Response (Body F))
  weekly_result q =
      (route_to path (fits_query q) (weekly_top repository clock q) request request_id
        server).result

  weekly_lem :
      (q : QueryParameters)
      → fits_query q ≡ true
      → let s = server.storage in
        weekly_top repository clock q s
        ≡ continue
            (resolve_current_window q.window_start_at q.window_end_at none clock)
            (λ window s. (ok (weekly_body q window s), left s))
            s
  unfolding weekly_top
  weekly_lem q h =
      rw
        (
          weekly_calm repository load_bulk q.db_identifier q.limit q.sort_by q.window_start_at
              q.window_end_at none clock server.storage calm,
          fits_parts q h,
        )
        (period_shown (resolve_current_window q.window_start_at q.window_end_at none clock)
          (λ window s. period_answer q.db_identifier window q.limit q.sort_by s.committed)
          server.storage)

  -- With a query that fits its parameters, on a session whose statements succeed and a clock past the first week, a
  -- request for the top queries of a week is answered with 200 and the ranking of the window that it asks for, if
  -- that window is valid, and otherwise with 422 and a message; nothing escapes the handlers.
  pub weekly_top-Answered :
      (q : QueryParameters)
      → fits_query q ≡ true
      → ((window : PeriodWindow) × IsValid window
          × Requested q.window_start_at q.window_end_at none clock window
          × Answered (weekly_body q window server.storage) (weekly_result q))
        ⊎ (((window : PeriodWindow)
              → IsValid window
              → Requested q.window_start_at q.window_end_at none clock window
              → ⊥)
            × Refused (weekly_result q))
  unfolding handle_exceptions handle handler_of
  weekly_top-Answered q h =
      cases (resolve_current_window q.window_start_at q.window_end_at none clock) refl
    where
      exact :
          (w : PeriodWindow)
          → (resolve_current_window q.window_start_at q.window_end_at none clock ≡ ok w)
            ↔ (IsValid w × Requested q.window_start_at q.window_end_at none clock w)
      exact w = resolve_current_window-exact q.window_start_at q.window_end_at none clock w

      result_is :
          (r : Result PeriodWindow)
          → resolve_current_window q.window_start_at q.window_end_at none clock ≡ r
          → weekly_result q
            ≡ (handle_exceptions request request_id (
                let m =
                  continue r (λ window s. (ok (weekly_body q window s), left s)) server.storage in
                (m.0, record server { storage = m.1 }))).0
      result_is r e =
          ap
            (λ b.
              (route_to path b (weekly_top repository clock q) request request_id server).result)
            h
          ∙ handled path (weekly_top repository clock q) request request_id server r (weekly_body q)
              (weekly_lem q h
                ∙ ap
                    (λ r.
                      continue r (λ window s. (ok (weekly_body q window s), left s)) server.storage)
                    e)

      cases :
          (r : Result PeriodWindow)
          → resolve_current_window q.window_start_at q.window_end_at none clock ≡ r
          → ((window : PeriodWindow) × IsValid window
              × Requested q.window_start_at q.window_end_at none clock window
              × Answered (weekly_body q window server.storage) (weekly_result q))
            ⊎ (((window : PeriodWindow)
                  → IsValid window
                  → Requested q.window_start_at q.window_end_at none clock window
                  → ⊥)
                × Refused (weekly_result q))
      cases (ok window) e =
          let (v, a) = (exact window).0 e in inl (window, v, a, result_is (ok window) e)
      cases (err ex) e =
          let (msg, is) =
            from_refusal ex
              (subst OrRefused e (window-OrRefused q.window_start_at q.window_end_at clock late)) in
          inr (
            λ window v a. absurd (not_both (sym e ∙ (exact window).1 (v, a))),
            (
              msg,
              result_is (err ex) e
                  ∙ ap (λ x. (handle request request_id x (handler_of x) server).0) is,
            ),
          )
