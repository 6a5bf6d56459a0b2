-- ===== src/Api/Middleware/Runs.antt =====
-- What the middleware leaves after any requests.
use mathlib.Core.List.{append_assoc, append-nil}
use pg_monitor.Prelude.{
  ℕ, ◌+◌, ◌≡◌, refl, sym, ap, ◌∙◌, subst, ◌⊎◌, inl, inr, Option, none, some, List, [], ◌∷◌, ◌++◌,
  Bool, true, false, ◌&&◌, if◌then◌else◌, Bool-cases, filter, length, All, arith,
}
use pg_monitor.Prelude.Eq.{ℕ_eq, List_eq, ◌=?◌}
use pg_monitor.Prelude.Floats.{Floats}
use pg_monitor.Prelude.Text.{Text}
use pg_monitor.Exn.{Result, ok, err, is_exception}
use pg_monitor.Metrics.Requests.{Observation, ServiceMetrics, observe_http_request}
use pg_monitor.Metrics.Requests.Counts.{observe_all, total, labels_for, is_of, totals}
use pg_monitor.Api.Server.{
  http_request_completed, http_request_failed, query_analytics_validation_error, storage_error,
  ApiEntry, Server, Response, Inner, log_api,
}
use pg_monitor.Api.Middleware.{
  Call, resolve_metrics_path, request_id_of, get_service_metrics, observed, note, end_request,
  after_metrics, request_context_middleware,
}

-- The entries of the middleware in a log.
abbrev pub is_http : ApiEntry → Bool
is_http entry = elim entry.event [
  | http_request_completed method path status ms ↦ true
  | http_request_failed method path ms ↦ true
  | query_analytics_validation_error method path ↦ false
  | storage_error method path ↦ false
]

filter-append :
    {A : Type 0} (p : A → Bool) (xs ys : List A) → filter p (xs ++ ys) ≡ filter p xs ++ filter p ys
filter-append p [] ys = refl
filter-append p (x ∷ xs) ys = elim (Bool-cases (p x)) [
  | inl t ↦ rw t (ap (◌∷◌ x) (filter-append p xs ys))
  | inr f ↦ rw f (filter-append p xs ys)
]

module _ {F : Type 0} where
  -- The server that the application behind the middleware meets.
  abbrev pub served : Server F → Server F
  served server = record server { cached = true }

  -- The metrics can be had: they are cached, or the container has them.
  abbrev pub Available : Server F → Type 0
  Available server = (server.cached ≡ true) ⊎ (server.dishka_container ≡ some (ok tt))

  cached_lem :
      (server : Server F)
      → server.cached ≡ true
      → get_service_metrics server ≡ (ok tt, served server)
  unfolding get_service_metrics
  cached_lem server c =
      subst (λ b. get_service_metrics (record server { cached = b }) ≡ (ok tt, served server))
        (sym c) refl

  available_lem :
      (server : Server F) → Available server → get_service_metrics server ≡ (ok tt, served server)
  unfolding get_service_metrics
  available_lem server (inl c) = cached_lem server c
  available_lem server (inr c) = elim (Bool-cases server.cached) [
    | inl t ↦ cached_lem server t
    | inr g ↦ rw (c, g)
  ]

module _ {F : Type 0} ⦃f : Floats F⦄ where
  observe_all-append :
      (xs ys : List (Observation F)) (m : ServiceMetrics F)
      → observe_all (xs ++ ys) m ≡ observe_all ys (observe_all xs m)
  unfolding observe_all
  observe_all-append [] ys m = refl
  observe_all-append (x ∷ xs) ys m = observe_all-append xs ys (observe_http_request x m)

module _ {B : Type 0} where
  -- The status that a call ends with, a response's or that of an error; none if it is cancelled.
  abbrev pub status_of : Result (Response B) → Option ℕ
  status_of (ok response) = some response.status_code
  status_of (err e) = if is_exception e then some 500 else none

module _ {F B : Type 0} where
  -- The identifier of a call, and what the application behind the middleware leaves.
  abbrev pub id_of : Call F B → Text
  id_of call = request_id_of call.request call.fresh

  abbrev pub inner_of : Call F B → Server F → Inner F B
  inner_of call server = call.call_next (id_of call) (served server)

  -- The entry that a call is to leave.
  abbrev pub entry_of : Call F B → Result (Response B) → List ApiEntry
  entry_of call (ok response) =
      record {
        event =
            http_request_completed call.request.method call.request.url_path response.status_code
              call.duration_ms;
        request_id = some (id_of call);
      }
      ∷ []
  entry_of call (err e) =
      if is_exception e
      then record {
        event = http_request_failed call.request.method call.request.url_path call.duration_ms;
        request_id = some (id_of call);
      }
        ∷ []
      else []

  -- The application behind the middleware leaves its metrics and its entries alone, and the state of the application.
  pub record Keeps (call : Call F B) : Type 0 where
    pub keeps_metrics :
        (server : Server F) → (inner_of call server).server.service_metrics ≡ server.service_metrics
    pub keeps_entries :
        (server : Server F)
        → filter is_http (inner_of call server).server.log ≡ filter is_http server.log
    pub keeps_cached : (server : Server F) → (inner_of call server).server.cached ≡ true

module _ {F B : Type 0} ⦃f : Floats F⦄ where
  abbrev observations_of : Call F B → Inner F B → Option ℕ → List (Observation F)
  observations_of call inner none = []
  observations_of call inner (some status) = observed call inner status ∷ []

  -- What the end of a request adds to what the application left.
  end_request-adds :
      (call : Call F B) (inner : Inner F B) (r : Result (Response B))
      → let server = (end_request call inner (some (id_of call)) (id_of call) r).1 in
        (server.service_metrics
          ≡ observe_all (observations_of call inner (status_of r)) inner.server.service_metrics)
        × (filter is_http server.log ≡ filter is_http inner.server.log ++ entry_of call r)
        × (server.cached ≡ inner.server.cached)
  unfolding end_request note log_api observe_all
  end_request-adds call inner (ok response) = (refl, filter-append is_http inner.server.log _, refl)
  end_request-adds call inner (err e) = elim (Bool-cases (is_exception e)) [
    | inl t ↦ rw t (refl, filter-append is_http inner.server.log _, refl)
    | inr g ↦ rw g (refl, sym (append-nil _), refl)
  ]

  -- The server after a call; the variable is as it was.
  middleware_lem :
      (call : Call F B) (server : Server F) (variable : Option Text)
      → Available server
      → let inner = inner_of call server in
        (request_context_middleware call (server, variable)).1
        ≡ (end_request call inner (some (id_of call)) (id_of call) inner.result).1
  unfolding request_context_middleware after_metrics
  middleware_lem call server variable h = rw (available_lem server h)

  variable_lem :
      (call : Call F B) (server : Server F) (variable : Option Text)
      → Available server
      → (request_context_middleware call (server, variable)).2 ≡ variable
  unfolding request_context_middleware after_metrics
  variable_lem call server variable h = rw (available_lem server h)

  -- Calls one after another.
  unfoldable pub serve_all : List (Call F B) → Server F × Option Text → Server F × Option Text
  serve_all [] state = state
  serve_all (call ∷ calls) state =
      let (result, server, variable) = request_context_middleware call state in
      serve_all calls (server, variable)

  -- The calls with what the application behind the middleware leaves at each.
  unfoldable pub trace : List (Call F B) → Server F × Option Text → List (Call F B × Inner F B)
  trace [] state = []
  trace (call ∷ calls) state =
      (call, inner_of call state.0)
      ∷ trace calls
          ((request_context_middleware call state).1, (request_context_middleware call state).2)

  abbrev pub entries_of : List (Call F B × Inner F B) → List ApiEntry
  entries_of [] = []
  entries_of ((call, inner) ∷ rest) = entry_of call inner.result ++ entries_of rest

  abbrev observations : List (Call F B × Inner F B) → List (Observation F)
  observations [] = []
  observations ((call, inner) ∷ rest) =
      observations_of call inner (status_of inner.result) ++ observations rest

  -- Whether a call had the method, its route the path, and its end the status.
  abbrev pub ends_with : Text → Text → ℕ → Call F B × Inner F B → Bool
  ends_with method path status (call, inner) =
      (call.request.method =? method)
      && (resolve_metrics_path inner.route =? path)
      && elim (status_of inner.result) [ none ↦ false | some st ↦ st =? status ]

  serve_all-adds :
      (calls : List (Call F B)) (server : Server F) (variable : Option Text)
      → Available server
      → All Keeps calls
      → let served = serve_all calls (server, variable) in
        let seen = trace calls (server, variable) in
        (served.0.service_metrics ≡ observe_all (observations seen) server.service_metrics)
        × (filter is_http served.0.log ≡ filter is_http server.log ++ entries_of seen)
        × (served.1 ≡ variable)
  unfolding serve_all trace observe_all
  serve_all-adds [] server variable h k = (refl, sym (append-nil _), refl)
  serve_all-adds (call ∷ calls) server variable h k =
      let inner = inner_of call server in
      let next = request_context_middleware call (server, variable) in
      let e = middleware_lem call server variable h in
      let (m, l, c) = end_request-adds call inner inner.result in
      let K = k.0 in
      let now = observations_of call inner (status_of inner.result) in
      let later = trace calls (next.1, next.2) in
      let cached = ap (λ s. s.cached) e ∙ c ∙ K.keeps_cached server in
      let (ms, ls, vs) = serve_all-adds calls next.1 next.2 (inl cached) k.1 in
      (
        ms
            ∙ ap (observe_all (observations later))
                (ap (λ s. s.service_metrics) e ∙ m ∙ ap (observe_all now) (K.keeps_metrics server))
            ∙ sym (observe_all-append now (observations later) server.service_metrics),
        ls
            ∙ ap (λ l. l ++ entries_of later)
                (ap (λ s. filter is_http s.log) e
                  ∙ l
                  ∙ ap (λ l. l ++ entry_of call inner.result) (K.keeps_entries server))
            ∙ append_assoc (filter is_http server.log) (entry_of call inner.result)
                (entries_of later),
        vs ∙ variable_lem call server variable h,
      )

  length-observations :
      (method path : Text) (status : ℕ) (seen : List (Call F B × Inner F B))
      → length (filter (is_of method path status) (observations seen))
        ≡ length (filter (ends_with method path status) seen)
  unfolding observed
  length-observations method path status [] = refl
  length-observations method path status ((call, inner) ∷ rest) =
      step (status_of inner.result) (length-observations method path status rest)
    where
      step :
          (o : Option ℕ)
          → length (filter (is_of method path status) (observations rest))
            ≡ length (filter (ends_with method path status) rest)
          → length (
              filter (is_of method path status) (observations_of call inner o ++ observations rest))
            ≡ length (
                if (call.request.method =? method)
                  && (resolve_metrics_path inner.route =? path)
                  && elim o [ none ↦ false | some st ↦ st =? status ]
                then (call, inner) ∷ filter (ends_with method path status) rest
                else filter (ends_with method path status) rest)
      step none e = ground arith
      step (some st) e = ground arith

  -- If the metrics can be had and the application behind the middleware leaves them and the middleware's entries
  -- alone, then after any calls: the counter of a method, a path and a status has grown by the number of the calls with
  -- that method, a route with that path and that status, an error that is an Exception being 500 and a cancelled call
  -- none; the log has grown by one entry for each call that was not cancelled, in order, with the call's own
  -- identifier; and the variable is as it was before.
  pub serve_all-accounts :
      (calls : List (Call F B)) (server : Server F) (variable : Option Text)
      → Available server
      → All Keeps calls
      → (method path : Text) (status : ℕ)
      → let served = serve_all calls (server, variable) in
        let seen = trace calls (server, variable) in
        let labels = labels_for method path status in
        (total served.0.service_metrics labels
          ≡ total server.service_metrics labels
            + length (filter (ends_with method path status) seen))
        × (filter is_http served.0.log ≡ filter is_http server.log ++ entries_of seen)
        × (served.1 ≡ variable)
  serve_all-accounts calls server variable h k method path status =
      let (m, l, v) = serve_all-adds calls server variable h k in
      let seen = trace calls (server, variable) in
      (
        ap (λ x. total x (labels_for method path status)) m
            ∙ totals method path status (observations seen) server.service_metrics
            ∙ ap (λ n. total server.service_metrics (labels_for method path status) + n)
                (length-observations method path status seen),
        l,
        v,
      )
