-- ===== src/Api/Endpoints/Weeks.antt =====
-- What the week-over-week endpoint answers.
use pg_monitor.Prelude.{
  ℕ, ◌≡◌, ◌≤◌, ◌<◌, ◌-◌, refl, sym, ap, ◌∙◌, subst, ◌⊎◌, ◌↔◌, inl, inr, none, true, [], arith,
}
use pg_monitor.Prelude.Floats.{Floats}
use pg_monitor.Prelude.Text.{Text}
use pg_monitor.Exn.{Exn, Result, ok, err, overflow_error}
use pg_monitor.Storage.Session.{Session}
use pg_monitor.Storage.Uow.Atomicity.{left}
use pg_monitor.Storage.Queries.Latest.{Collation}
use pg_monitor.Analytics.Models.{instant, PeriodWindow}
use pg_monitor.Analytics.Window.{week, resolve_current_window, earlier}
use pg_monitor.Analytics.Window.Validity.{
  IsValid, Requested, resolve_current_window-exact, period_window-IsValid,
}
use pg_monitor.Analytics.Service.Readers.{repository, load_bulk}
use pg_monitor.Analytics.Service.Weeks.{
  weeks_answer, week_before, earlier-week_before, week_before-IsValid, weeks_calm,
}
use pg_monitor.Api.Server.{Server, Request, Response}
use pg_monitor.Api.Exceptions.{Body, week_over_week, handler_of, handle, handle_exceptions}
use pg_monitor.Api.Endpoints.{QueryParameters, fits_query, week_over_week_endpoint, route_to}
use pg_monitor.Api.Endpoints.Answers.{
  Answered, Refused, OrRefused, from_refusal, window-OrRefused, not_both, fits_parts, handled_any,
  shown_weeks, to_weeks_lem,
}

room_or_not :
    (w : PeriodWindow)
    → (instant w.end_at - instant w.start_at ≤ w.start_at.local)
      ⊎ (w.start_at.local < instant w.end_at - (instant w.start_at))
room_or_not w = ground arith

overflows :
    (w : PeriodWindow)
    → w.start_at.local < instant w.end_at - (instant w.start_at)
    → earlier w.start_at ((instant w.end_at) - (instant w.start_at)) ≡ err overflow_error
unfolding earlier
overflows w short = ground arith

module _ {F : Type 0} ⦃c : Collation⦄ ⦃f : Floats F⦄ where
  -- The rankings of a window and of the one before it, from what is committed.
  abbrev pub weeks_body : QueryParameters → PeriodWindow → Session F → Body F
  weeks_body q window s = week_over_week (
      shown_weeks
        (weeks_answer q.db_identifier (week_before window) window q.limit q.sort_by s.committed))

module _ {F : Type 0} ⦃c : Collation⦄ ⦃f : Floats F⦄ (server : Server F)
    (calm : server.storage.faults ≡ []) (request : Request) (request_id path : Text) (clock : ℕ)
    (late : week ≤ clock) where
  abbrev pub weeks_result : QueryParameters → Result (Response (Body F))
  weeks_result q =
      (route_to path (fits_query q) (week_over_week_endpoint repository clock q) request request_id
        server).result

  prepared :
      (q : QueryParameters)
      → fits_query q ≡ true
      → (m : Result (Body F) × Session F)
      → week_over_week_endpoint repository clock q server.storage ≡ m
      → weeks_result q
        ≡ (handle_exceptions request request_id (m.0, record server { storage = m.1 })).0
  prepared q h m e =
      ap
        (λ b.
          (route_to path b (week_over_week_endpoint repository clock q) request request_id
            server).result)
        h
      ∙ handled_any path (week_over_week_endpoint repository clock q) request request_id server m e

  weeks_ok :
      (q : QueryParameters) (w : PeriodWindow)
      → fits_query q ≡ true
      → resolve_current_window q.window_start_at q.window_end_at none clock ≡ ok w
      → IsValid w
      → instant w.end_at - instant w.start_at ≤ w.start_at.local
      → week_over_week_endpoint repository clock q server.storage
        ≡ (ok (weeks_body q w server.storage), left server.storage)
  unfolding week_over_week_endpoint
  weeks_ok q w h e v room =
      let previous =
        (period_window-IsValid (week_before w).start_at w.start_at (week_before w)).1
          (week_before-IsValid w v room, refl, refl) in
      rw
        (
          weeks_calm repository load_bulk q.db_identifier q.limit q.sort_by q.window_start_at
              q.window_end_at none clock server.storage calm,
          fits_parts q h,
          e,
          earlier-week_before w room,
          previous,
        )
        (rw (
          to_weeks_lem (
            weeks_answer q.db_identifier (week_before w) w q.limit q.sort_by
              server.storage.committed)))

  weeks_refused :
      (q : QueryParameters) (x : Exn)
      → fits_query q ≡ true
      → resolve_current_window q.window_start_at q.window_end_at none clock ≡ err x
      → week_over_week_endpoint repository clock q server.storage ≡ (err x, server.storage)
  unfolding week_over_week_endpoint
  weeks_refused q x h e = rw (
    weeks_calm repository load_bulk q.db_identifier q.limit q.sort_by q.window_start_at
        q.window_end_at none clock server.storage calm,
    fits_parts q h,
    e,
  )

  weeks_escapes :
      (q : QueryParameters) (w : PeriodWindow)
      → fits_query q ≡ true
      → resolve_current_window q.window_start_at q.window_end_at none clock ≡ ok w
      → w.start_at.local < instant w.end_at - (instant w.start_at)
      → week_over_week_endpoint repository clock q server.storage
        ≡ (err overflow_error, server.storage)
  unfolding week_over_week_endpoint
  weeks_escapes q w h e short = rw (
    weeks_calm repository load_bulk q.db_identifier q.limit q.sort_by q.window_start_at
        q.window_end_at none clock server.storage calm,
    fits_parts q h,
    e,
    overflows w short,
  )

  -- With a query that fits its parameters, on a session whose statements succeed and a clock past the first week, a
  -- week-over-week request is answered with 200 and the rankings of the window that it asks for and of the one before
  -- it, if that window is valid and the one before it does not start before datetime.min, on the fields of its own offset; if no valid window is asked
  -- for, it is answered with 422 and a message; and if the window before would start too early, an OverflowError
  -- escapes the handlers.
  pub week_over_week_endpoint-Answered :
      (q : QueryParameters)
      → fits_query q ≡ true
      → ((window : PeriodWindow) × IsValid window
          × Requested q.window_start_at q.window_end_at none clock window
          × (instant window.end_at - instant window.start_at ≤ window.start_at.local)
          × Answered (weeks_body q window server.storage) (weeks_result q))
        ⊎ (((window : PeriodWindow)
              → IsValid window
              → Requested q.window_start_at q.window_end_at none clock window
              → ⊥)
            × Refused (weeks_result q))
        ⊎ ((window : PeriodWindow) × IsValid window
            × Requested q.window_start_at q.window_end_at none clock window
            × (window.start_at.local < instant window.end_at - (instant window.start_at))
            × (weeks_result q ≡ err overflow_error))
  unfolding handle_exceptions handle handler_of
  week_over_week_endpoint-Answered q h =
      cases (resolve_current_window q.window_start_at q.window_end_at none clock) refl
    where
      exact :
          (w : PeriodWindow)
          → (resolve_current_window q.window_start_at q.window_end_at none clock ≡ ok w)
            ↔ (IsValid w × Requested q.window_start_at q.window_end_at none clock w)
      exact w = resolve_current_window-exact q.window_start_at q.window_end_at none clock w

      cases :
          (r : Result PeriodWindow)
          → resolve_current_window q.window_start_at q.window_end_at none clock ≡ r
          → ((window : PeriodWindow) × IsValid window
              × Requested q.window_start_at q.window_end_at none clock window
              × (instant window.end_at - instant window.start_at ≤ window.start_at.local)
              × Answered (weeks_body q window server.storage) (weeks_result q))
            ⊎ (((window : PeriodWindow)
                  → IsValid window
                  → Requested q.window_start_at q.window_end_at none clock window
                  → ⊥)
                × Refused (weeks_result q))
            ⊎ ((window : PeriodWindow) × IsValid window
                × Requested q.window_start_at q.window_end_at none clock window
                × (window.start_at.local < instant window.end_at - (instant window.start_at))
                × (weeks_result q ≡ err overflow_error))
      cases (ok w) e =
          let (v, a) = (exact w).0 e in
          elim (room_or_not w) [
            | inl room ↦ inl (w, v, a, room, prepared q h _ (weeks_ok q w h e v room))
            | inr short ↦ inr (inr (w, v, a, short, prepared q h _ (weeks_escapes q w h e short)))
          ]
      cases (err x) e =
          let (msg, is) =
            from_refusal x
              (subst OrRefused e (window-OrRefused q.window_start_at q.window_end_at clock late)) in
          inr (
            inl (
              λ window v a. absurd (not_both (sym e ∙ (exact window).1 (v, a))),
              (
                msg,
                prepared q h _ (weeks_refused q x h e)
                    ∙ ap (λ y. (handle request request_id y (handler_of y) server).0) is,
              ),
            ))
