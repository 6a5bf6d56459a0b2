-- ===== src/Examples/Analytics.antt =====
-- Runs of the model of query_analytics.
use pg_monitor.Prelude.{
  ◌↔◌, ◌-◌, ◌≡◌, refl, ap, true, none, some, List, [], ◌∷◌, ◌++◌, min, arith, Perm, length, All,
  Elem, ◌*◌,
}
use mathlib.Core.Bool.{false≢true}
use pg_monitor.Prelude.Int.{ℤ, pos}
use pg_monitor.Prelude.Eq.{String_eq}
use pg_monitor.Prelude.Floats.{ℤ_floats}
use pg_monitor.Exn.{ok, err, overflow_error}
use pg_monitor.Storage.Orm.{QuerySnapshotRow, QuerySnapshotPoint}
use pg_monitor.Storage.Uow.Atomicity.{left}
use pg_monitor.Analytics.Models.{instant, DateTime, calls, PeriodWindow, QueryDelta}
use pg_monitor.Analytics.Delta.{row_key, row_delta, build_query_deltas}
use pg_monitor.Analytics.Delta.Exactness.{start_row, Kept, build_query_deltas-exact}
use pg_monitor.Analytics.Delta.SamePoint.{build_query_deltas-same_point}
use pg_monitor.Analytics.Ranking.{build_period_result}
use pg_monitor.Analytics.Ranking.Top.{build_period_result-top, Above, Ranked}
use pg_monitor.Analytics.Window.{earlier, resolve_current_window, validate_period_request}
use pg_monitor.Analytics.Window.Validity.{IsValid, Requested, resolve_current_window-exact}
use pg_monitor.Analytics.Service.{get_weekly_top_queries, get_week_over_week_queries}
use pg_monitor.Analytics.Service.Readers.{repository, single_reader}
use pg_monitor.Analytics.Service.Weeks.{
  period_answer, weeks_answer, service-reader_independent, get_weekly_top_queries-answers,
  get_week_over_week_queries-answers,
}
use pg_monitor.Examples.Data.{
  by_count, row, before_point, after_point, two_captures, calm_session, far_east, window_of,
}

-- The delta of query "a" between the two points.
abbrev delta_a : QueryDelta ℤ
delta_a = row_delta (some (row "a" (pos 5))) (row "a" (pos 9))

build_query_deltas-exact_example :
    Elem delta_a (build_query_deltas (some before_point) (some after_point)) ↔ (
      (new : QuerySnapshotRow ℤ) × Elem new after_point.rows
      × Kept (start_row (some before_point) (row_key new)) new delta_a)
build_query_deltas-exact_example = build_query_deltas-exact (some before_point) after_point delta_a

build_query_deltas-same_point_example :
    build_query_deltas (some before_point) (some before_point) ≡ []
build_query_deltas-same_point_example =
    build_query_deltas-same_point before_point
      (((λ e. false≢true (ap (λ k. String_eq.beq k.queryid "a") e)), tt), (tt, tt))

abbrev first_row : QuerySnapshotRow ℤ
first_row = row "a" (pos 5)

abbrev mid_row : QuerySnapshotRow ℤ
mid_row = row "a" (pos 9)

abbrev start_point : QuerySnapshotPoint ℤ
start_point = record { captured_at = 100; rows = first_row ∷ [] }

abbrev end_point : QuerySnapshotPoint ℤ
end_point = record { captured_at = 200; rows = mid_row ∷ [] }

build_period_result-top_example :
    let items =
      (build_period_result "main"
        (window_of 100 200)
        (some before_point)
        (some after_point)
        (pos 1)
        calls).items in
    let deltas = build_query_deltas (some before_point) (some after_point) in
    (others : List (QueryDelta ℤ)) × Perm (items ++ others) deltas
    × Ranked calls items
    × All (λ a. All (Above calls a) others) items
    × (length items ≡ min 1 (length deltas))
build_period_result-top_example =
    build_period_result-top "main" (window_of 100 200) (some before_point) (some after_point) 1
      calls

resolve_current_window-exact_example :
    (resolve_current_window (some (far_east 100)) (some (far_east 200)) none 7
      ≡ ok (window_of 100 200))
    ↔ (IsValid (window_of 100 200)
        × Requested (some (far_east 100)) (some (far_east 200)) none 7 (window_of 100 200))
resolve_current_window-exact_example =
    resolve_current_window-exact (some (far_east 100)) (some (far_east 200)) none 7
      (window_of 100 200)

service-reader_independent_example :
    (get_weekly_top_queries repository "main"
        (pos 10)
        calls
        (some (far_east 150))
        (some (far_east 200))
        none
        7
        calm_session
      ≡ get_weekly_top_queries single_reader "main"
          (pos 10)
          calls
          (some (far_east 150))
          (some (far_east 200))
          none
          7
          calm_session)
    × (get_week_over_week_queries repository "main"
          (pos 10)
          calls
          (some (far_east 150))
          (some (far_east 200))
          none
          7
          calm_session
        ≡ get_week_over_week_queries single_reader "main"
            (pos 10)
            calls
            (some (far_east 150))
            (some (far_east 200))
            none
            7
            calm_session)
service-reader_independent_example =
    service-reader_independent calm_session refl "main" (pos 10) calls (some (far_east 150))
      (some (far_east 200)) none 7

valid_request : validate_period_request "main" (pos 10) ≡ ok tt
unfolding validate_period_request
valid_request = refl

valid_window :
    resolve_current_window (some (far_east 150)) (some (far_east 200)) none 7
    ≡ ok (window_of 150 200)
unfolding resolve_current_window
valid_window = refl

get_weekly_top_queries-answers_example :
    get_weekly_top_queries repository "main"
      (pos 10)
      calls
      (some (far_east 150))
      (some (far_east 200))
      none
      7
      calm_session
    ≡ (ok (period_answer "main" (window_of 150 200) (pos 10) calls two_captures), left calm_session)
get_weekly_top_queries-answers_example =
    get_weekly_top_queries-answers calm_session refl "main" (pos 10) calls (some (far_east 150))
      (some (far_east 200)) none 7 (window_of 150 200) valid_request valid_window

get_week_over_week_queries-answers_example :
    (previous : PeriodWindow) × IsValid previous
    × (previous.end_at ≡ far_east 150)
    × ((instant previous.end_at) - (instant previous.start_at) ≡ 50)
    × (get_week_over_week_queries repository "main"
          (pos 10)
          calls
          (some (far_east 150))
          (some (far_east 200))
          none
          7
          calm_session
        ≡ (
          ok (weeks_answer "main" previous (window_of 150 200) (pos 10) calls two_captures),
          left calm_session,
        ))
get_week_over_week_queries-answers_example =
    get_week_over_week_queries-answers calm_session refl "main" (pos 10) calls (some (far_east 150))
      (some (far_east 200)) none 7 (window_of 150 200) valid_request valid_window (omega arith)

-- Three hours from the first moment of year 1 at the offset -05:00: the window before would start before datetime.min
-- on its own fields, though not in UTC.
abbrev first_moment : DateTime
first_moment = record { local = 0; behind = 29 * 3_600_000_000; aware = true }

too_early : earlier first_moment (3 * 3_600_000_000) ≡ err overflow_error
unfolding earlier
too_early = refl
