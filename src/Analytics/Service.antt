-- ===== src/Analytics/Service.antt =====
-- query_analytics/service.py: the methods of QueryAnalyticsService. The clock's reading is an argument.
pub mod Readers
pub mod Weeks
use pg_monitor.Prelude.{ℕ, ◌-◌, String, Option, none, some, List, [], ◌∷◌}
use pg_monitor.Prelude.Int.{ℤ}
use pg_monitor.Prelude.Eq.{ℕ_eq}
use pg_monitor.Prelude.Dict.{get, put, put_all, unique}
use pg_monitor.Prelude.Floats.{Floats}
use pg_monitor.Exn.{Result, ok, err, key_error}
use pg_monitor.Storage.Orm.{QuerySnapshotPoint}
use pg_monitor.Storage.Session.{Db, pure, ◌>>=◌, ◌>>◌}
use pg_monitor.Storage.Uow.{with_uow}
use pg_monitor.Storage.Queries.Grouping.{Points}
use pg_monitor.Analytics.Models.{
  instant, QuerySortBy, DateTime, PeriodWindow, period_window, PeriodTopQueriesResult,
  WeekOverWeekQueriesResult,
}
use pg_monitor.Analytics.Window.{resolve_current_window, validate_period_request, earlier}
use pg_monitor.Analytics.Ranking.{build_period_result}

-- The reader of a unit of work; the bulk read is optional.
pub record QuerySnapshotReader (F : Type 0) : Type 0 where
  pub get_latest_snapshot_at_or_before : String → ℕ → Db F (Option (QuerySnapshotPoint F))
  pub get_latest_snapshots_at_or_before : Option (String → List ℕ → Db F (Points F))

-- A pure step of an async method.
abbrev pub lift : {F A : Type 0} → Result A → Db F A
lift r s = (r, s)

module _ {F : Type 0} where
  -- `loaded.get(ts)`
  abbrev pub or_none : Option (Option (QuerySnapshotPoint F)) → Option (QuerySnapshotPoint F)
  or_none none = none
  or_none (some point) = point

  abbrev pub get_or_none : Points F → ℕ → Option (QuerySnapshotPoint F)
  get_or_none loaded ts = or_none (get loaded ts)

  -- `points[ts]`
  abbrev pub or_key_error :
      Option (Option (QuerySnapshotPoint F)) → Result (Option (QuerySnapshotPoint F))
  or_key_error none = err key_error
  or_key_error (some point) = ok point

  unfoldable pub point_at : Points F → ℕ → Result (Option (QuerySnapshotPoint F))
  point_at points ts = or_key_error (get points ts)

  -- A reader with no bulk read is asked for one time after another.
  unfoldable pub load_each : QuerySnapshotReader F → String → List ℕ → Points F → Db F (Points F)
  load_each reader db [] points = pure points
  load_each reader db (ts ∷ rest) points = do
    point ← reader.get_latest_snapshot_at_or_before db ts
    load_each reader db rest (put points ts point)

  unfoldable pub load_by :
      QuerySnapshotReader F
      → Option (String → List ℕ → Db F (Points F))
      → String
      → List ℕ
      → Db F (Points F)
  unfolding load_each
  load_by reader (some bulk_loader) db timestamps = do
    loaded ← bulk_loader db timestamps
    pure (put_all (λ ts. ts) (get_or_none loaded) timestamps [])
  load_by reader none db timestamps = load_each reader db timestamps []

  unfoldable pub load_snapshot_points : QuerySnapshotReader F → String → List ℕ → Db F (Points F)
  unfolding load_by
  load_snapshot_points reader db timestamps =
      with_uow (load_by reader reader.get_latest_snapshots_at_or_before db (unique timestamps))

  module _ ⦃f : Floats F⦄ (reader : QuerySnapshotReader F) where
    unfoldable pub get_period_top_queries :
        String → PeriodWindow → ℤ → QuerySortBy → Db F (PeriodTopQueriesResult F)
    unfolding point_at
    get_period_top_queries db window limit by = do
      lift (validate_period_request db limit)
      points ←
          load_snapshot_points reader db ((instant window.start_at) ∷ (instant window.end_at) ∷ [])
      start_point ← lift (point_at points (instant window.start_at))
      end_point ← lift (point_at points (instant window.end_at))
      pure (build_period_result db window start_point end_point limit by)

    unfoldable pub get_weekly_top_queries :
        String
        → ℤ
        → QuerySortBy
        → Option DateTime
        → Option DateTime
        → Option DateTime
        → ℕ
        → Db F (PeriodTopQueriesResult F)
    unfolding get_period_top_queries
    get_weekly_top_queries db limit by window_start_at window_end_at now clock = do
      window ← lift (resolve_current_window window_start_at window_end_at now clock)
      get_period_top_queries db window limit by

    unfoldable pub get_week_over_week_queries :
        String
        → ℤ
        → QuerySortBy
        → Option DateTime
        → Option DateTime
        → Option DateTime
        → ℕ
        → Db F (WeekOverWeekQueriesResult F)
    unfolding point_at
    get_week_over_week_queries db limit by window_start_at window_end_at now clock = do
      lift (validate_period_request db limit)
      current ← lift (resolve_current_window window_start_at window_end_at now clock)
      let duration = (instant current.end_at) - (instant current.start_at)
      previous_start ← lift (earlier current.start_at duration)
      previous ← lift (period_window previous_start current.start_at)
      points ←
          load_snapshot_points reader db (
            (instant previous.start_at) ∷ (instant previous.end_at) ∷ (instant current.end_at) ∷ [])
      previous_start_point ← lift (point_at points (instant previous.start_at))
      boundary_point ← lift (point_at points (instant previous.end_at))
      current_end_point ← lift (point_at points (instant current.end_at))
      pure (record {
        db_identifier = db;
        sort_by = by;
        limit = limit;
        current_week = build_period_result db current boundary_point current_end_point limit by;
        previous_week =
            build_period_result db previous previous_start_point boundary_point limit by;
      })
