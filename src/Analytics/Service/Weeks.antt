-- ===== src/Analytics/Service/Weeks.antt =====
-- What QueryAnalyticsService answers on a session whose statements succeed.
use pg_monitor.Prelude.{
  ℕ, ◌-◌, ◌≡◌, ◌≤◌, refl, sym, ap, ◌∙◌, String, Option, List, [], ◌∷◌, Elem, inl, inr, arith,
}
use pg_monitor.Prelude.Int.{ℤ}
use pg_monitor.Prelude.Eq.{ℕ_eq}
use pg_monitor.Prelude.Dict.{unique}
use pg_monitor.Prelude.Floats.{Floats}
use pg_monitor.Exn.{ok}
use pg_monitor.Storage.Orm.{Tables}
use pg_monitor.Storage.Session.{Session, continue, continue_cong}
use pg_monitor.Storage.Uow.Atomicity.{left}
use pg_monitor.Storage.Queries.Latest.{Collation}
use pg_monitor.Storage.Queries.Agreement.{latest_point}
use pg_monitor.Analytics.Models.{
  instant, QuerySortBy, DateTime, PeriodWindow, period_window, PeriodTopQueriesResult,
  WeekOverWeekQueriesResult,
}
use pg_monitor.Analytics.Window.{resolve_current_window, validate_period_request, earlier}
use pg_monitor.Analytics.Window.Validity.{
  IsValid, period_window-IsValid, resolve_current_window-exact,
}
use pg_monitor.Analytics.Ranking.{build_period_result}
use pg_monitor.Analytics.Service.{
  QuerySnapshotReader, load_snapshot_points, or_key_error, point_at, get_period_top_queries,
  get_weekly_top_queries, get_week_over_week_queries,
}
use pg_monitor.Analytics.Service.Readers.{
  points_of, loaded_entry, repository, single_reader, load_single, load_bulk,
}

module _ {F : Type 0} ⦃c : Collation⦄ where
  point_at-points_of :
      (db : String) (t : Tables F) (timestamps : List ℕ) (ts : ℕ)
      → Elem ts timestamps
      → point_at (points_of db t (unique timestamps)) ts ≡ ok (latest_point db ts t)
  unfolding point_at
  point_at-points_of db t timestamps ts at = ap or_key_error (loaded_entry db t timestamps ts at)

-- The answer to a request for a window, from the snapshots that are the newest at or before its ends.
abbrev pub period_answer :
    {F : Type 0}
    → ⦃c : Collation⦄ → ⦃f : Floats F⦄ → String
    → PeriodWindow
    → ℤ
    → QuerySortBy
    → Tables F
    → PeriodTopQueriesResult F
period_answer db window limit by t =
    build_period_result db window (latest_point db (instant window.start_at) t)
      (latest_point db (instant window.end_at) t) limit by

-- The answer to a week-over-week request. The windows share a boundary, and the snapshot of the boundary.
abbrev pub weeks_answer :
    {F : Type 0}
    → ⦃c : Collation⦄ → ⦃f : Floats F⦄ → String
    → PeriodWindow
    → PeriodWindow
    → ℤ
    → QuerySortBy
    → Tables F
    → WeekOverWeekQueriesResult F
weeks_answer db previous current limit by t = record {
  db_identifier = db;
  sort_by = by;
  limit = limit;
  current_week =
      build_period_result db current (latest_point db (instant previous.end_at) t)
        (latest_point db (instant current.end_at) t) limit by;
  previous_week = period_answer db previous limit by t;
}

module _ {F : Type 0} ⦃c : Collation⦄ ⦃f : Floats F⦄ (reader : QuerySnapshotReader F)
    (loads : (db : String) (timestamps : List ℕ) (s : Session F)
      → s.faults ≡ []
      → load_snapshot_points reader db timestamps s
        ≡ (ok (points_of db s.committed (unique timestamps)), left s)) where
  period_calm :
      (db : String) (window : PeriodWindow) (limit : ℤ) (by : QuerySortBy) (s : Session F)
      → s.faults ≡ []
      → get_period_top_queries reader db window limit by s
        ≡ continue
            (validate_period_request db limit)
            (λ _ s. (ok (period_answer db window limit by s.committed), left s))
            s
  unfolding get_period_top_queries
  period_calm db window limit by s calm =
      continue_cong (validate_period_request db limit) _ _ s λ _ _. rw (
        loads db ((instant window.start_at) ∷ (instant window.end_at) ∷ []) s calm,
        point_at-points_of db s.committed ((instant window.start_at) ∷ (instant window.end_at) ∷ [])
            (instant window.start_at) (inl refl),
        point_at-points_of db s.committed ((instant window.start_at) ∷ (instant window.end_at) ∷ [])
            (instant window.end_at) (inr (inl refl)),
      )

  pub weekly_calm :
      (db : String) (limit : ℤ) (by : QuerySortBy) (start end now : Option DateTime) (clock : ℕ)
      (s : Session F)
      → s.faults ≡ []
      → get_weekly_top_queries reader db limit by start end now clock s
        ≡ continue
            (resolve_current_window start end now clock)
            (λ window s.
              continue
                (validate_period_request db limit)
                (λ _ s. (ok (period_answer db window limit by s.committed), left s))
                s)
            s
  unfolding get_weekly_top_queries
  weekly_calm db limit by start end now clock s calm =
      continue_cong (resolve_current_window start end now clock) _ _ s
        λ window _. period_calm db window limit by s calm

  pub weeks_calm :
      (db : String) (limit : ℤ) (by : QuerySortBy) (start end now : Option DateTime) (clock : ℕ)
      (s : Session F)
      → s.faults ≡ []
      → get_week_over_week_queries reader db limit by start end now clock s
        ≡ continue
            (validate_period_request db limit)
            (λ _ s.
              continue
                (resolve_current_window start end now clock)
                (λ current s.
                  continue
                    (earlier current.start_at
                      ((instant current.end_at) - (instant current.start_at)))
                    (λ start s.
                      continue
                        (period_window start current.start_at)
                        (λ previous s.
                          (ok (weeks_answer db previous current limit by s.committed), left s))
                        s)
                    s)
                s)
            s
  unfolding get_week_over_week_queries
  weeks_calm db limit by start end now clock s calm =
      continue_cong (validate_period_request db limit) _ _ s λ _ _.
        continue_cong (resolve_current_window start end now clock) _ _ s λ current _.
          continue_cong
            (earlier current.start_at ((instant current.end_at) - (instant current.start_at))) _ _ s
            λ previous_start _.
              continue_cong (period_window previous_start current.start_at) _ _ s λ previous _.
                let asked =
                  (instant previous.start_at)
                  ∷ (instant previous.end_at)
                  ∷ (instant current.end_at)
                  ∷ [] in
                rw (
                  loads db asked s calm,
                  point_at-points_of db s.committed asked (instant previous.start_at) (inl refl),
                  point_at-points_of db s.committed asked (instant previous.end_at)
                      (inr (inl refl)),
                  point_at-points_of db s.committed asked (instant current.end_at)
                      (inr (inr (inl refl))),
                )

-- The window before a window.
abbrev pub week_before : PeriodWindow → PeriodWindow
week_before current = record {
  start_at = record current.start_at {
    local = current.start_at.local - ((instant current.end_at) - (instant current.start_at));
  };
  end_at = current.start_at;
}

pub earlier-week_before :
    (current : PeriodWindow)
    → instant current.end_at - instant current.start_at ≤ current.start_at.local
    → earlier current.start_at ((instant current.end_at) - (instant current.start_at))
      ≡ ok (week_before current).start_at
unfolding earlier
earlier-week_before current room = ground arith

pub week_before-IsValid :
    (current : PeriodWindow)
    → IsValid current
    → instant current.end_at - instant current.start_at ≤ current.start_at.local
    → IsValid (week_before current)
week_before-IsValid current v room = record {
  start_aware = v.start_aware;
  end_aware = v.start_aware;
  ordered = let o = v.ordered in omega arith;
}

module _ {F : Type 0} ⦃c : Collation⦄ ⦃f : Floats F⦄ (s : Session F) (calm : s.faults ≡ []) where
  -- On a session whose statements succeed, the service answers every request the same, with the same errors,
  -- whether its reader has the bulk read of the repository or the single read alone.
  pub service-reader_independent :
      (db : String) (limit : ℤ) (by : QuerySortBy) (start end now : Option DateTime) (clock : ℕ)
      → (get_weekly_top_queries repository db limit by start end now clock s
          ≡ get_weekly_top_queries single_reader db limit by start end now clock s)
        × (get_week_over_week_queries repository db limit by start end now clock s
            ≡ get_week_over_week_queries single_reader db limit by start end now clock s)
  service-reader_independent db limit by start end now clock = (
    weekly_calm repository load_bulk db limit by start end now clock s calm
        ∙ sym (weekly_calm single_reader load_single db limit by start end now clock s calm),
    weeks_calm repository load_bulk db limit by start end now clock s calm
        ∙ sym (weeks_calm single_reader load_single db limit by start end now clock s calm),
  )

  -- On a session whose statements succeed, a request that is not refused for its limit, its database or its window is
  -- answered: from the newest snapshots at or before the ends of the window.
  pub get_weekly_top_queries-answers :
      (db : String) (limit : ℤ) (by : QuerySortBy) (start end now : Option DateTime) (clock : ℕ)
      (window : PeriodWindow)
      → validate_period_request db limit ≡ ok tt
      → resolve_current_window start end now clock ≡ ok window
      → get_weekly_top_queries repository db limit by start end now clock s
        ≡ (ok (period_answer db window limit by s.committed), left s)
  get_weekly_top_queries-answers db limit by start end now clock window v w =
      weekly_calm repository load_bulk db limit by start end now clock s calm ∙ rw (w, v)

  -- On a session whose statements succeed, a week-over-week request that is not refused for its limit, its database or
  -- its window, and whose window is no longer than the time from datetime.min to its start, on the fields of the
  -- start, is answered: the previous window is valid, as long as the
  -- current one and ends where it starts, and each window has the newest snapshots at or before its ends, that of the
  -- boundary shared.
  pub get_week_over_week_queries-answers :
      (db : String) (limit : ℤ) (by : QuerySortBy) (start end now : Option DateTime) (clock : ℕ)
      (current : PeriodWindow)
      → validate_period_request db limit ≡ ok tt
      → resolve_current_window start end now clock ≡ ok current
      → instant current.end_at - instant current.start_at ≤ current.start_at.local
      → (previous : PeriodWindow) × IsValid previous
        × (previous.end_at ≡ current.start_at)
        × ((instant previous.end_at) - (instant previous.start_at)
            ≡ (instant current.end_at) - (instant current.start_at))
        × (get_week_over_week_queries repository db limit by start end now clock s
            ≡ (ok (weeks_answer db previous current limit by s.committed), left s))
  get_week_over_week_queries-answers db limit by start end now clock current v w room =
      let valid =
        week_before-IsValid current
          ((resolve_current_window-exact start end now clock current).0 w).0 room in
      let previous =
        (period_window-IsValid (week_before current).start_at current.start_at
            (week_before current)).1
          (valid, refl, refl) in
      (
        week_before current,
        valid,
        refl,
        omega arith,
        weeks_calm repository load_bulk db limit by start end now clock s calm
            ∙ rw (v, w, earlier-week_before current room, previous),
      )
