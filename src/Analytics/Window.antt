-- ===== src/Analytics/Window.antt =====
-- The windows and the validation of query_analytics/service.py.
pub mod Validity
use Prim.Native.Nat.{◌*◌}
use text.Mathlib.Text.{◌==◌ as str_eq}
use pg_monitor.Prelude.{ℕ, ◌-◌, String, true, Option, none, some, ltb, if◌then◌else◌}
use pg_monitor.Prelude.Int.{ℤ, pos, leb_ℤ}
use pg_monitor.Prelude.Eq.{ℕ_eq}
use pg_monitor.Exn.{Result, ok, err, query_analytics_validation_error, overflow_error, ◌>>=◌}
use pg_monitor.Analytics.Models.{DateTime, day, PeriodWindow, period_window}

-- timedelta(days=7) in microseconds
abbrev pub week : ℕ
week = 7 * day

-- `d - delta`, on the fields of the datetime, with its offset kept: fields before datetime.min are an OverflowError
unfoldable pub earlier : DateTime → ℕ → Result DateTime
earlier d delta =
    if ltb d.local delta then err overflow_error else ok (record d { local = d.local - delta })

-- `datetime.now(UTC)`
abbrev pub utc : ℕ → DateTime
utc clock = record { local = clock; behind = day; aware = true }

unfoldable pub validate_period_request : String → ℤ → Result (Unit {0})
validate_period_request db_identifier limit =
    if leb_ℤ limit (pos 0)
    then err (query_analytics_validation_error "limit must be greater than 0")
    else if str_eq db_identifier ""
    then err (query_analytics_validation_error "db_identifier is required")
    else ok tt

-- The last week, up to `now` or else the clock.
unfoldable pub default_window : Option DateTime → ℕ → Result PeriodWindow
default_window (some now) clock = do start ← earlier now week; period_window start now
default_window none clock = do
  let now = utc clock
  start ← earlier now week
  period_window start now

unfoldable pub resolve_current_window :
    Option DateTime → Option DateTime → Option DateTime → ℕ → Result PeriodWindow
unfolding default_window earlier period_window
resolve_current_window (some start) (some end) now clock = period_window start end
resolve_current_window none none now clock = default_window now clock
resolve_current_window _ _ now clock =
    err (
      query_analytics_validation_error
        "window_start_at and window_end_at must be provided together")
