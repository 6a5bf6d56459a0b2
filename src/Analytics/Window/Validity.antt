-- ===== src/Analytics/Window/Validity.antt =====
-- Which windows a request for query analytics gets.
use pg_monitor.Prelude.{ℕ, ◌+◌, ◌<◌, ◌≡◌, ◌↔◌, String, true, false, Option, none, some, arith}
use pg_monitor.Prelude.Int.{ℤ, pos, ◌≤ℤ◌}
use pg_monitor.Prelude.Eq.{String_eq}
use pg_monitor.Exn.{ok}
use pg_monitor.Analytics.Models.{DateTime, day, instant, PeriodWindow, period_window}
use pg_monitor.Analytics.Window.{week, utc, resolve_current_window, validate_period_request}

-- Both ends are aware, and the start is before the end.
pub record IsValid (w : PeriodWindow) : Type 0 where
  pub start_aware : w.start_at.aware ≡ true
  pub end_aware : w.end_at.aware ≡ true
  pub ordered : instant w.start_at < instant w.end_at

-- `period_window` accepts exactly the valid windows.
pub period_window-IsValid :
    (start end : DateTime) (w : PeriodWindow)
    → (period_window start end ≡ ok w) ↔ (IsValid w × (w.start_at ≡ start) × (w.end_at ≡ end))
unfolding period_window
period_window-IsValid start end w = (λ h. ground arith, λ h. ground arith)

-- What a request asks for: its own window, or the week up to `now` or else the clock, with the offset of its end.
abbrev pub Requested :
    Option DateTime → Option DateTime → Option DateTime → ℕ → PeriodWindow → Type 0
Requested (some start) (some end) now clock w = (w.start_at ≡ start) × (w.end_at ≡ end)
Requested none none (some now) clock w =
    (w.end_at ≡ now) × (w.start_at.local + week ≡ now.local) × (w.start_at.behind ≡ now.behind)
Requested none none none clock w =
    (w.end_at ≡ utc clock) × (w.start_at.local + week ≡ clock) × (w.start_at.behind ≡ day)
Requested _ _ now clock w = ⊥

-- A request gets a window exactly if the window is valid and the one that is asked for; a window of which
-- one end is missing is refused.
pub resolve_current_window-exact :
    (start end now : Option DateTime) (clock : ℕ) (w : PeriodWindow)
    → (resolve_current_window start end now clock ≡ ok w)
      ↔ (IsValid w × Requested start end now clock w)
unfolding resolve_current_window
resolve_current_window-exact (some start) (some end) now clock w =
    let e = period_window-IsValid start end w in
    (λ h. let t = e.0 h in (t.0, (t.1, t.2)), λ h. e.1 (h.0, h.1.0, h.1.1))
resolve_current_window-exact none none (some now) clock w = (λ h. ground arith, λ h. ground arith)
resolve_current_window-exact none none none clock w = (λ h. ground arith, λ h. ground arith)
resolve_current_window-exact (some start) none now clock w = (λ h. cc, λ h. absurd h.1)
resolve_current_window-exact none (some end) now clock w = (λ h. cc, λ h. absurd h.1)

-- A request is refused exactly for a limit that is not positive or an empty database name.
pub validate_period_request-exact :
    (db : String) (limit : ℤ)
    → ((validate_period_request db limit ≡ ok tt)
        ↔ ((pos 1 ≤ℤ limit) × (String_eq.beq db "" ≡ false)))
unfolding validate_period_request
validate_period_request-exact db limit = (λ h. ground arith, λ h. ground arith)
