-- ===== src/Metrics/Requests.antt =====
-- ServiceMetrics of metrics/api_service_metrics.py: a counter and a histogram of the requests by their labels. The
-- library's counter is the number of its increments, its histogram what it has observed.
pub mod Counts
use Prim.Native.Nat.{ℕ, zero, suc}
use pg_monitor.Prelude.{Option, none, some, List, [], ◌∷◌, ◌++◌, Bool, true, false, if◌then◌else◌}
use pg_monitor.Prelude.Eq.{Eq, ℕ_eq, List_eq}
use pg_monitor.Prelude.Dict.{Dict, get, put}
use pg_monitor.Prelude.Floats.{Floats}
use pg_monitor.Prelude.Text.{Text}
use pg_monitor.Prelude.Text.Decimal.{decimal}
use pg_monitor.Metrics.Exporter.{max_zero}

-- The values of `method`, `path` and `status_code`.
abbrev pub Labels : Type 0
Labels = List Text

pub record ServiceMetrics (F : Type 0) : Type 0 where
  pub http_requests_total : Dict Labels ℕ
  pub http_request_duration_seconds : Dict Labels (List F)

-- One request as it is observed.
pub record Observation (F : Type 0) : Type 0 where
  pub method : Text
  pub path : Text
  pub status_code : ℕ
  pub duration_seconds : F

abbrev pub or_none_yet : Option ℕ → ℕ
or_none_yet none = 0
or_none_yet (some n) = n

abbrev pub or_nothing : {F : Type 0} → Option (List F) → List F
or_nothing none = []
or_nothing (some l) = l

module _ {F : Type 0} where
  -- `labels(...).inc()` and `labels(...).observe(value)`
  unfoldable pub inc : Labels → ServiceMetrics F → ServiceMetrics F
  inc labels m = record m {
    http_requests_total =
        put m.http_requests_total labels (suc (or_none_yet (get m.http_requests_total labels)));
  }

  unfoldable pub observe : Labels → F → ServiceMetrics F → ServiceMetrics F
  observe labels value m = record m {
    http_request_duration_seconds =
        put m.http_request_duration_seconds labels
          (or_nothing (get m.http_request_duration_seconds labels) ++ value ∷ []);
  }

  unfoldable pub labels_of : Observation F → Labels
  unfolding decimal
  labels_of o = o.method ∷ o.path ∷ decimal o.status_code ∷ []

  unfoldable pub observe_http_request :
      ⦃f : Floats F⦄ → Observation F → ServiceMetrics F → ServiceMetrics F
  unfolding inc observe labels_of max_zero
  observe_http_request o m =
      observe (labels_of o) (max_zero o.duration_seconds) (inc (labels_of o) m)
