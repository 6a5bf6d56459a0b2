-- ===== src/Config/Load/Validity.antt =====
-- What loaded settings are like.
use pg_monitor.Prelude.{◌≡◌, ◌⊎◌, false, Elem}
use pg_monitor.Prelude.Int.{pos, ◌≤ℤ◌}
use pg_monitor.Prelude.Eq.{ℕ_eq, List_eq}
use pg_monitor.Prelude.Dict.{Dict}
use pg_monitor.Prelude.Floats.{Floats}
use pg_monitor.Prelude.Text.{Text}
use pg_monitor.Exn.{Result, ok, err, configuration_error, validation_error}
use pg_monitor.Config.Settings.{PyFloat, number, nan, CollectorSettings, allowed_log_levels}

-- A result that has the property, or the error of pydantic.
abbrev Post : {A : Type 0} → (A → Type 0) → Result A → Type 0
Post P (ok a) = P a
Post P (err e) = e ≡ validation_error

module _ {F : Type 0} ⦃f : Floats F⦄ where
  -- A number above zero, or NaN.
  abbrev pub AboveZero : PyFloat F → Type 0
  AboveZero (number value) = f.le value f.zero_f ≡ false
  AboveZero nan = Unit

  -- Settings of which no number is out of bounds.
  pub record IsValid (s : CollectorSettings F) : Type 0 where
    pub log_level_allowed : Elem s.log_level allowed_log_levels
    pub runtime_interval_positive : pos 1 ≤ℤ s.runtime_poll_interval_seconds
    pub query_interval_positive : pos 1 ≤ℤ s.query_poll_interval_seconds
    pub attempts_positive : pos 1 ≤ℤ s.collector_startup_retry_attempts
    pub base_delay_positive : AboveZero s.collector_startup_retry_base_delay_seconds
    pub max_delay_positive : AboveZero s.collector_startup_retry_max_delay_seconds
    pub runtime_timeout_positive : AboveZero s.runtime_job_timeout_seconds
    pub query_timeout_positive : AboveZero s.query_job_timeout_seconds

module _ {F : Type 0} ⦃f : Floats F⦄ where
  abbrev OrConfigurationError : Result (CollectorSettings F) → Type 0
  OrConfigurationError r =
      ((s : CollectorSettings F) × IsValid s × (r ≡ ok s)) ⊎ (r ≡ err configuration_error)
