-- ===== src/Config/Load.antt =====
-- The loading of settings of config/settings.py. What pydantic-settings reads on its own, where no mapping is given,
-- is a parameter.
pub mod Validity
use pg_monitor.Prelude.{Option, none, some, Bool, true, false, not, ◌&&◌, ◌||◌, if◌then◌else◌}
use pg_monitor.Prelude.Eq.{ℕ_eq, List_eq}
use pg_monitor.Prelude.Dict.{Dict, get}
use pg_monitor.Prelude.Floats.{Floats}
use pg_monitor.Prelude.Text.{Text, codes}
use pg_monitor.Exn.{Exn, Result, ok, err, configuration_error, validation_error}
use pg_monitor.Config.Sources.{Environ, Files, Casing, build_settings_init_values}
use pg_monitor.Config.Settings.{
  Pydantic, Literals, ApiSettings, CollectorSettings, api_settings, collector_settings,
}

-- The process: its files, `os.environ`, and the values of fields that pydantic-settings takes from them.
pub record Process : Type 0 where
  pub files : Files
  pub os_environ : Environ
  pub settings_values : Text → Environ → Dict Text Text

is_given : {A : Type 0} → Option A → Bool
is_given none = false
is_given (some a) = true

first_of : Option Text → Option Text → Text
first_of (some path) other = path
first_of none (some path) = path
first_of none none = codes ".env"

environ_or : Environ → Option Environ → Environ
environ_or os_environ none = os_environ
environ_or os_environ (some environ) = environ

unfoldable pub resolve_settings_paths : Process → Option Environ → Option Text
unfolding environ_or get
resolve_settings_paths process environ =
    get (environ_or process.os_environ environ) (codes "PG_MONITOR_ENV_FILE")

-- `except ValidationError as exc: raise ConfigurationError`
from_validation : {A : Type 0} → Result A → Result A
from_validation (ok a) = ok a
from_validation (err validation_error) = err configuration_error
from_validation (err e) = err e

module _ ⦃c : Casing⦄ where
  init_values : Process → Text → Option Environ → Dict Text Text
  unfolding build_settings_init_values
  init_values process dotenv_file none = process.settings_values dotenv_file process.os_environ
  init_values process dotenv_file (some environ) =
      build_settings_init_values process.files dotenv_file environ

  unfoldable pub load_settings :
      {A : Type 0} → Process → (Dict Text Text → Result A) → Option Text → Option Environ → Result A
  unfolding resolve_settings_paths first_of is_given init_values from_validation
  load_settings process settings_cls env_path environ =
      let resolved_env_path = resolve_settings_paths process environ in
      let dotenv_file = first_of env_path resolved_env_path in
      let explicit_env_path = is_given env_path || is_given resolved_env_path in
      let built = from_validation (settings_cls (init_values process dotenv_file environ)) in
      if explicit_env_path && not (process.files.exists dotenv_file)
      then err configuration_error
      else built

module _ {F : Type 0} ⦃f : Floats F⦄ ⦃l : Literals F⦄ ⦃p : Pydantic F⦄ ⦃c : Casing⦄
    (process : Process) where
  unfoldable pub load_collector_settings :
      Option Text → Option Environ → Result (CollectorSettings F)
  unfolding load_settings collector_settings
  load_collector_settings env_path environ =
      load_settings process collector_settings env_path environ

module _ (F : Type 0) ⦃p : Pydantic F⦄ ⦃c : Casing⦄ (process : Process) where
  unfoldable pub load_api_settings : Option Text → Option Environ → Result ApiSettings
  unfolding load_settings api_settings
  load_api_settings env_path environ = load_settings process (api_settings F) env_path environ
