-- ===== src/Config/Start.antt =====
-- _load_runtime_settings of collector/worker.py and app.py.
use pg_monitor.Prelude.{none}
use pg_monitor.Prelude.Floats.{Floats}
use pg_monitor.Exn.{Result}
use pg_monitor.Config.Sources.{Casing}
use pg_monitor.Config.Settings.{Pydantic, Literals, ApiSettings, CollectorSettings}
use pg_monitor.Config.Load.{
  Process, resolve_settings_paths, load_collector_settings, load_api_settings,
}

module _ {F : Type 0} ⦃f : Floats F⦄ ⦃l : Literals F⦄ ⦃p : Pydantic F⦄ ⦃c : Casing⦄ where
  -- of collector/worker.py
  unfoldable pub load_runtime_settings : Process → Result (CollectorSettings F)
  unfolding load_collector_settings resolve_settings_paths
  load_runtime_settings process =
      load_collector_settings process (resolve_settings_paths process none) none

module _ (F : Type 0) ⦃p : Pydantic F⦄ ⦃c : Casing⦄ where
  -- of app.py
  unfoldable pub load_app_settings : Process → Result ApiSettings
  unfolding load_api_settings resolve_settings_paths
  load_app_settings process = load_api_settings F process (resolve_settings_paths process none) none
