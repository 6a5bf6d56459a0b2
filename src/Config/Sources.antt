-- ===== src/Config/Sources.antt =====
-- The sources of settings in config/settings.py: the environment and a .env file. `dotenv_values`, `Path.exists`,
-- `str.upper` and `str.lower` are parameters.
pub mod Precedence
use pg_monitor.Prelude.{
  ℕ, Option, none, some, Bool, true, false, List, [], ◌∷◌, drop, length, if◌then◌else◌,
}
use pg_monitor.Prelude.Eq.{ℕ_eq, List_eq, ◌=?◌}
use pg_monitor.Prelude.Dict.{Dict, get, put, has}
use pg_monitor.Prelude.Text.{starts_with, Text, codes}

abbrev pub Environ : Type 0
Environ = Dict Text Text

pub record Files : Type 0 where
  pub exists : Text → Bool
  pub dotenv_values : Text → List (Text × Option Text)

pub record Casing : Type 0 where
  pub upper : Text → Text
  pub lower : Text → Text

abbrev pub env_prefix : Text
env_prefix = codes "PG_MONITOR_"

module _ ⦃c : Casing⦄ where
  -- The field that a variable sets: its name without the prefix, in lower case.
  unfoldable pub field_name : Text → Option Text
  unfolding starts_with
  field_name key =
      let upper_key = c.upper key in
      if starts_with env_prefix upper_key
      then some (c.lower (drop (length env_prefix) upper_key))
      else none

  put_field : Option Text → Text → Dict Text Text → Dict Text Text
  put_field none value values = values
  put_field (some name) value values = put values name value

  unfoldable pub add_dotenv : List (Text × Option Text) → Dict Text Text → Dict Text Text
  unfolding field_name put_field
  add_dotenv [] values = values
  add_dotenv ((key, none) ∷ rest) values = add_dotenv rest values
  add_dotenv ((key, some value) ∷ rest) values =
      add_dotenv rest (put_field (field_name key) value values)

  unfoldable pub add_environ : Environ → Dict Text Text → Dict Text Text
  unfolding field_name put_field
  add_environ [] values = values
  add_environ ((key, value) ∷ rest) values =
      add_environ rest (put_field (field_name key) value values)

  unfoldable pub build_settings_init_values : Files → Text → Environ → Dict Text Text
  unfolding add_dotenv add_environ
  build_settings_init_values files dotenv_file environ =
      let from_file = add_dotenv (files.dotenv_values dotenv_file) [] in
      add_environ environ (if files.exists dotenv_file then from_file else [])
