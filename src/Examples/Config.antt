-- ===== src/Examples/Config.antt =====
-- Runs of the model of the settings, with ASCII letters in upper and lower case.
use Prim.Native.Nat.{ℕ, suc, ◌+◌, ◌-◌, ◌*◌}
use pg_monitor.Prelude.{
  ◌≡◌, refl, none, some, [], ◌∷◌, true, false, if◌then◌else◌, map, arith, leb, ◌&&◌,
}
use pg_monitor.Prelude.Int.{ℤ, pos}
use pg_monitor.Prelude.Eq.{ℕ_eq, List_eq, ◌=?◌}
use pg_monitor.Prelude.Dict.{get, put}
use pg_monitor.Prelude.Floats.{Floats, ℤ_floats}
use pg_monitor.Prelude.Text.{Text, codes}
use pg_monitor.Config.Sources.{Environ, Files, Casing, build_settings_init_values}
use pg_monitor.Config.Sources.Precedence.{
  or_else, last_set, last_in, build_settings_init_values-precedence,
}
use pg_monitor.Config.Settings.{number, nan, Pydantic, Literals}
use pg_monitor.Config.Load.{Process}

abbrev upper_char : ℕ → ℕ
upper_char c = if leb 97 c && leb c 122 then c - 32 else c

abbrev lower_char : ℕ → ℕ
lower_char c = if leb 65 c && leb c 90 then c + 32 else c

instance abbrev ascii : Casing
ascii = record { upper = map upper_char; lower = map lower_char }

pos_positive : (n : ℕ) → Floats.le ℤ_floats (pos (suc n)) (pos 0) ≡ false
pos_positive n = ground arith

instance abbrev whole : Literals ℤ
whole = record { literal = pos; literal-positive = pos_positive }

abbrev value_of : ℕ → Text → ℕ
value_of n [] = n
value_of n (c ∷ s) = value_of (n * 10 + (c - 48)) s

instance abbrev digits_only : Pydantic ℤ
digits_only = record {
  parse_int = λ s. some (pos (value_of 0 s));
  parse_float = λ s. if s =? codes "nan" then some nan else some (number (pos (value_of 0 s)));
  parse_bool = λ s. none;
  parse_dsn = some;
  parse_str = some;
}

abbrev files : Files
files = record {
  exists = λ path. true;
  dotenv_values = λ path.
      (codes "PG_MONITOR_LOG_LEVEL", some (codes "info"))
      ∷ (codes "pg_monitor_pg_dsn", some (codes "postgresql://a"))
      ∷ (codes "OTHER", none)
      ∷ [];
}

abbrev environ : Environ
environ = (codes "pg_monitor_log_level", codes "debug") ∷ []

build_settings_init_values-precedence_example :
    get (build_settings_init_values files (codes ".env") environ) (codes "log_level")
    ≡ or_else
        (last_in environ (codes "log_level"))
        (if true then last_set (files.dotenv_values (codes ".env")) (codes "log_level") else none)
build_settings_init_values-precedence_example =
    build_settings_init_values-precedence files (codes ".env") environ (codes "log_level")

debug :
    get (build_settings_init_values files (codes ".env") environ) (codes "log_level")
    ≡ some (codes "debug")
unfolding build_settings_init_values get put
debug = refl

abbrev process : Process
process = record { files = files; os_environ = environ; settings_values = λ path env. [] }
