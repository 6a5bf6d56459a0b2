-- ===== src/Logging/Structured.antt =====
-- JsonFormatter.format of logging/structured.py, up to the dictionary that json.dumps gets. A record of the logging
-- library has the attributes that `extra` gave it.
use pg_monitor.Prelude.{String, Option, none, some, List, [], ◌∷◌, ◌++◌}
use pg_monitor.Prelude.Eq.{String_eq}
use pg_monitor.Prelude.Dict.{get}
use pg_monitor.Prelude.Text.{Text, codes}
use pg_monitor.Logging.Masking.{mask_secrets}

-- The values of Python that an entry can have: `None`, a string, and those that a caller gave.
pub data Value (V : Type 0) : Type 0 where
  absent : Value V
  text : Text → Value V
  given : V → Value V

pub record LogRecord (V : Type 0) : Type 0 where
  pub levelname : Text
  pub logger_name : Text
  -- `getMessage()`
  pub message : Text
  pub extra : List (String × Value V)
  -- What `formatException` makes of `exc_info`, if there is one.
  pub exc_info : Option Text

-- The context variables of logging/context.py.
pub record Variables : Type 0 where
  pub request_id : Option Text
  pub poll_cycle_id : Option Text
  pub queryid : Option Text

pub record JsonFormatter : Type 0 where
  pub service : Text
  pub environment : Text

module _ {V : Type 0} where
  abbrev pub text_or_none : Option Text → Value V
  text_or_none none = absent
  text_or_none (some s) = text s

  -- `getattr(record, name, default)`
  abbrev attribute_or : Value V → Option (Value V) → Value V
  attribute_or default none = default
  attribute_or default (some v) = v

  unfoldable pub getattr : LogRecord V → String → Value V → Value V
  getattr r name default = attribute_or default (get r.extra name)

  abbrev pub exception_of : Option Text → List (String × Value V)
  exception_of none = []
  exception_of (some s) = ("exception", text s) ∷ []

  -- The payload at the time that `now` is the text of.
  unfoldable pub format : JsonFormatter → Variables → Text → LogRecord V → List (String × Value V)
  unfolding getattr mask_secrets
  format self context now r =
      ("timestamp", text now)
        ∷ ("level", text r.levelname)
        ∷ ("logger", text r.logger_name)
        ∷ ("message", text (mask_secrets r.message))
        ∷ ("service", text self.service)
        ∷ ("env", text self.environment)
        ∷ ("component", getattr r "component" (text (codes "app")))
        ∷ ("request_id", getattr r "request_id" (text_or_none context.request_id))
        ∷ ("poll_cycle_id", getattr r "poll_cycle_id" (text_or_none context.poll_cycle_id))
        ∷ ("queryid", getattr r "queryid" (text_or_none context.queryid))
        ∷ ("db_identifier", getattr r "db_identifier" absent)
        ∷ ("duration_ms", getattr r "duration_ms" absent)
        ∷ ("error_type", getattr r "error_type" absent)
        ∷ ("collection_profile", getattr r "collection_profile" absent)
        ∷ ("runtime_interval_s", getattr r "runtime_interval_s" absent)
        ∷ ("query_interval_s", getattr r "query_interval_s" absent)
        ∷ ("method", getattr r "method" absent)
        ∷ ("path", getattr r "path" absent)
        ∷ ("status_code", getattr r "status_code" absent)
        ∷ ("rows_written", getattr r "rows_written" absent)
        ∷ []
      ++ exception_of r.exc_info
