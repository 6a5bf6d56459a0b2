-- ===== src/Exn.antt =====
-- The exceptions of the program and those that it catches (collector/errors.py, storage/errors.py,
-- query_analytics/errors.py), the classes that its `except` clauses name, and results.
use pg_monitor.Prelude.{String, ◌≡◌, refl, Bool, true, false}

pub data Exn : Type 0 where
  -- query_analytics/errors.py, with the message that the API shows
  query_analytics_validation_error : String → Exn
  -- storage/errors.py
  storage_error storage_schema_error storage_write_error storage_read_error : Exn
  -- collector/errors.py
  collector_error collector_connection_error collector_query_error : Exn
  collector_prerequisite_error : Exn
  -- config/settings.py, and pydantic's
  configuration_error validation_error : Exn
  -- of SQLAlchemy, asyncpg and Python
  sqlalchemy_error postgres_connection_error postgres_error : Exn
  -- asyncpg's errors that are no PostgresError: InterfaceError and InternalClientError
  interface_error : Exn
  os_error timeout_error value_error key_error type_error overflow_error runtime_error : Exn
  -- a BaseException that is no Exception
  cancelled_error : Exn
  -- any other Exception
  other_error : Exn

pub data Result {ℓ} (A : Type ℓ) : Type ℓ where
  ok : A → Result A
  err : Exn → Result A

-- `except CollectorError`
abbrev pub is_collector_error : Exn → Bool
is_collector_error collector_error = true
is_collector_error collector_connection_error = true
is_collector_error collector_query_error = true
is_collector_error collector_prerequisite_error = true
is_collector_error _ = false

-- `except StorageError`
abbrev pub is_storage_error : Exn → Bool
is_storage_error storage_error = true
is_storage_error storage_schema_error = true
is_storage_error storage_write_error = true
is_storage_error storage_read_error = true
is_storage_error _ = false

-- `except SQLAlchemyError`
abbrev pub is_sqlalchemy_error : Exn → Bool
is_sqlalchemy_error sqlalchemy_error = true
is_sqlalchemy_error _ = false

-- `except TimeoutError`
abbrev pub is_timeout_error : Exn → Bool
is_timeout_error timeout_error = true
is_timeout_error _ = false

-- `except (OSError, asyncpg.PostgresConnectionError)`: a TimeoutError is an OSError
abbrev pub is_connection_failure : Exn → Bool
is_connection_failure os_error = true
is_connection_failure timeout_error = true
is_connection_failure postgres_connection_error = true
is_connection_failure _ = false

-- `except asyncpg.PostgresError`, of which PostgresConnectionError is a subclass
abbrev pub is_postgres_error : Exn → Bool
is_postgres_error postgres_error = true
is_postgres_error postgres_connection_error = true
is_postgres_error _ = false

-- `except Exception`
abbrev pub is_exception : Exn → Bool
is_exception cancelled_error = false
is_exception _ = true

infixl 5 ◌>>=◌
abbrev pub ◌>>=◌ {ℓ κ} : {X : Type ℓ} {Y : Type κ} (r : Result X) (next : X → Result Y) → Result Y
err e >>= next = err e
ok x >>= next = next x

-- A step of which only the error matters.
infixl 5 ◌>>◌
abbrev pub ◌>>◌ {κ} : {Y : Type κ} (check : Result (Unit {0})) (rest : Result Y) → Result Y
err e >> rest = err e
ok tt >> rest = rest

pub ok-injective {ℓ} : {A : Type ℓ} {a b : A} → ok a ≡ ok b → a ≡ b
ok-injective h = cc

-- What a chain that succeeds went through.
pub >>=-ok {κ} :
    {X Y : Type κ} {y : Y} (r : Result X) (next : X → Result Y)
    → (r >>= next) ≡ ok y
    → (x : X) × (next x ≡ ok y) × (r ≡ ok x)
>>=-ok (err e) next chain = cc
>>=-ok (ok x) next chain = (x, chain, refl)
