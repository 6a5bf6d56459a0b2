-- ===== src/Lib.antt =====
-- pg_monitor: a monitor that collects statistics of a PostgreSQL server, stores them, and answers which queries
-- cost the most over a window of time.
--
-- Parts, and how they interact:
--   - the collector (src/pg_monitor/collector) polls the server. `worker.py` starts the scheduler with retries;
--     `scheduler.py` runs two jobs; a job calls `service.py` for one cycle, which reads rows through
--     `repository.py` and makes the values of `models.py`, and then writes in one unit of work.
--   - storage (src/pg_monitor/storage) is a unit of work (`uow.py`) around a session, and two repositories
--     (`repositories.py`) over the tables of `orm.py`.
--   - query_analytics (src/pg_monitor/query_analytics) reads the newest snapshots at or before the ends of a window
--     and ranks the differences of their counters.
--   - metrics (src/pg_monitor/metrics) reads the current runtime states from storage and renders them as gauges,
--     next to the counts of the API's own requests.
--   - the API (src/pg_monitor/api) is a middleware that gives a request its id, logs and counts it, around
--     endpoints that call query_analytics and metrics, with handlers that turn their errors into responses.
--   - logging (src/pg_monitor/logging) formats the entries of all parts and masks secrets in their messages.
--   - config (src/pg_monitor/config) loads the settings that the worker and the API start with; alembic/versions
--     holds the revisions that make the tables.
--
-- Files, with the code that each is about:
--   - Prelude and below: lists, integers over the native naturals, preorders, a stable sort, dictionaries, and
--     `Floats`, the interface of the float operations that the program uses, with the laws of IEEE 754 that it
--     relies on, for values that are not NaN; the runs use whole numbers. A float of the settings can be NaN.
--   - Exn: the exceptions of src/pg_monitor/*/errors.py and of the libraries, and the classes of `except` clauses.
--   - Collector/Models: src/pg_monitor/collector/models.py. Objects of the driver are a parameter (`Objects`).
--   - Collector/Repository: src/pg_monitor/collector/repository.py. The pool's answers are a parameter (`Pool`).
--   - Collector/Context: the context variable of src/pg_monitor/logging/context.py and the log.
--   - Collector/Service: src/pg_monitor/collector/service.py. Collector/Jobs and Collector/Scheduler:
--     src/pg_monitor/collector/scheduler.py. Collector/Worker: src/pg_monitor/collector/worker.py.
--   - Storage/Orm: src/pg_monitor/storage/orm.py and models.py. Storage/Session: SQLAlchemy's session on explicit
--     tables, with a list that says which statements fail. Storage/Uow: src/pg_monitor/storage/uow.py.
--   - Storage/Queries and Storage/Runtime: the two repositories of src/pg_monitor/storage/repositories.py.
--   - Analytics/Models, Delta, Window, Ranking, Service: src/pg_monitor/query_analytics. `_resolve_current_window`
--     and `_validate_period_request` of service.py are in Window, `_sort_deltas` and `_build_period_result` in
--     Ranking, the class QueryAnalyticsService in Service.
--   - Metrics/Models and Metrics/Service: runtime_models.py and runtime_service.py of src/pg_monitor/metrics.
--     Metrics/Gauges, Escape, Exporter and Fallback: prometheus_exporter.py, with the client library's own text as a
--     parameter. Metrics/Requests: api_service_metrics.py.
--   - Api/Middleware, Api/Exceptions, Api/Schemas and Api/Endpoints: src/pg_monitor/api. Api/Server: the state
--     that a request sees.
--   - Config/Sources, Settings and Load: src/pg_monitor/config/settings.py, with the parsing by pydantic as a
--     parameter. Config/Start and Collector/Worker/Start: `_load_runtime_settings` of src/pg_monitor/app.py and of
--     the worker.
--   - Migrations/Schema: schemas and alembic's operations on them. Migrations/Revisions: alembic/versions.
--     Migrations/Declared: the schema that src/pg_monitor/storage/orm.py declares.
--   - Logging/Masking and Logging/Structured: src/pg_monitor/logging/structured.py, with the patterns of
--     SECRET_PATTERNS as scanners. Storage/Engine: src/pg_monitor/storage/session.py.
--     Collector/Provider: `_build_db_identifier` of src/pg_monitor/providers/collector.py.
--   - The folder below a module holds the lemmas and theorems on it, in files named for what they are about.
--   - Examples: concrete data and runs.
--
-- Bounds and fuel: a point in time is a number of microseconds since a day before datetime.min in UTC, which is
-- before every datetime with an offset; the reading of a clock is one since datetime.min. The columns keep the
-- ranges of PostgreSQL's integer and bigint. Every loop of the code is over a list or, in the worker, over `range(1,
-- max_attempts + 1)`; each is structural recursion. The one recursion on fuel is the decimal text of a number, in
-- Prelude/Text: its fuel is the number itself, which is enough since each digit divides it by ten.
--
-- Not modelled: `configure_logging` of src/pg_monitor/logging/structured.py, the wiring of dependencies (the rest of
-- src/pg_monitor/providers and of app.py), the creation of the engine, signal handlers, alembic's env.py, the text
-- of the SQL statements, the end of the id sequences' range, the messages of errors that the program only logs, and
-- what the libraries do: FastAPI's routing, parsing and encoding, pydantic's parsing, and the text that
-- prometheus_client generates. Where the code uses an answer of theirs, it is a parameter. Of SQLAlchemy's session:
-- a statement that fails raises SQLAlchemyError, a commit that fails commits nothing, and close does not fail; the
-- driver's conversion of datetimes before datetime.min in UTC is a statement that fails. NaN among the collected
-- values is left out.
pub mod Prelude
pub mod Exn
pub mod Collector
pub mod Storage
pub mod Analytics
pub mod Logging
pub mod Metrics
pub mod Api
pub mod Config
pub mod Migrations
pub mod Examples
