-- ===== src/Metrics/Exporter.antt =====
-- RuntimeMetricsExporter of metrics/prometheus_exporter.py with the client library: a fresh registry gets the samples of
-- each state, and its text is put in front of that of the service's registry.
pub mod Entries
pub mod Values
pub mod Bounds
use pg_monitor.Prelude.{
  ℕ, String, Option, none, some, List, [], ◌∷◌, ◌++◌, Bool, true, false, if◌then◌else◌, map, filter,
}
use pg_monitor.Prelude.Int.{ℤ, sub_ℕ}
use pg_monitor.Prelude.Eq.{Eq, ℕ_eq, String_eq, Pair_eq, List_eq}
use pg_monitor.Prelude.Dict.{Dict, put}
use pg_monitor.Prelude.Floats.{Floats, lt_f, eq_f}
use pg_monitor.Prelude.Text.{Text, newline, strip, rstrip, join_lines, is_empty}
use pg_monitor.Metrics.Models.{RuntimeDatabaseMetrics, RuntimeMetricsState, Numbers}
use pg_monitor.Metrics.Gauges.{
  Gauge, active_connections, blocked_sessions, longest_tx, waiting_locks, granted_locks,
  snapshot_age, db_numbackends, db_xact_commit, db_xact_rollback, db_blks_read, db_blks_hit,
  db_deadlocks, GaugeSpec, spec_of, Samples, Gauge_eq,
}

module _ {F : Type 0} ⦃f : Floats F⦄ where
  -- `max(a, 0.0)`: the first, unless the second is above it
  unfoldable pub max_zero : F → F
  max_zero a = if lt_f a f.zero_f then f.zero_f else a

  -- `x or 0.0`
  unfoldable pub or_zero_f : Option F → F
  or_zero_f none = f.zero_f
  or_zero_f (some x) = if eq_f x f.zero_f then f.zero_f else x

module _ {F : Type 0} ⦃f : Floats F⦄ ⦃n : Numbers F⦄ where
  -- `max((observed_at - state.captured_at).total_seconds(), 0.0)`
  unfoldable pub age_seconds : ℕ → RuntimeMetricsState F → F
  unfolding max_zero
  age_seconds observed_at state = max_zero (n.total_seconds (sub_ℕ observed_at state.captured_at))

  -- `gauge.labels(...).set(value)`
  abbrev pub set_gauge : Gauge → List String → F → Samples F → Samples F
  set_gauge gauge labels value samples = put samples (gauge, labels) value

  unfoldable pub set_server : ℕ → RuntimeMetricsState F → Samples F → Samples F
  unfolding age_seconds or_zero_f
  set_server observed_at state samples =
      let labels = state.db_identifier ∷ [] in
      let samples =
        set_gauge active_connections labels (n.float_of state.active_connections) samples in
      let samples = set_gauge blocked_sessions labels (n.float_of state.blocked_sessions) samples in
      let samples = set_gauge longest_tx labels (or_zero_f state.longest_tx_duration_s) samples in
      let samples = set_gauge waiting_locks labels (n.float_of state.waiting_locks) samples in
      let samples = set_gauge granted_locks labels (n.float_of state.granted_locks) samples in
      set_gauge snapshot_age labels (age_seconds observed_at state) samples

  unfoldable pub set_database : String → RuntimeDatabaseMetrics → Samples F → Samples F
  set_database db_identifier db samples =
      let db_labels = db_identifier ∷ db.datname ∷ [] in
      let samples = set_gauge db_numbackends db_labels (n.float_of db.numbackends) samples in
      let samples = set_gauge db_xact_commit db_labels (n.float_of db.xact_commit) samples in
      let samples = set_gauge db_xact_rollback db_labels (n.float_of db.xact_rollback) samples in
      let samples = set_gauge db_blks_read db_labels (n.float_of db.blks_read) samples in
      let samples = set_gauge db_blks_hit db_labels (n.float_of db.blks_hit) samples in
      set_gauge db_deadlocks db_labels (n.float_of db.deadlocks) samples

  unfoldable pub set_databases : String → List RuntimeDatabaseMetrics → Samples F → Samples F
  unfolding set_database
  set_databases db_identifier [] samples = samples
  set_databases db_identifier (db ∷ rest) samples =
      set_databases db_identifier rest (set_database db_identifier db samples)

  unfoldable pub set_states : ℕ → List (RuntimeMetricsState F) → Samples F → Samples F
  unfolding set_server set_databases
  set_states observed_at [] samples = samples
  set_states observed_at (state ∷ rest) samples =
      set_states observed_at rest
        (set_databases state.db_identifier state.database (set_server observed_at state samples))

-- `if item.strip()`
unfoldable pub is_blank : Text → Bool
unfolding strip
is_blank item = is_empty (strip item)

unfoldable pub strip_payloads : List Text → List Text
unfolding is_blank rstrip
strip_payloads [] = []
strip_payloads (item ∷ rest) = elim (is_blank item) [
  | true ↦ strip_payloads rest
  | false ↦ rstrip (λ c. ℕ_eq.beq c newline) item ∷ strip_payloads rest
]

-- `"\n" if not chunks else "\n".join(chunks) + "\n"`
unfoldable pub end_lines : List Text → Text
unfolding join_lines
end_lines [] = newline ∷ []
end_lines (chunk ∷ chunks) = join_lines (chunk ∷ chunks) ++ newline ∷ []

unfoldable pub merge_prometheus_payloads : List Text → Text
unfolding strip_payloads end_lines
merge_prometheus_payloads payloads = end_lines (strip_payloads payloads)

module _ {F : Type 0} ⦃f : Floats F⦄ ⦃n : Numbers F⦄ where
  -- `generate_latest` of the client library, of a registry of gauges; the text of the service's own
  -- registry is `service_payload`.
  unfoldable pub render_with_prometheus_client :
      ((Gauge → GaugeSpec) → Samples F → Text) → Text → List (RuntimeMetricsState F) → ℕ → Text
  unfolding set_states merge_prometheus_payloads
  render_with_prometheus_client generate_latest service_payload states observed_at =
      merge_prometheus_payloads
        (generate_latest spec_of (set_states observed_at states []) ∷ service_payload ∷ [])
