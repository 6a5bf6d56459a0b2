-- ===== src/Metrics/Gauges.antt =====
-- _RuntimeGaugeSet of metrics/prometheus_exporter.py: the gauges with their names, texts and labels, and the
-- samples of a registry.
use pg_monitor.Prelude.{
  ℕ, zero, suc, ◌≡◌, refl, sym, ap, ◌∙◌, ◌↔◌, String, true, List, [], ◌∷◌, ◌==◌, ==_iff,
}
use pg_monitor.Prelude.Eq.{Eq, String_eq}
use pg_monitor.Prelude.Dict.{Dict}

pub data Gauge : Type 0 where
  active_connections blocked_sessions longest_tx waiting_locks granted_locks snapshot_age : Gauge
  db_numbackends db_xact_commit db_xact_rollback db_blks_read db_blks_hit db_deadlocks : Gauge

pub record GaugeSpec : Type 0 where
  pub name : String
  pub documentation : String
  pub labelnames : List String

abbrev per_server : String → String → GaugeSpec
per_server name documentation = record {
  name = name;
  documentation = documentation;
  labelnames = "db_identifier" ∷ [];
}

abbrev per_database : String → String → GaugeSpec
per_database name documentation = record {
  name = name;
  documentation = documentation;
  labelnames = "db_identifier" ∷ "datname" ∷ [];
}

unfoldable pub spec_of : Gauge → GaugeSpec
spec_of active_connections =
    per_server "pg_monitor_runtime_active_connections"
      "Active PostgreSQL connections from pg_stat_activity."
spec_of blocked_sessions =
    per_server "pg_monitor_runtime_blocked_sessions" "Blocked sessions waiting on lock."
spec_of longest_tx =
    per_server "pg_monitor_runtime_longest_tx_duration_seconds"
      "Longest transaction duration in seconds."
spec_of waiting_locks =
    per_server "pg_monitor_runtime_waiting_locks" "Waiting locks count from pg_locks."
spec_of granted_locks =
    per_server "pg_monitor_runtime_granted_locks" "Granted locks count from pg_locks."
spec_of snapshot_age =
    per_server "pg_monitor_runtime_snapshot_age_seconds"
      "Age of the latest runtime snapshot in seconds."
spec_of db_numbackends =
    per_database "pg_monitor_runtime_db_numbackends" "Number of backends from pg_stat_database."
spec_of db_xact_commit =
    per_database "pg_monitor_runtime_db_xact_commit" "Transactions committed from pg_stat_database."
spec_of db_xact_rollback =
    per_database "pg_monitor_runtime_db_xact_rollback"
      "Transactions rolled back from pg_stat_database."
spec_of db_blks_read =
    per_database "pg_monitor_runtime_db_blks_read" "Blocks read from pg_stat_database."
spec_of db_blks_hit =
    per_database "pg_monitor_runtime_db_blks_hit" "Blocks hit from pg_stat_database."
spec_of db_deadlocks =
    per_database "pg_monitor_runtime_db_deadlocks" "Deadlocks from pg_stat_database."

-- A gauge by its place in the class.
abbrev pub index : Gauge → ℕ
index active_connections = 0
index blocked_sessions = 1
index longest_tx = 2
index waiting_locks = 3
index granted_locks = 4
index snapshot_age = 5
index db_numbackends = 6
index db_xact_commit = 7
index db_xact_rollback = 8
index db_blks_read = 9
index db_blks_hit = 10
index db_deadlocks = 11

nth : ℕ → List Gauge → Gauge
nth n [] = db_deadlocks
nth zero (g ∷ gs) = g
nth (suc n) (g ∷ gs) = nth n gs

gauge_at : ℕ → Gauge
unfolding nth
gauge_at n = nth n (
    active_connections ∷ blocked_sessions ∷ longest_tx ∷ waiting_locks ∷ granted_locks
    ∷ snapshot_age ∷ db_numbackends ∷ db_xact_commit ∷ db_xact_rollback ∷ db_blks_read ∷ db_blks_hit
    ∷ db_deadlocks ∷ [])

gauge_at-index : (g : Gauge) → gauge_at (index g) ≡ g
unfolding gauge_at nth
gauge_at-index active_connections = refl
gauge_at-index blocked_sessions = refl
gauge_at-index longest_tx = refl
gauge_at-index waiting_locks = refl
gauge_at-index granted_locks = refl
gauge_at-index snapshot_age = refl
gauge_at-index db_numbackends = refl
gauge_at-index db_xact_commit = refl
gauge_at-index db_xact_rollback = refl
gauge_at-index db_blks_read = refl
gauge_at-index db_blks_hit = refl
gauge_at-index db_deadlocks = refl

index-injective : (g h : Gauge) → index g ≡ index h → g ≡ h
index-injective g h e = sym (gauge_at-index g) ∙ ap gauge_at e ∙ gauge_at-index h

pub Gauge_iff : (g h : Gauge) → ((index g == index h) ≡ true) ↔ (g ≡ h)
Gauge_iff g h = (
  λ t. index-injective g h ((==_iff (index g) (index h)).0 t),
  λ e. (==_iff (index g) (index h)).1 (ap index e),
)

instance abbrev pub Gauge_eq : Eq Gauge
Gauge_eq = record { beq = λ g h. index g == index h; beq_iff = Gauge_iff }

-- The samples of a registry: the value of a gauge for the values of its labels.
abbrev pub SampleKey : Type 0
SampleKey = Gauge × List String

abbrev pub Samples : Type 0 → Type 0
Samples F = Dict SampleKey F
