-- ===== src/Metrics/Exporter/Entries.antt =====
-- The samples that the states set, as one list of entries in the order of the calls.
use pg_monitor.Prelude.{ℕ, ◌≡◌, refl, sym, ap, ◌∙◌, map, String, List, [], ◌∷◌, ◌++◌}
use pg_monitor.Prelude.Eq.{String_eq, Pair_eq, List_eq}
use pg_monitor.Prelude.Dict.Entries.{put_entries, put_entries-append}
use pg_monitor.Prelude.Floats.{Floats}
use pg_monitor.Metrics.Models.{RuntimeDatabaseMetrics, RuntimeMetricsState, Numbers}
use pg_monitor.Metrics.Gauges.{
  Gauge, active_connections, blocked_sessions, longest_tx, waiting_locks, granted_locks,
  snapshot_age, db_numbackends, db_xact_commit, db_xact_rollback, db_blks_read, db_blks_hit,
  db_deadlocks, SampleKey, Samples, Gauge_eq,
}
use pg_monitor.Metrics.Exporter.{
  age_seconds, or_zero_f, set_server, set_database, set_databases, set_states,
}

abbrev pub server_gauges : List Gauge
server_gauges =
    active_connections ∷ blocked_sessions ∷ longest_tx ∷ waiting_locks ∷ granted_locks
    ∷ snapshot_age ∷ []

abbrev pub database_gauges : List Gauge
database_gauges =
    db_numbackends ∷ db_xact_commit ∷ db_xact_rollback ∷ db_blks_read ∷ db_blks_hit ∷ db_deadlocks
    ∷ []

abbrev pub Entry : Type 0 → Type 0
Entry F = SampleKey × F

module _ {F : Type 0} ⦃f : Floats F⦄ ⦃n : Numbers F⦄ where
  -- What each gauge of a server, and of a database, stands for.
  unfoldable pub server_value : ℕ → RuntimeMetricsState F → Gauge → F
  server_value observed_at state active_connections = n.float_of state.active_connections
  server_value observed_at state blocked_sessions = n.float_of state.blocked_sessions
  server_value observed_at state longest_tx = or_zero_f state.longest_tx_duration_s
  server_value observed_at state waiting_locks = n.float_of state.waiting_locks
  server_value observed_at state granted_locks = n.float_of state.granted_locks
  server_value observed_at state _ = age_seconds observed_at state

  unfoldable pub database_value : RuntimeDatabaseMetrics → Gauge → F
  database_value db db_numbackends = n.float_of db.numbackends
  database_value db db_xact_commit = n.float_of db.xact_commit
  database_value db db_xact_rollback = n.float_of db.xact_rollback
  database_value db db_blks_read = n.float_of db.blks_read
  database_value db db_blks_hit = n.float_of db.blks_hit
  database_value db _ = n.float_of db.deadlocks

  abbrev pub server_entry : ℕ → RuntimeMetricsState F → Gauge → Entry F
  server_entry observed_at state g =
      ((g, state.db_identifier ∷ []), server_value observed_at state g)

  abbrev pub database_entry : String → RuntimeDatabaseMetrics → Gauge → Entry F
  database_entry db_identifier db g = ((g, db_identifier ∷ db.datname ∷ []), database_value db g)

  abbrev pub server_entries : ℕ → RuntimeMetricsState F → List (Entry F)
  server_entries observed_at state = map (server_entry observed_at state) server_gauges

  abbrev pub database_entries : String → RuntimeDatabaseMetrics → List (Entry F)
  database_entries db_identifier db = map (database_entry db_identifier db) database_gauges

  abbrev pub databases_entries : String → List RuntimeDatabaseMetrics → List (Entry F)
  databases_entries db_identifier [] = []
  databases_entries db_identifier (db ∷ rest) =
      database_entries db_identifier db ++ databases_entries db_identifier rest

  abbrev pub state_entries : ℕ → RuntimeMetricsState F → List (Entry F)
  state_entries observed_at state =
      server_entries observed_at state ++ databases_entries state.db_identifier state.database

  abbrev pub entries : ℕ → List (RuntimeMetricsState F) → List (Entry F)
  entries observed_at [] = []
  entries observed_at (state ∷ rest) = state_entries observed_at state ++ entries observed_at rest

  set_databases-entries :
      (db_identifier : String) (databases : List RuntimeDatabaseMetrics) (d : Samples F)
      → set_databases db_identifier databases d
        ≡ put_entries (databases_entries db_identifier databases) d
  unfolding set_databases set_database put_entries database_value
  set_databases-entries db_identifier [] d = refl
  set_databases-entries db_identifier (db ∷ rest) d =
      set_databases-entries db_identifier rest (set_database db_identifier db d)

  pub set_states-entries :
      (observed_at : ℕ) (states : List (RuntimeMetricsState F)) (d : Samples F)
      → set_states observed_at states d ≡ put_entries (entries observed_at states) d
  unfolding set_states set_server put_entries server_value
  set_states-entries observed_at [] d = refl
  set_states-entries observed_at (state ∷ rest) d =
      ap (set_states observed_at rest)
        (set_databases-entries state.db_identifier state.database (set_server observed_at state d))
      ∙ set_states-entries observed_at rest _
      ∙ sym (
          put_entries-append (databases_entries state.db_identifier state.database)
            (entries observed_at rest) (set_server observed_at state d))
