-- ===== src/Metrics/Service/Current.antt =====
-- GET /metrics from the tables: what get_metrics_state reads and the gauges show.
use pg_monitor.Prelude.{
  ℕ, ◌≡◌, refl, sym, ap, ◌∙◌, subst, String, none, some, List, [], ◌∷◌, Bool, true, All,
  All-of_Elem, All-Elem, Elem-of_filter, All-filter, Elem, Elem-map, Elem-filter, Distinct, map,
  filter,
}
use pg_monitor.Prelude.Int.{sub_ℕ}
use pg_monitor.Prelude.Eq.{String_eq, Pair_eq, List_eq, ◌=?◌, =?→eq}
use pg_monitor.Prelude.Sort.{Elem-sort_by}
use pg_monitor.Prelude.Sort.Distinct.{Distinct-filter, Distinct-sort_by, Distinct-map}
use pg_monitor.Prelude.Dict.{get, has}
use pg_monitor.Prelude.Dict.Keys.{has-Elem}
use pg_monitor.Prelude.Floats.{Floats}
use pg_monitor.Exn.{ok}
use pg_monitor.Storage.Orm.{RuntimeCurrentOrm, RuntimeDatabaseCurrentOrm}
use pg_monitor.Storage.Session.{Session}
use pg_monitor.Storage.Uow.Atomicity.{entered, left, with_uow_read}
use pg_monitor.Storage.Queries.Latest.{Collation}
use pg_monitor.Storage.Runtime.Read.{
  database_state, databases_query, list_runtime_current, matches, current_query,
}
use pg_monitor.Storage.Runtime.Read.States.{state_with, databases_of, load_runtime_states_lem}
use pg_monitor.Metrics.Models.{RuntimeMetricsState, Numbers}
use pg_monitor.Metrics.Service.{
  to_database_metrics, to_runtime_metrics_state, read_states, get_metrics_state,
}
use pg_monitor.Metrics.Gauges.{
  Gauge, active_connections, blocked_sessions, longest_tx, waiting_locks, granted_locks,
  db_numbackends, db_xact_commit, db_xact_rollback, db_blks_read, db_blks_hit, Samples, Gauge_eq,
}
use pg_monitor.Metrics.Exporter.{max_zero, or_zero_f, age_seconds, set_states}
use pg_monitor.Metrics.Exporter.Entries.{
  server_value, database_value, server_gauges, database_gauges,
}
use pg_monitor.Metrics.Exporter.Values.{server_sample, database_sample}

module _ {F : Type 0} ⦃f : Floats F⦄ ⦃n : Numbers F⦄ where
  -- What each gauge stands for, of a row of runtime_current and of runtime_database_current.
  unfoldable pub current_value : ℕ → RuntimeCurrentOrm F → Gauge → F
  current_value observed_at row active_connections = n.float_of row.active_connections
  current_value observed_at row blocked_sessions = n.float_of row.blocked_sessions
  current_value observed_at row longest_tx = or_zero_f row.longest_tx_duration_s
  current_value observed_at row waiting_locks = n.float_of row.waiting_locks
  current_value observed_at row granted_locks = n.float_of row.granted_locks
  current_value observed_at row _ = max_zero (n.total_seconds (sub_ℕ observed_at row.captured_at))

  unfoldable pub database_current_value : RuntimeDatabaseCurrentOrm → Gauge → F
  database_current_value row db_numbackends = n.float_of row.numbackends
  database_current_value row db_xact_commit = n.float_of row.xact_commit
  database_current_value row db_xact_rollback = n.float_of row.xact_rollback
  database_current_value row db_blks_read = n.float_of row.blks_read
  database_current_value row db_blks_hit = n.float_of row.blks_hit
  database_current_value row _ = n.float_of row.deadlocks

  -- The samples show the row and the rows of its databases.
  abbrev pub Shows : Samples F → ℕ → RuntimeCurrentOrm F → List RuntimeDatabaseCurrentOrm → Type 0
  Shows samples observed_at row db_rows =
      All (λ g. get samples (g, row.db_identifier ∷ []) ≡ some (current_value observed_at row g))
        server_gauges
      × All
          (λ d.
            All
              (λ g.
                get samples (g, row.db_identifier ∷ d.datname ∷ [])
                ≡ some (database_current_value d g))
              database_gauges)
          db_rows

-- The unique key of runtime_database_current.
abbrev pub named : RuntimeDatabaseCurrentOrm → String × String
named r = (r.db_identifier, r.datname)

module _ {F : Type 0} ⦃c : Collation⦄ where
  abbrev states_read : Session F → List (RuntimeMetricsState F)
  states_read s =
      let rows = current_query none s.committed in
      map to_runtime_metrics_state (map (state_with (databases_of (entered s) rows)) rows)

  get_metrics_state_calm :
      (s : Session F) → s.faults ≡ [] → get_metrics_state none s ≡ (ok (states_read s), left s)
  unfolding get_metrics_state read_states list_runtime_current
  get_metrics_state_calm s calm =
      rw (with_uow_read (read_states none) s _ calm (load_runtime_states_lem (entered s) calm none))

  Distinct-states :
      (s : Session F)
      → Distinct (λ r. r.db_identifier) s.committed.runtime_current
      → Distinct (λ r. r.db_identifier) (states_read s)
  unfolding current_query to_runtime_metrics_state
  Distinct-states s d =
      let rows = current_query none s.committed in
      Distinct-map (λ r. r.db_identifier) to_runtime_metrics_state (λ r. r.db_identifier)
        (λ r. Unit {0}) (λ x y _ _ e. e) _ (All-of_Elem _ _ (λ a m. tt))
        (Distinct-map (λ r. r.db_identifier) (state_with (databases_of (entered s) rows))
          (λ r. r.db_identifier) (λ r. Unit {0}) (λ x y _ _ e. e) rows
          (All-of_Elem _ rows (λ a m. tt))
          (Distinct-sort_by (λ r. r.db_identifier) _ _
            (Distinct-filter (λ r. r.db_identifier) (matches none) s.committed.runtime_current d)))

  Elem-states :
      (s : Session F) (row : RuntimeCurrentOrm F)
      → Elem row s.committed.runtime_current
      → Elem
          (to_runtime_metrics_state
            (state_with (databases_of (entered s) (current_query none s.committed)) row))
          (states_read s)
  unfolding current_query
  Elem-states s row m = Elem-map to_runtime_metrics_state _ _ (
      Elem-map (state_with _) row _
        (Elem-sort_by _ row _ (Elem-filter (λ r. true) s.committed.runtime_current m refl)))

  -- The rows of the databases of one server, as the states have them.
  abbrev own_rows : Session F → String → List RuntimeDatabaseCurrentOrm
  own_rows s db =
      filter (λ r. r.db_identifier =? db)
        (databases_of (entered s) (current_query none s.committed))

  Distinct-databases :
      (s : Session F) (db : String)
      → Distinct named s.committed.runtime_database_current
      → Distinct (λ y. y.datname) (map to_database_metrics (map database_state (own_rows s db)))
  unfolding databases_query to_database_metrics database_state
  Distinct-databases s db d =
      Distinct-map (λ r. r.datname) to_database_metrics (λ y. y.datname) (λ r. Unit {0})
        (λ x y _ _ e. e) _ (All-of_Elem _ _ (λ a m. tt))
        (Distinct-map named database_state (λ r. r.datname) (λ r. (r.db_identifier =? db) ≡ true)
          (λ x y p q e. same_key x y p q e) (own_rows s db)
          (All-filter _ (databases_of (entered s) (current_query none s.committed)))
          (Distinct-filter named _ _ (
            Distinct-sort_by named _ _
              (Distinct-filter named _ s.committed.runtime_database_current d))))
    where
      same_key :
          (x y : RuntimeDatabaseCurrentOrm)
          → (x.db_identifier =? db) ≡ true
          → (y.db_identifier =? db) ≡ true
          → x.datname ≡ y.datname
          → ◌≡◌ {A = String × String} (x.db_identifier, x.datname) (y.db_identifier, y.datname)
      same_key x y p q e =
          let dbs = =?→eq x.db_identifier db p ∙ sym (=?→eq y.db_identifier db q) in
          ap (λ z. (z, x.datname)) dbs ∙ ap (λ z. (y.db_identifier, z)) e

  Elem-databases :
      (s : Session F) (row : RuntimeCurrentOrm F) (d : RuntimeDatabaseCurrentOrm)
      → Elem row s.committed.runtime_current
      → Elem d s.committed.runtime_database_current
      → (d.db_identifier =? row.db_identifier) ≡ true
      → Elem
          (to_database_metrics (database_state d))
          (map to_database_metrics (map database_state (own_rows s row.db_identifier)))
  unfolding databases_query current_query
  Elem-databases s row d m at own =
      let ids = map (λ r. r.db_identifier) (current_query none s.committed) in
      let asked = has-Elem row.db_identifier ids (
        Elem-map (λ r. r.db_identifier) row (current_query none s.committed)
          (Elem-sort_by _ row _ (Elem-filter (λ r. true) s.committed.runtime_current m refl))) in
      let known =
        subst (λ y. has ids y ≡ true) (sym (=?→eq d.db_identifier row.db_identifier own)) asked in
      Elem-map to_database_metrics _ _ (
        Elem-map database_state d _ (
          Elem-filter (λ r. r.db_identifier =? row.db_identifier)
            (databases_of (entered s) (current_query none s.committed))
            (Elem-sort_by _ d _ (
              Elem-filter (λ r. has ids r.db_identifier) s.committed.runtime_database_current at
                known))
            own))

module _ {F : Type 0} ⦃c : Collation⦄ ⦃f : Floats F⦄ ⦃n : Numbers F⦄ where
  -- On a session whose statements succeed and on tables with their primary keys and unique names, a request for the
  -- metrics of all servers reads states whose gauges show, of every server with a current row, that row and each row
  -- of its databases; the unit of work is closed.
  pub get_metrics_state-Shows :
      (s : Session F)
      → s.faults ≡ []
      → Distinct (λ r. r.db_identifier) s.committed.runtime_current
      → Distinct named s.committed.runtime_database_current
      → (row : RuntimeCurrentOrm F) → Elem row s.committed.runtime_current
      → (observed_at : ℕ)
      → (states : List (RuntimeMetricsState F)) × (get_metrics_state none s ≡ (ok states, left s))
        × Shows (set_states observed_at states []) observed_at row (
            filter (λ r. r.db_identifier =? row.db_identifier) s.committed.runtime_database_current)
  unfolding current_value database_current_value server_value database_value
      to_runtime_metrics_state age_seconds to_database_metrics database_state
  get_metrics_state-Shows s calm d e row m observed_at =
      let own : RuntimeDatabaseCurrentOrm → Bool = λ r. r.db_identifier =? row.db_identifier in
      let state =
        to_runtime_metrics_state
          (state_with (databases_of (entered s) (current_query none s.committed)) row) in
      (
        states_read s,
        get_metrics_state_calm s calm,
        (
          All-of_Elem
              (λ g.
                get (set_states observed_at (states_read s) []) (g, row.db_identifier ∷ [])
                ≡ some (server_value observed_at state g))
              server_gauges
              (server_sample observed_at (states_read s) (Distinct-states s d) state
                (Elem-states s row m)),
          All-of_Elem _ (filter own s.committed.runtime_database_current) λ y k.
              let at = Elem-of_filter own y s.committed.runtime_database_current k in
              let mine =
                All-Elem (λ r. own r ≡ true) (filter own s.committed.runtime_database_current)
                  (All-filter own s.committed.runtime_database_current) k in
              All-of_Elem
                (λ g.
                  get (set_states observed_at (states_read s) [])
                    (g, row.db_identifier ∷ y.datname ∷ [])
                  ≡ some (database_value (to_database_metrics (database_state y)) g))
                database_gauges
                (database_sample observed_at (states_read s) (Distinct-states s d) state
                  (Elem-states s row m) (to_database_metrics (database_state y))
                  (Distinct-databases s row.db_identifier e) (Elem-databases s row y m at mine)),
        ),
      )
