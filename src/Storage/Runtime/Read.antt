-- ===== src/Storage/Runtime/Read.antt =====
-- get_runtime_current and list_runtime_current of storage/repositories.py.
pub mod States
pub mod Loaded
use pg_monitor.Prelude.{String, Bool, true, Option, none, some, List, [], ◌∷◌, ◌++◌, map, filter}
use pg_monitor.Prelude.Eq.{String_eq, ◌=?◌}
use pg_monitor.Prelude.Order.{lex, on}
use pg_monitor.Prelude.Sort.{sort_by}
use pg_monitor.Prelude.Dict.{Dict, get, put, put_all, has}
use pg_monitor.Exn.{Result, ok, err, storage_read_error, key_error, ◌>>=◌ as ◌>>=ᵣ◌}
use pg_monitor.Storage.Orm.{
  RuntimeCurrentOrm, RuntimeDatabaseCurrentOrm, RuntimeDatabaseState, RuntimeState, Tables,
}
use pg_monitor.Storage.Session.{Db, pure, select, catching, ◌>>=◌}
use pg_monitor.Storage.Queries.Latest.{Collation}

-- The fields of a database row that the state keeps.
unfoldable pub database_state : RuntimeDatabaseCurrentOrm → RuntimeDatabaseState
database_state row = record {
  datid = row.datid;
  datname = row.datname;
  numbackends = row.numbackends;
  xact_commit = row.xact_commit;
  xact_rollback = row.xact_rollback;
  blks_read = row.blks_read;
  blks_hit = row.blks_hit;
  deadlocks = row.deadlocks;
}

append_state :
    Option (List RuntimeDatabaseState)
    → RuntimeDatabaseCurrentOrm
    → Result (List RuntimeDatabaseState)
unfolding database_state
append_state none row = err key_error
append_state (some states) row = ok (states ++ database_state row ∷ [])

-- `grouped[row.db_identifier].append(...)` for each row
unfoldable pub group_states :
    List RuntimeDatabaseCurrentOrm
    → Dict String (List RuntimeDatabaseState)
    → Result (Dict String (List RuntimeDatabaseState))
unfolding append_state
group_states [] grouped = ok grouped
group_states (row ∷ rows) grouped = elim (append_state (get grouped row.db_identifier) row) [
  | err e ↦ err e
  | ok appended ↦ group_states rows (put grouped row.db_identifier appended)
]

module _ {F : Type 0} where
  state_of : RuntimeCurrentOrm F → Option (List RuntimeDatabaseState) → Result (RuntimeState F)
  state_of row none = err key_error
  state_of row (some database) = ok (record {
    captured_at = row.captured_at;
    db_identifier = row.db_identifier;
    active_connections = row.active_connections;
    blocked_sessions = row.blocked_sessions;
    longest_tx_duration_s = row.longest_tx_duration_s;
    waiting_locks = row.waiting_locks;
    granted_locks = row.granted_locks;
    database = database;
  })

  unfoldable pub build_states :
      Dict String (List RuntimeDatabaseState)
      → List (RuntimeCurrentOrm F)
      → Result (List (RuntimeState F))
  unfolding state_of
  build_states grouped [] = ok []
  build_states grouped (row ∷ rows) = state_of row (get grouped row.db_identifier) >>=ᵣ λ state.
      build_states grouped rows >>=ᵣ λ states. ok (state ∷ states)

  unfoldable pub group_and_build :
      List (RuntimeCurrentOrm F) → List RuntimeDatabaseCurrentOrm → Result (List (RuntimeState F))
  unfolding group_states build_states
  group_and_build current_rows db_rows =
      group_states db_rows (put_all (λ r. r.db_identifier) (λ r. []) current_rows [])
      >>=ᵣ λ grouped. build_states grouped current_rows

  -- `where db_identifier == db`, unless `db` is None
  abbrev pub matches : Option String → RuntimeCurrentOrm F → Bool
  matches none row = true
  matches (some db) row = row.db_identifier =? db

module _ {F : Type 0} ⦃c : Collation⦄ where
  unfoldable pub current_query : Option String → Tables F → List (RuntimeCurrentOrm F)
  current_query db t =
      sort_by (on (λ r. r.db_identifier) c.le_text) (filter (matches db) t.runtime_current)

  unfoldable pub databases_query : List String → Tables F → List RuntimeDatabaseCurrentOrm
  databases_query identifiers t =
      sort_by (lex (on (λ r. r.db_identifier) c.le_text) (on (λ r. r.datname) c.le_text))
        (filter (λ r. has identifiers r.db_identifier) t.runtime_database_current)

  from_current : List (RuntimeCurrentOrm F) → Db F (List (RuntimeState F))
  unfolding databases_query group_and_build
  from_current [] = pure []
  from_current (row ∷ rows) = do
    db_rows ←
        catching storage_read_error
          (select (databases_query (map (λ r. r.db_identifier) (row ∷ rows))))
    λ s. (group_and_build (row ∷ rows) db_rows, s)

  unfoldable pub load_runtime_states : Option String → Db F (List (RuntimeState F))
  unfolding from_current current_query
  load_runtime_states db = do
    current_rows ← catching storage_read_error (select (current_query db))
    from_current current_rows

  first_state : List (RuntimeState F) → Option (RuntimeState F)
  first_state [] = none
  first_state (state ∷ states) = some state

  unfoldable pub get_runtime_current : String → Db F (Option (RuntimeState F))
  unfolding load_runtime_states first_state
  get_runtime_current db = do states ← load_runtime_states (some db); pure (first_state states)

  unfoldable pub list_runtime_current : Db F (List (RuntimeState F))
  unfolding load_runtime_states
  list_runtime_current = load_runtime_states none
