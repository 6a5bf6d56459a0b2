-- ===== src/Storage/Runtime/Read/States.antt =====
-- What _load_runtime_states of storage/repositories.py returns.
use mathlib.Core.List.{append-nil, append_assoc}
use pg_monitor.Prelude.{
  ◌≡◌, refl, sym, ap, ◌∙◌, ◌⊎◌, inl, inr, String, Bool-cases, true, Option, some, List, [], ◌∷◌,
  ◌++◌, map, filter, All, All-of_Elem, All-filter, Elem-map, arith,
}
use pg_monitor.Prelude.Eq.{String_eq, ◌=?◌, =?→eq}
use pg_monitor.Prelude.Dict.{Dict, get, put, put_all, get-put, has}
use pg_monitor.Prelude.Dict.Keys.{has-Elem}
use pg_monitor.Prelude.Sort.{All-sort_by}
use pg_monitor.Exn.{ok, ◌>>=◌ as ◌>>=ᵣ◌}
use pg_monitor.Storage.Orm.{
  RuntimeCurrentOrm, RuntimeDatabaseCurrentOrm, RuntimeDatabaseState, RuntimeState,
}
use pg_monitor.Storage.Session.{Session, select_calm}
use pg_monitor.Storage.Queries.Latest.{Collation}
use pg_monitor.Storage.Runtime.Read.{
  database_state, append_state, group_states, build_states, group_and_build, current_query,
  databases_query, from_current, load_runtime_states,
}

abbrev Groups : Type 0
Groups = Dict String (List RuntimeDatabaseState)

abbrev HasGroup : Groups → String → Type 0
HasGroup d k = (l : List RuntimeDatabaseState) × (get d k ≡ some l)

-- The states of one server's databases.
abbrev pub states_of : String → List RuntimeDatabaseCurrentOrm → List RuntimeDatabaseState
states_of db rows = map database_state (filter (λ r. r.db_identifier =? db) rows)

some_eq : {A : Type 0} {a b : A} → some a ≡ some b → a ≡ b
some_eq h = cc

All-put :
    (d : Groups) (k : String) (v : List RuntimeDatabaseState)
    (rows : List RuntimeDatabaseCurrentOrm)
    → All (λ r. HasGroup d r.db_identifier) rows
    → All (λ r. HasGroup (put d k v) r.db_identifier) rows
All-put d k v [] h = tt
All-put d k v (r ∷ rows) h = (
  elim (Bool-cases (k =? r.db_identifier)) [
    | inl t ↦ (v, get-put d k r.db_identifier v ∙ rw t)
    | inr f ↦ (h.0.0, get-put d k r.db_identifier v ∙ rw f h.0.1)
  ],
  All-put d k v rows h.1,
)

appended :
    (r : RuntimeDatabaseCurrentOrm) (rows : List RuntimeDatabaseCurrentOrm) (d d' : Groups)
    (l₀ : List RuntimeDatabaseState)
    → get d r.db_identifier ≡ some l₀
    → (k : String) (l : List RuntimeDatabaseState) → get d k ≡ some l
    → ((m : List RuntimeDatabaseState)
        → get (put d r.db_identifier (l₀ ++ database_state r ∷ [])) k ≡ some m
        → get d' k ≡ some (m ++ states_of k rows))
    → get d' k ≡ some (l ++ states_of k (r ∷ rows))
appended r rows d d' l₀ e₀ k l ek keeps =
    let more = l₀ ++ database_state r ∷ [] in
    elim (Bool-cases (r.db_identifier =? k)) [
      | inr f ↦ rw f (keeps l (get-put d r.db_identifier k more ∙ rw f ek))
      | inl t ↦
          let same = some_eq (sym e₀ ∙ ap (get d) (=?→eq r.db_identifier k t) ∙ ek) in
          rw t (
            keeps more (get-put d r.db_identifier k more ∙ rw t)
            ∙ ap some (
                append_assoc l₀ (database_state r ∷ []) (states_of k rows)
                ∙ ap (λ y. y ++ database_state r ∷ states_of k rows) same))
    ]

group_states_lem :
    (rows : List RuntimeDatabaseCurrentOrm) (d : Groups)
    → All (λ r. HasGroup d r.db_identifier) rows
    → (d' : Groups) × (group_states rows d ≡ ok d')
      × ((k : String) (l : List RuntimeDatabaseState)
          → get d k ≡ some l
          → get d' k ≡ some (l ++ states_of k rows))
unfolding group_states
group_states_lem [] d h = (d, refl, λ k l e. e ∙ ap some (sym (append-nil l)))
group_states_lem (r ∷ rows) d h =
    let (l₀, e₀) = h.0 in
    let more = l₀ ++ database_state r ∷ [] in
    let (d', e, keeps) =
      group_states_lem rows (put d r.db_identifier more)
        (All-put d r.db_identifier more rows h.1) in
    (
      d',
      rw (e₀, group_states, append_state) e,
      λ k l ek. appended r rows d d' l₀ e₀ k l ek (keeps k),
    )

module _ {F : Type 0} where
  -- The state of a server, with the states of its databases.
  abbrev pub state_with : List RuntimeDatabaseCurrentOrm → RuntimeCurrentOrm F → RuntimeState F
  state_with db_rows row = record {
    captured_at = row.captured_at;
    db_identifier = row.db_identifier;
    active_connections = row.active_connections;
    blocked_sessions = row.blocked_sessions;
    longest_tx_duration_s = row.longest_tx_duration_s;
    waiting_locks = row.waiting_locks;
    granted_locks = row.granted_locks;
    database = states_of row.db_identifier db_rows;
  }

  abbrev ids : List (RuntimeCurrentOrm F) → List String
  ids rows = map (λ r. r.db_identifier) rows

  abbrev empty_groups : List (RuntimeCurrentOrm F) → Groups → Groups
  empty_groups rows d = put_all (λ r. r.db_identifier) (λ r. []) rows d

  empty_group :
      (rows : List (RuntimeCurrentOrm F)) (d : Groups) (k : String)
      → (has (ids rows) k ≡ true) ⊎ (get d k ≡ some [])
      → get (empty_groups rows d) k ≡ some []
  unfolding put_all has
  empty_group [] d k (inl h) = absurd (ground arith)
  empty_group [] d k (inr h) = h
  empty_group (r ∷ rows) d k h = empty_group rows (put d r.db_identifier []) k (next h)
    where
      next :
          (has (ids (r ∷ rows)) k ≡ true) ⊎ (get d k ≡ some [])
          → (has (ids rows) k ≡ true) ⊎ (get (put d r.db_identifier []) k ≡ some [])
      next h = elim (Bool-cases (r.db_identifier =? k)) [
        | inl t ↦ inr (get-put d r.db_identifier k [] ∙ rw t)
        | inr f ↦ elim h [
          | inl m ↦ inl (ground arith)
          | inr e ↦ inr (get-put d r.db_identifier k [] ∙ rw f e)
        ]
      ]

  build_states_lem :
      (grouped : Groups) (db_rows : List RuntimeDatabaseCurrentOrm)
      (rows : List (RuntimeCurrentOrm F))
      → All (λ r. get grouped r.db_identifier ≡ some (states_of r.db_identifier db_rows)) rows
      → build_states grouped rows ≡ ok (map (state_with db_rows) rows)
  unfolding build_states
  build_states_lem grouped db_rows [] h = refl
  build_states_lem grouped db_rows (r ∷ rows) h =
      rw (h.0, build_states_lem grouped db_rows rows h.1)

  started :
      (rows : List (RuntimeCurrentOrm F)) (db_rows : List RuntimeDatabaseCurrentOrm)
      → All (λ r. has (ids rows) r.db_identifier ≡ true) db_rows
      → All (λ r. HasGroup (empty_groups rows []) r.db_identifier) db_rows
  started rows [] h = tt
  started rows (r ∷ db_rows) h =
      (([], empty_group rows [] r.db_identifier (inl h.0)), started rows db_rows h.1)

  group_and_build_lem :
      (rows : List (RuntimeCurrentOrm F)) (db_rows : List RuntimeDatabaseCurrentOrm)
      → All (λ r. has (ids rows) r.db_identifier ≡ true) db_rows
      → group_and_build rows db_rows ≡ ok (map (state_with db_rows) rows)
  unfolding group_and_build
  group_and_build_lem rows db_rows h =
      let (grouped, e, keeps) =
        group_states_lem db_rows (empty_groups rows []) (started rows db_rows h) in
      ap (λ r. r >>=ᵣ λ g. build_states g rows) e
      ∙ build_states_lem grouped db_rows rows (
          All-of_Elem _ rows λ r m. keeps r.db_identifier [] (
            empty_group rows [] r.db_identifier (
              inl
                (has-Elem r.db_identifier (ids rows) (Elem-map (λ r. r.db_identifier) r rows m)))))

module _ {F : Type 0} ⦃c : Collation⦄ (s : Session F) where
  -- The rows of the databases of the servers of `rows`.
  abbrev pub databases_of : List (RuntimeCurrentOrm F) → List RuntimeDatabaseCurrentOrm
  databases_of rows = databases_query (map (λ r. r.db_identifier) rows) s.tables

module _ {F : Type 0} ⦃c : Collation⦄ (s : Session F) (calm : s.faults ≡ []) where
  known :
      (identifiers : List String)
      → All (λ r. has identifiers r.db_identifier ≡ true) (databases_query identifiers s.tables)
  unfolding databases_query
  known identifiers =
      All-sort_by (λ r. has identifiers r.db_identifier ≡ true) _ _
        (All-filter (λ r. has identifiers r.db_identifier) s.tables.runtime_database_current)

  from_current_calm :
      (rows : List (RuntimeCurrentOrm F))
      → from_current rows s ≡ (ok (map (state_with (databases_of s rows)) rows), s)
  unfolding from_current
  from_current_calm [] = refl
  from_current_calm (row ∷ rows) =
      rw (select_calm s calm (databases_query (map (λ r. r.db_identifier) (row ∷ rows)))) (
        ap (λ r. (r, s))
          (group_and_build_lem (row ∷ rows) (databases_of s (row ∷ rows))
            (known (map (λ r. r.db_identifier) (row ∷ rows)))))

  -- On a session whose statements succeed, the load of the runtime states, of one server or of all, returns a state for
  -- each current row that was asked for, in the order of the query, with the states of its own databases in order. No
  -- KeyError is raised, and the session is as it was.
  pub load_runtime_states_lem :
      (db : Option String)
      → let rows = current_query db s.tables in
        load_runtime_states db s ≡ (ok (map (state_with (databases_of s rows)) rows), s)
  unfolding load_runtime_states
  load_runtime_states_lem db =
      rw (select_calm s calm (current_query db)) (from_current_calm (current_query db s.tables))
