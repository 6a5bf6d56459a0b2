-- ===== src/Storage/Runtime/Read/Loaded.antt =====
-- What _load_runtime_states of storage/repositories.py returns, said of the rows of the tables.
use mathlib.Core.Path.{◌≡◌, refl, ap, ◌∙◌, subst}
use pg_monitor.Prelude.{
  String, Bool, Bool-cases, true, Option, none, some, List, [], ◌∷◌, inl, inr, map, filter, Perm,
  All, All-filter, All-of_Elem, Elem-map, arith,
}
use pg_monitor.Prelude.Eq.{String_eq, ◌=?◌, =?→eq}
use pg_monitor.Prelude.Order.{IsPreorder, lex, on, lex-IsPreorder, on-IsPreorder, le_refl}
use pg_monitor.Prelude.Sort.{sort_by, IsSorted, sort_by-perm, sort_by-IsSorted, All-sort_by}
use pg_monitor.Prelude.Sort.Filter.{filter-sort_by}
use pg_monitor.Prelude.Dict.{has}
use pg_monitor.Prelude.Dict.Keys.{has-Elem}
use pg_monitor.Exn.{ok}
use pg_monitor.Storage.Orm.{
  RuntimeCurrentOrm, RuntimeDatabaseCurrentOrm, RuntimeDatabaseState, RuntimeState, Tables,
}
use pg_monitor.Storage.Session.{Session}
use pg_monitor.Storage.Queries.Latest.{Collation}
use pg_monitor.Storage.Runtime.Read.{
  database_state, current_query, databases_query, load_runtime_states,
}
use pg_monitor.Storage.Runtime.Read.States.{
  states_of, state_with, databases_of, load_runtime_states_lem,
}

filter-true : {A : Type 0} (l : List A) → filter (λ a. true) l ≡ l
filter-true [] = refl
filter-true (x ∷ l) = ap (◌∷◌ x) (filter-true l)

-- A filter after a weaker one.
filter-filter :
    {A : Type 0} (p q : A → Bool) (l : List A)
    → ((a : A) → p a ≡ true → q a ≡ true)
    → filter p (filter q l) ≡ filter p l
filter-filter p q [] h = refl
filter-filter p q (x ∷ l) h = elim (Bool-cases (q x)) [
  | inl t ↦ elim (Bool-cases (p x)) [
    | inl u ↦ rw (t, u) (ap (◌∷◌ x) (filter-filter p q l h))
    | inr g ↦ rw (t, g) (filter-filter p q l h)
  ]
  | inr f ↦ elim (Bool-cases (p x)) [
    | inl u ↦ let t = h x u in absurd (ground arith)
    | inr g ↦ rw (f, g) (filter-filter p q l h)
  ]
]

map-All : {A B : Type 0} (f g : A → B) (l : List A) → All (λ a. f a ≡ g a) l → map f l ≡ map g l
map-All f g [] h = refl
map-All f g (x ∷ l) h = ap (λ y. y ∷ map f l) h.0 ∙ ap (◌∷◌ (g x)) (map-All f g l h.1)

-- The rows that a request is for: those of one server, or all.
abbrev pub AskedRows :
    {F : Type 0} → Option String → List (RuntimeCurrentOrm F) → List (RuntimeCurrentOrm F) → Type 0
AskedRows none rows table = Perm rows table
AskedRows (some db) rows table = Perm rows (filter (λ r. r.db_identifier =? db) table)

-- A state that has the fields of a server's row and of the rows of its databases.
abbrev pub shown_database : RuntimeDatabaseCurrentOrm → RuntimeDatabaseState
shown_database row = record {
  datid = row.datid;
  datname = row.datname;
  numbackends = row.numbackends;
  xact_commit = row.xact_commit;
  xact_rollback = row.xact_rollback;
  blks_read = row.blks_read;
  blks_hit = row.blks_hit;
  deadlocks = row.deadlocks;
}

abbrev pub shown :
    {F : Type 0} → RuntimeCurrentOrm F → List RuntimeDatabaseCurrentOrm → RuntimeState F
shown row databases = record {
  captured_at = row.captured_at;
  db_identifier = row.db_identifier;
  active_connections = row.active_connections;
  blocked_sessions = row.blocked_sessions;
  longest_tx_duration_s = row.longest_tx_duration_s;
  waiting_locks = row.waiting_locks;
  granted_locks = row.granted_locks;
  database = map shown_database databases;
}

module _ ⦃c : Collation⦄ where
  by_names : RuntimeDatabaseCurrentOrm → RuntimeDatabaseCurrentOrm → Bool
  by_names = lex (on (λ r. r.db_identifier) c.le_text) (on (λ r. r.datname) c.le_text)

  by_names-IsPreorder : IsPreorder by_names
  unfolding by_names
  by_names-IsPreorder =
      lex-IsPreorder (on-IsPreorder (λ r. r.db_identifier) c.le_text-IsPreorder)
        (on-IsPreorder (λ r. r.datname) c.le_text-IsPreorder)

  -- Rows of one server that are sorted by both names are sorted by that of the database.
  names_of :
      (db : String) (a b : RuntimeDatabaseCurrentOrm)
      → (a.db_identifier =? db) ≡ true
      → (b.db_identifier =? db) ≡ true
      → by_names a b ≡ true
      → c.le_text a.datname b.datname ≡ true
  unfolding by_names
  names_of db a b p q h =
      let same = =?→eq a.db_identifier db p in
      let also = =?→eq b.db_identifier db q in
      let reflexive = le_refl c.le_text-IsPreorder db in
      let forth : c.le_text a.db_identifier b.db_identifier ≡ true = rw (same, also) reflexive in
      let back : c.le_text b.db_identifier a.db_identifier ≡ true = rw (same, also) reflexive in
      ground arith

  All-names_of :
      (db : String) (a : RuntimeDatabaseCurrentOrm) (l : List RuntimeDatabaseCurrentOrm)
      → (a.db_identifier =? db) ≡ true
      → All (λ r. (r.db_identifier =? db) ≡ true) l
      → All (λ b. by_names a b ≡ true) l
      → All (λ b. c.le_text a.datname b.datname ≡ true) l
  All-names_of db a [] p q h = tt
  All-names_of db a (b ∷ l) p q h = (names_of db a b p q.0 h.0, All-names_of db a l p q.1 h.1)

  IsSorted-names_of :
      (db : String) (l : List RuntimeDatabaseCurrentOrm)
      → All (λ r. (r.db_identifier =? db) ≡ true) l
      → IsSorted by_names l
      → IsSorted (on (λ r. r.datname) c.le_text) l
  IsSorted-names_of db [] q h = tt
  IsSorted-names_of db (a ∷ l) q h =
      (All-names_of db a l q.0 q.1 h.0, IsSorted-names_of db l q.1 h.1)

  -- The rows of one server's databases, in order.
  own_of : List RuntimeDatabaseCurrentOrm → String → List RuntimeDatabaseCurrentOrm
  own_of table db = sort_by by_names (filter (λ r. r.db_identifier =? db) table)

  own_of-IsSorted :
      (table : List RuntimeDatabaseCurrentOrm) (db : String)
      → IsSorted (on (λ r. r.datname) c.le_text) (own_of table db)
  unfolding own_of
  own_of-IsSorted table db =
      let own = filter (λ r. r.db_identifier =? db) table in
      IsSorted-names_of db (sort_by by_names own)
        (All-sort_by (λ r. (r.db_identifier =? db) ≡ true) by_names own
          (All-filter (λ r. r.db_identifier =? db) table))
        (sort_by-IsSorted by_names by_names-IsPreorder own)

  states_of-own_of :
      {F : Type 0} (identifiers : List String) (t : Tables F) (db : String)
      → has identifiers db ≡ true
      → states_of db (databases_query identifiers t)
        ≡ map shown_database (own_of t.runtime_database_current db)
  unfolding databases_query database_state own_of by_names
  states_of-own_of identifiers t db known =
      let own : RuntimeDatabaseCurrentOrm → Bool = λ r. r.db_identifier =? db in
      let asked : RuntimeDatabaseCurrentOrm → Bool = λ r. has identifiers r.db_identifier in
      ap (map shown_database) (
        filter-sort_by by_names by_names-IsPreorder own (filter asked t.runtime_database_current)
        ∙ ap (sort_by by_names) (
            filter-filter own asked t.runtime_database_current
              λ r p. ap (has identifiers) (=?→eq r.db_identifier db p) ∙ known))

module _ {F : Type 0} ⦃c : Collation⦄ (s : Session F) (calm : s.faults ≡ []) where
  current_query-AskedRows :
      (db : Option String) → AskedRows db (current_query db s.tables) s.tables.runtime_current
  unfolding current_query
  current_query-AskedRows none =
      subst
        (λ l.
          Perm
            (sort_by (on (λ r. r.db_identifier) c.le_text)
              (filter (λ r. true) s.tables.runtime_current))
            l)
        (filter-true s.tables.runtime_current) (sort_by-perm _ _)
  current_query-AskedRows (some db) = sort_by-perm _ _

  current_query-IsSorted :
      (db : Option String)
      → IsSorted (on (λ r. r.db_identifier) c.le_text) (current_query db s.tables)
  unfolding current_query
  current_query-IsSorted db =
      sort_by-IsSorted (on (λ r. r.db_identifier) c.le_text)
        (on-IsPreorder (λ r. r.db_identifier) c.le_text-IsPreorder) _

  -- On a session whose statements succeed, the load of the runtime states, of one server or of all, returns a state for
  -- exactly the current rows of that server or of all, in the order of their servers. Each state has the fields of its
  -- row and those of all rows of the server's databases, in the order of their names. No KeyError is raised, and the
  -- session is as it was.
  pub load_runtime_states-Loaded :
      (db : Option String)
      → (rows : List (RuntimeCurrentOrm F)) × (own : RuntimeCurrentOrm F
          → List RuntimeDatabaseCurrentOrm)
        × AskedRows db rows s.tables.runtime_current
        × IsSorted (on (λ r. r.db_identifier) c.le_text) rows
        × ((row : RuntimeCurrentOrm F)
            → Perm (own row) (
                filter
                  (λ r. r.db_identifier =? row.db_identifier)
                  s.tables.runtime_database_current))
        × ((row : RuntimeCurrentOrm F) → IsSorted (on (λ r. r.datname) c.le_text) (own row))
        × (load_runtime_states db s ≡ (ok (map (λ row. shown row (own row)) rows), s))
  unfolding own_of
  load_runtime_states-Loaded db =
      let rows = current_query db s.tables in
      let ids = map (λ r. r.db_identifier) rows in
      (
        rows,
        λ row. own_of s.tables.runtime_database_current row.db_identifier,
        current_query-AskedRows db,
        current_query-IsSorted db,
        λ row. sort_by-perm by_names _,
        λ row. own_of-IsSorted s.tables.runtime_database_current row.db_identifier,
        load_runtime_states_lem s calm db
            ∙ ap (λ states. (ok states, s))
                (map-All (state_with (databases_of s rows)) _ rows (
                  All-of_Elem _ rows λ row m.
                    ap (λ d. record (shown row []) { database = d })
                      (states_of-own_of ids s.tables row.db_identifier (
                        has-Elem row.db_identifier ids
                          (Elem-map (λ r. r.db_identifier) row rows m))))),
      )
