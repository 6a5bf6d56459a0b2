-- ===== src/Storage/Runtime/Write/Values.antt =====
-- The values that _upsert_runtime_database_current of storage/repositories.py stores.
use pg_monitor.Prelude.{
  ℕ, suc, ◌≤◌, ◌≡◌, refl, sym, ap, ◌∙◌, subst, String, Bool, Bool-cases, true, false, ◌&&◌, List,
  [], ◌∷◌, inl, inr, ◌⊎◌, map, arith, leb, if◌then◌else◌, All, Elem, filter,
}
use pg_monitor.Prelude.Eq.{String_eq, ◌=?◌, =?_sym}
use pg_monitor.Prelude.Dict.{has}
use pg_monitor.Collector.Models.{DatabaseMetric, RuntimeSnapshotResult}
use pg_monitor.Exn.{ok}
use pg_monitor.Storage.Orm.{RuntimeDatabaseCurrentOrm}
use pg_monitor.Storage.Session.{Session, select_calm}
use pg_monitor.Storage.Runtime.Upserts.{
  current_captured_at, distinct_names, delete_gone, database_values, upsert_database, upsert_all,
}
use pg_monitor.Storage.Runtime.Write.{fits_values, is_stale, upsert_runtime_database_current}
use pg_monitor.Storage.Runtime.Write.Databases.{names, replace_databases-calm}

-- The row of a database, with the values of a snapshot.
pub record IsRowOf (db : String) (captured_at : ℕ) (metric : DatabaseMetric)
    (row : RuntimeDatabaseCurrentOrm) : Type 0 where
  pub db_identifier_of : row.db_identifier ≡ db
  pub captured_at_of : row.captured_at ≡ captured_at
  pub datid_of : row.datid ≡ metric.datid
  pub datname_of : row.datname ≡ metric.datname
  pub numbackends_of : row.numbackends ≡ metric.numbackends
  pub xact_commit_of : row.xact_commit ≡ metric.xact_commit
  pub xact_rollback_of : row.xact_rollback ≡ metric.xact_rollback
  pub blks_read_of : row.blks_read ≡ metric.blks_read
  pub blks_hit_of : row.blks_hit ≡ metric.blks_hit
  pub deadlocks_of : row.deadlocks ≡ metric.deadlocks

abbrev HasRowOf : String → ℕ → DatabaseMetric → List RuntimeDatabaseCurrentOrm → Type 0
HasRowOf db at metric table =
    (row : RuntimeDatabaseCurrentOrm) × Elem row table × IsRowOf db at metric row

-- No row of the server is newer than `at`.
abbrev pub NoNewer : String → ℕ → List RuntimeDatabaseCurrentOrm → Type 0
NoNewer db at table = All (λ r. (r.db_identifier =? db) ≡ true → r.captured_at ≤ at) table

NoNewer-filter :
    (db : String) (at : ℕ) (p : RuntimeDatabaseCurrentOrm → Bool)
    (table : List RuntimeDatabaseCurrentOrm)
    → NoNewer db at table
    → NoNewer db at (filter p table)
NoNewer-filter db at p [] h = tt
NoNewer-filter db at p (r ∷ table) h = elim (Bool-cases (p r)) [
  | inl t ↦ rw t (h.0, NoNewer-filter db at p table h.1)
  | inr f ↦ rw f (NoNewer-filter db at p table h.1)
]

NoNewer-upsert_database :
    (excluded : RuntimeDatabaseCurrentOrm) (table : List RuntimeDatabaseCurrentOrm)
    → NoNewer excluded.db_identifier excluded.captured_at table
    → NoNewer excluded.db_identifier excluded.captured_at (upsert_database excluded table)
unfolding upsert_database
NoNewer-upsert_database excluded [] h = (λ e. omega arith, tt)
NoNewer-upsert_database excluded (row ∷ table) h =
    elim (Bool-cases
      ((row.db_identifier =? excluded.db_identifier) && (row.datname =? excluded.datname))) [
        | inr f ↦ rw f (h.0, NoNewer-upsert_database excluded table h.1)
        | inl t ↦ elim (Bool-cases (leb row.captured_at excluded.captured_at)) [
          | inl b ↦ rw (t, b) (λ e. omega arith, h.1)
          | inr b ↦ rw (t, b) h
        ]
      ]

-- The row that is upserted is there, under an id.
upsert_database-stores :
    (excluded : RuntimeDatabaseCurrentOrm) (table : List RuntimeDatabaseCurrentOrm)
    → NoNewer excluded.db_identifier excluded.captured_at table
    → (id : ℕ) × Elem (record excluded { id = id }) (upsert_database excluded table)
unfolding upsert_database
upsert_database-stores excluded [] h = (excluded.id, inl refl)
upsert_database-stores excluded (row ∷ table) h =
    elim (Bool-cases
      ((row.db_identifier =? excluded.db_identifier) && (row.datname =? excluded.datname))) [
        | inr f ↦ let (id, m) = upsert_database-stores excluded table h.1 in (id, rw f (inr m))
        | inl t ↦
            let old = h.0 (ground arith) in
            let b : leb row.captured_at excluded.captured_at ≡ true = ground arith in
            (row.id, rw (t, b) (inl refl))
      ]

-- A row of another database of the server stays.
upsert_database-keeps :
    (excluded r : RuntimeDatabaseCurrentOrm) (table : List RuntimeDatabaseCurrentOrm)
    → (r.datname =? excluded.datname) ≡ false
    → Elem r table
    → Elem r (upsert_database excluded table)
unfolding upsert_database
upsert_database-keeps excluded r [] other m = absurd m
upsert_database-keeps excluded r (row ∷ table) other m =
    elim (Bool-cases
      ((row.db_identifier =? excluded.db_identifier) && (row.datname =? excluded.datname))) [
        | inr f ↦ elim m [
          | inl e ↦ rw f (inl e)
          | inr k ↦ rw f (inr (upsert_database-keeps excluded r table other k))
        ]
        | inl t ↦ rw t (there t m)
      ]
  where
    there :
        ((row.db_identifier =? excluded.db_identifier) && (row.datname =? excluded.datname)) ≡ true
        → (r ≡ row) ⊎ Elem r table
        → (r ≡ (
            if leb row.captured_at excluded.captured_at
            then record excluded { id = row.id }
            else row))
          ⊎ Elem r table
    there t (inl e) = let same = ap (λ x. x.datname =? excluded.datname) e in absurd (ground arith)
    there t (inr k) = inr k

upsert_all-keeps :
    (db : String) (at next : ℕ) (rows : List DatabaseMetric) (r : RuntimeDatabaseCurrentOrm)
    (table : List RuntimeDatabaseCurrentOrm)
    → has (map (λ x. x.datname) rows) r.datname ≡ false
    → Elem r table
    → Elem r (upsert_all db at next rows table)
unfolding upsert_all has database_values
upsert_all-keeps db at next [] r table h m = m
upsert_all-keeps db at next (row ∷ rows) r table h m =
    upsert_all-keeps db at (suc next) rows r
      (upsert_database (database_values db at row next) table) (ground arith)
      (upsert_database-keeps (database_values db at row next) r table
        (=?_sym r.datname row.datname ∙ ground arith) m)

upsert_all-stores :
    (db : String) (at next : ℕ) (rows : List DatabaseMetric) (metric : DatabaseMetric)
    (table : List RuntimeDatabaseCurrentOrm)
    → distinct_names (map (λ x. x.datname) rows) ≡ true
    → NoNewer db at table
    → Elem metric rows
    → HasRowOf db at metric (upsert_all db at next rows table)
unfolding upsert_all database_values distinct_names
upsert_all-stores db at next [] metric table d h m = absurd m
upsert_all-stores db at next (row ∷ rows) metric table d h (inl e) =
    let excluded = database_values db at row next in
    let (id, stored) = upsert_database-stores excluded table h in
    (
      record excluded { id = id },
      upsert_all-keeps db at (suc next) rows (record excluded { id = id })
          (upsert_database excluded table) (ground arith) stored,
      subst (λ x. IsRowOf db at x (record excluded { id = id })) (sym e)
          (record {
            db_identifier_of = refl;
            captured_at_of = refl;
            datid_of = refl;
            datname_of = refl;
            numbackends_of = refl;
            xact_commit_of = refl;
            xact_rollback_of = refl;
            blks_read_of = refl;
            blks_hit_of = refl;
            deadlocks_of = refl;
          }),
    )
upsert_all-stores db at next (row ∷ rows) metric table d h (inr m) =
    upsert_all-stores db at (suc next) rows metric
      (upsert_database (database_values db at row next) table) (ground arith)
      (NoNewer-upsert_database (database_values db at row next) table h) m

module _ {F : Type 0} (snapshot : RuntimeSnapshotResult F) (s : Session F) where
  -- On a session whose statements succeed, with a snapshot that is not stale, fits its columns and names no database
  -- twice, and no row of a database of its server that is newer: each database of the snapshot then has a row with the
  -- server, the time and all values of the snapshot.
  pub upsert_runtime_database_current-stores :
      s.faults ≡ []
      → fits_values snapshot ≡ true
      → is_stale
          (current_captured_at snapshot.db_identifier s.tables.runtime_current)
          snapshot.captured_at
        ≡ false
      → NoNewer snapshot.db_identifier snapshot.captured_at s.tables.runtime_database_current
      → let out = upsert_runtime_database_current snapshot s in
        (out.0 ≡ ok tt)
        × ((metric : DatabaseMetric)
            → Elem metric snapshot.database
            → (row : RuntimeDatabaseCurrentOrm) × Elem row out.1.tables.runtime_database_current
              × IsRowOf snapshot.db_identifier snapshot.captured_at metric row)
  unfolding upsert_runtime_database_current delete_gone
  upsert_runtime_database_current-stores calm fits new older =
      let (done, rows) = replace_databases-calm snapshot s snapshot.database refl calm fits in
      rw
        (
          select_calm s calm (λ t. current_captured_at snapshot.db_identifier t.runtime_current),
          new,
        )
        (
          done,
          λ metric m.
              subst (HasRowOf snapshot.db_identifier snapshot.captured_at metric) (sym rows) (
                upsert_all-stores snapshot.db_identifier snapshot.captured_at
                  s.sequences.runtime_database_current_id snapshot.database metric
                  (delete_gone snapshot.db_identifier (names snapshot s)
                    s.tables.runtime_database_current)
                  (ground arith)
                  (NoNewer-filter snapshot.db_identifier snapshot.captured_at _
                    s.tables.runtime_database_current older)
                  m),
        )
