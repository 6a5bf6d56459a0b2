-- ===== src/Storage/Runtime/Write/Databases.antt =====
-- Which databases have a current state after _upsert_runtime_database_current of storage/repositories.py.
use pg_monitor.Prelude.{
  ℕ, suc, ◌≡◌, refl, ap, ◌∙◌, String, Bool, Bool-cases, true, false, not, ◌&&◌, ◌||◌, List, [], ◌∷◌,
  inl, inr, map, arith, leb,
}
use pg_monitor.Prelude.Eq.{String_eq, ◌=?◌, =?→eq, =?_refl, =?_sym}
use pg_monitor.Prelude.Dict.{has}
use pg_monitor.Collector.Models.{DatabaseMetric, RuntimeSnapshotResult}
use pg_monitor.Storage.Orm.{RuntimeDatabaseCurrentOrm}
use pg_monitor.Exn.{ok}
use pg_monitor.Storage.Session.{Session, statement_calm, update_calm, select_calm}
use pg_monitor.Storage.Runtime.Write.{
  fits_values, require_fit, delete_databases, upsert_values, replace_databases, is_stale,
  upsert_runtime_database_current,
}
use pg_monitor.Storage.Runtime.Upserts.{
  current_captured_at, delete_gone, database_values, upsert_database, upsert_all,
}

-- Whether the database `name` of the server `db` has a row.
abbrev pub has_row : String → String → List RuntimeDatabaseCurrentOrm → Bool
has_row db name [] = false
has_row db name (row ∷ rows) =
    ((row.db_identifier =? db) && (row.datname =? name)) || has_row db name rows

same_keys :
    (a b c d e f : String)
    → (a =? c) ≡ true
    → (b =? d) ≡ true
    → ((a =? e) && (b =? f)) ≡ ((c =? e) && (d =? f))
same_keys a b c d e f p q =
    ap (λ x. (x =? e) && (b =? f)) (=?→eq a c p) ∙ ap (λ y. (c =? e) && (y =? f)) (=?→eq b d q)

has_row-upsert_database :
    (excluded : RuntimeDatabaseCurrentOrm) (table : List RuntimeDatabaseCurrentOrm)
    (db name : String)
    → has_row db name (upsert_database excluded table)
      ≡ (has_row db name table || ((excluded.db_identifier =? db) && (excluded.datname =? name)))
unfolding upsert_database
has_row-upsert_database excluded [] db name = ground arith
has_row-upsert_database excluded (row ∷ rows) db name =
    elim (Bool-cases (row.db_identifier =? excluded.db_identifier)) [
      | inr f ↦ rw f (ground (arith, has_row-upsert_database excluded rows db name))
      | inl t ↦ elim (Bool-cases (row.datname =? excluded.datname)) [
        | inr f ↦ rw (t, f) (ground (arith, has_row-upsert_database excluded rows db name))
        | inl u ↦ elim (Bool-cases (leb row.captured_at excluded.captured_at)) [
          | inl b ↦ rw (t, u, b) (ground (arith, same_keys _ _ _ _ db name t u))
          | inr b ↦ rw (t, u, b) (ground (arith, same_keys _ _ _ _ db name t u))
        ]
      ]
    ]

-- A row of the database `name` of `d` goes exactly if that database is to go.
same_fate :
    (db : String) (names : List String) (row : RuntimeDatabaseCurrentOrm) (d name : String)
    → ((row.db_identifier =? d) && (row.datname =? name)) ≡ true
    → not ((row.db_identifier =? db) && not (has names row.datname))
      ≡ not ((d =? db) && not (has names name))
same_fate db names row d name h =
    ap (λ x. not ((x =? db) && not (has names row.datname))) (=?→eq _ _ (ground arith))
    ∙ ap (λ y. not ((d =? db) && not (has names y))) (=?→eq _ _ (ground arith))

has_row-delete_gone :
    (db : String) (names : List String) (table : List RuntimeDatabaseCurrentOrm) (d name : String)
    → has_row d name (delete_gone db names table)
      ≡ (has_row d name table && not ((d =? db) && not (has names name)))
unfolding delete_gone
has_row-delete_gone db names [] d name = refl
has_row-delete_gone db names (row ∷ rows) d name =
    let rest = has_row-delete_gone db names rows d name in
    elim (Bool-cases (not ((row.db_identifier =? db) && not (has names row.datname)))) [
      | inl keep ↦ rw keep (ground (arith, rest, same_fate db names row d name))
      | inr gone ↦ rw gone (ground (arith, rest, same_fate db names row d name))
    ]

has_row-upsert_all :
    (db : String) (at next : ℕ) (rows : List DatabaseMetric)
    (table : List RuntimeDatabaseCurrentOrm) (d name : String)
    → has_row d name (upsert_all db at next rows table)
      ≡ (has_row d name table || ((db =? d) && has (map (λ r. r.datname) rows) name))
unfolding upsert_all has database_values
has_row-upsert_all db at next [] table d name = ground arith
has_row-upsert_all db at next (row ∷ rows) table d name =
    let rest =
      has_row-upsert_all db at (suc next) rows
        (upsert_database (database_values db at row next) table) d name in
    let first = has_row-upsert_database (database_values db at row next) table d name in
    ground arith

module _ {F : Type 0} (snapshot : RuntimeSnapshotResult F) (s : Session F) where
  abbrev pub names : List String
  names = map (λ r. r.datname) snapshot.database

  abbrev pub before : List RuntimeDatabaseCurrentOrm
  before = s.tables.runtime_database_current

  -- The rows after the DELETE and the INSERT.
  abbrev pub replaced : List RuntimeDatabaseCurrentOrm
  replaced =
      upsert_all snapshot.db_identifier snapshot.captured_at s.sequences.runtime_database_current_id
        snapshot.database (delete_gone snapshot.db_identifier names before)

  has_row-replaced : (name : String) → has_row snapshot.db_identifier name replaced ≡ has names name
  has_row-replaced name =
      let db = snapshot.db_identifier in
      let next = s.sequences.runtime_database_current_id in
      ground (
        arith,
        has_row-upsert_all db snapshot.captured_at next snapshot.database
            (delete_gone db names before) db name,
        has_row-delete_gone db names before db name,
        =?_refl db,
      )

  has_row-other :
      (other name : String)
      → (snapshot.db_identifier =? other) ≡ false
      → has_row other name replaced ≡ has_row other name before
  has_row-other other name differs =
      let db = snapshot.db_identifier in
      let next = s.sequences.runtime_database_current_id in
      ground (
        arith,
        has_row-upsert_all db snapshot.captured_at next snapshot.database
            (delete_gone db names before) other name,
        has_row-delete_gone db names before other name,
        =?_sym db other,
      )

  abbrev deleted : Session F
  deleted = record s {
    tables = record s.tables {
      runtime_database_current = delete_gone snapshot.db_identifier names before;
    };
  }

  delete_calm : s.faults ≡ [] → delete_databases snapshot s ≡ (ok tt, deleted)
  unfolding delete_databases
  delete_calm calm = update_calm s calm _

  values_calm :
      s.faults ≡ []
      → fits_values snapshot ≡ true
      → let out = upsert_values snapshot deleted in
        (out.0 ≡ ok tt) × (out.1.tables.runtime_database_current ≡ replaced)
  unfolding upsert_values require_fit
  values_calm calm fits = rw (statement_calm deleted calm, fits) (refl, refl)

  nothing_more : [] ≡ snapshot.database → delete_gone snapshot.db_identifier names before ≡ replaced
  unfolding upsert_all
  nothing_more e =
      ap
        (λ rows.
          upsert_all snapshot.db_identifier snapshot.captured_at
            s.sequences.runtime_database_current_id rows
            (delete_gone snapshot.db_identifier names before))
        e

  pub replace_databases-calm :
      (rows : List DatabaseMetric)
      → rows ≡ snapshot.database
      → s.faults ≡ []
      → fits_values snapshot ≡ true
      → let out = replace_databases snapshot rows s in
        (out.0 ≡ ok tt) × (out.1.tables.runtime_database_current ≡ replaced)
  unfolding replace_databases
  replace_databases-calm [] e calm fits = rw (delete_calm calm) (refl, nothing_more e)
  replace_databases-calm (row ∷ rows) e calm fits = rw (delete_calm calm) (values_calm calm fits)

  -- On a session whose statements succeed, with a snapshot that is not stale, fits its columns and names no database twice:
  -- the databases of its server that have a current state are then those of the snapshot, and of every other server
  -- those that had one before.
  pub upsert_runtime_database_current-replaces :
      s.faults ≡ []
      → fits_values snapshot ≡ true
      → is_stale
          (current_captured_at snapshot.db_identifier s.tables.runtime_current)
          snapshot.captured_at
        ≡ false
      → let out = upsert_runtime_database_current snapshot s in
        (out.0 ≡ ok tt)
        × ((name : String)
            → has_row snapshot.db_identifier name out.1.tables.runtime_database_current
              ≡ has names name)
        × ((other name : String)
            → (snapshot.db_identifier =? other) ≡ false
            → has_row other name out.1.tables.runtime_database_current ≡ has_row other name before)
  unfolding upsert_runtime_database_current
  upsert_runtime_database_current-replaces calm fits new =
      let (done, rows) = replace_databases-calm snapshot.database refl calm fits in
      rw
        (
          select_calm s calm (λ t. current_captured_at snapshot.db_identifier t.runtime_current),
          new,
        )
        (
          done,
          λ name. ap (λ l. has_row snapshot.db_identifier name l) rows ∙ has_row-replaced name,
          λ other name differs.
              ap (λ l. has_row other name l) rows ∙ has_row-other other name differs,
        )
