-- ===== src/Storage/Queries/Write/Accepts.antt =====
-- When write_query_snapshot of storage/repositories.py succeeds.
use mathlib.Core.List.{append_assoc}
use pg_monitor.Prelude.{
  ℕ, suc, ◌≡◌, refl, sym, ◌∙◌, subst, inl, inr, true, false, some, List, [], ◌∷◌, ◌++◌, map, length,
  arith, All,
}
use pg_monitor.Exn.{ok, err, storage_write_error}
use pg_monitor.Collector.Models.{QuerySnapshotResult}
use pg_monitor.Storage.Orm.{QueryMetricSnapshotOrm}
use pg_monitor.Storage.Session.{Session, statement_calm}
use pg_monitor.Storage.Queries.Write.{
  to_orm, same_point, fits_columns, taken, insert_all, store_rows, flush_rows, write_rows,
  write_query_snapshot,
}
use pg_monitor.Storage.Queries.Write.Outcomes.{
  DistinctPoints, numbered, write_query_snapshot-IsWrite,
}

module _ {F : Type 0} where
  abbrev identified : ℕ → QueryMetricSnapshotOrm F → QueryMetricSnapshotOrm F
  identified n row = record row { id = n }

  All-identified :
      (n : ℕ) (row other : QueryMetricSnapshotOrm F) (table rows : List (QueryMetricSnapshotOrm F))
      → All (λ r. same_point r other ≡ false) (table ++ row ∷ rows)
      → All (λ r. same_point r other ≡ false) (table ++ identified n row ∷ rows)
  unfolding same_point
  All-identified n row other [] rows h = h
  All-identified n row other (r ∷ table) rows h = (h.0, All-identified n row other table rows h.1)

  -- The id has no part in what a point is.
  DistinctPoints-identified :
      (n : ℕ) (row : QueryMetricSnapshotOrm F) (table rows : List (QueryMetricSnapshotOrm F))
      → DistinctPoints (table ++ row ∷ rows)
      → DistinctPoints (table ++ identified n row ∷ rows)
  unfolding same_point
  DistinctPoints-identified n row [] rows d = d
  DistinctPoints-identified n row (other ∷ table) rows d =
      (All-identified n row other table rows d.0, DistinctPoints-identified n row table rows d.1)

  All-middle :
      (P : QueryMetricSnapshotOrm F → Type 0) (row : QueryMetricSnapshotOrm F)
      (table rows : List (QueryMetricSnapshotOrm F))
      → All P (table ++ row ∷ rows)
      → P row
  All-middle P row [] rows h = h.0
  All-middle P row (r ∷ table) rows h = All-middle P row table rows h.1

  taken-DistinctPoints :
      (row : QueryMetricSnapshotOrm F) (table rows : List (QueryMetricSnapshotOrm F))
      → DistinctPoints (table ++ row ∷ rows)
      → taken row table ≡ false
  unfolding taken
  taken-DistinctPoints row [] rows d = refl
  taken-DistinctPoints row (other ∷ table) rows d =
      let new = All-middle (λ r. same_point r other ≡ false) row table rows d.0 in
      let rest = taken-DistinctPoints row table rows d.1 in ground arith

  insert_all-some :
      (next : ℕ) (rows table : List (QueryMetricSnapshotOrm F))
      → All (λ r. fits_columns r ≡ true) rows
      → DistinctPoints (table ++ rows)
      → (t : List (QueryMetricSnapshotOrm F)) × (insert_all next rows table ≡ some t)
  unfolding insert_all
  insert_all-some next [] table fits d = (table, refl)
  insert_all-some next (row ∷ rows) table fits d =
      let moved = DistinctPoints-identified next row table rows d in
      let (t, e) = insert_all-some (suc next) rows (table ++ identified next row ∷ []) fits.1 (
        subst (λ l. DistinctPoints l) (sym (append_assoc table (identified next row ∷ []) rows))
          moved) in
      (t, rw (fits.0, taken-DistinctPoints row table rows d) e)

  write_rows-ok :
      (rows : List (QueryMetricSnapshotOrm F)) (s : Session F)
      → s.faults ≡ []
      → All (λ r. fits_columns r ≡ true) rows
      → DistinctPoints (s.tables.query_metric_snapshots ++ rows)
      → (write_rows rows s).0 ≡ ok (length rows)
  unfolding write_rows store_rows flush_rows
  write_rows-ok [] s calm fits d = refl
  write_rows-ok (row ∷ rows) s calm fits d =
      let (t, e) =
        insert_all-some s.sequences.query_metric_snapshots_id (row ∷ rows)
          s.tables.query_metric_snapshots fits d in
      rw (statement_calm s calm, e)

  returns :
      (snapshot : QuerySnapshotResult F) (s : Session F)
      → s.faults ≡ []
      → All (λ r. fits_columns r ≡ true) (map (to_orm snapshot) snapshot.statements)
      → DistinctPoints
          (s.tables.query_metric_snapshots ++ map (to_orm snapshot) snapshot.statements)
      → (write_query_snapshot snapshot s).0
        ≡ ok (length (map (to_orm snapshot) snapshot.statements))
  unfolding write_query_snapshot
  returns snapshot s calm fits d =
      write_rows-ok (map (to_orm snapshot) snapshot.statements) s calm fits d

  -- On a session whose statements succeed, a snapshot whose rows fit their columns and are at points of their own, among
  -- themselves and against the table, is written: its rows are appended with the ids of the sequence, no other table
  -- changes, and the number of its statements is returned.
  pub write_query_snapshot-accepts :
      (snapshot : QuerySnapshotResult F) (s : Session F)
      → s.faults ≡ []
      → All (λ r. fits_columns r ≡ true) (map (to_orm snapshot) snapshot.statements)
      → DistinctPoints
          (s.tables.query_metric_snapshots ++ map (to_orm snapshot) snapshot.statements)
      → let rows = map (to_orm snapshot) snapshot.statements in
        ((write_query_snapshot snapshot s).0 ≡ ok (length rows))
        × ((write_query_snapshot snapshot s).1.tables ≡ record s.tables {
          query_metric_snapshots =
              s.tables.query_metric_snapshots
              ++ numbered s.sequences.query_metric_snapshots_id rows;
        })
  write_query_snapshot-accepts snapshot s calm fits d =
      let accepted = returns snapshot s calm fits d in
      elim (write_query_snapshot-IsWrite snapshot s).outcome [
        | inl w ↦ (accepted, w.2)
        | inr w ↦ absurd (not_both (sym w.0 ∙ accepted))
      ]
    where
      not_both : {n : ℕ} → err storage_write_error ≡ ok n → ⊥
      not_both h = cc
