-- ===== src/Storage/Queries/Write/Outcomes.antt =====
-- What write_query_snapshot of storage/repositories.py leaves in the table, on every path.
use mathlib.Core.Bool.{true≢false}
use mathlib.Core.List.{append_assoc, append-nil}
use pg_monitor.Prelude.{
  ℕ, suc, ◌≡◌, refl, sym, ap, ◌∙◌, ◌⊎◌, inl, inr, Bool, true, false, Option, none, some, List, [],
  ◌∷◌, ◌++◌, map, length, arith, All, Elem, subst,
}
use pg_monitor.Exn.{Result, ok, err, storage_write_error}
use pg_monitor.Collector.Models.{StatementMetric, QuerySnapshotResult}
use pg_monitor.Storage.Orm.{QueryMetricSnapshotOrm}
use pg_monitor.Storage.Session.{Session, statement, catching, pure, ◌>>◌}
use pg_monitor.Storage.Queries.Write.{
  to_orm, same_point, fits_columns, taken, insert_all, store_rows, write_rows, write_query_snapshot,
}

some_eq : {A : Type 0} {a b : A} → some a ≡ some b → a ≡ b
some_eq e = cc

module _ {F : Type 0} where
  -- No row is at the point of an earlier one, as the unique constraint has it.
  abbrev pub DistinctPoints : List (QueryMetricSnapshotOrm F) → Type 0
  DistinctPoints [] = Unit
  DistinctPoints (row ∷ rows) = All (λ r. same_point r row ≡ false) rows × DistinctPoints rows

  -- Rows with the ids that the sequence gives them.
  abbrev pub numbered : ℕ → List (QueryMetricSnapshotOrm F) → List (QueryMetricSnapshotOrm F)
  numbered next [] = []
  numbered next (row ∷ rows) = record row { id = next } ∷ numbered (suc next) rows

  inserted :
      (next : ℕ) (row : QueryMetricSnapshotOrm F) (rows table : List (QueryMetricSnapshotOrm F))
      (t : List (QueryMetricSnapshotOrm F))
      → insert_all next (row ∷ rows) table ≡ some t
      → (fits_columns row ≡ true)
        × (taken row table ≡ false)
        × (insert_all (suc next) rows (table ++ record row { id = next } ∷ []) ≡ some t)
  unfolding insert_all
  inserted next row rows table t h = ground arith

  insert_all-eq :
      (next : ℕ) (rows table : List (QueryMetricSnapshotOrm F))
      (t : List (QueryMetricSnapshotOrm F))
      → insert_all next rows table ≡ some t
      → (t ≡ table ++ numbered next rows) × All (λ r. fits_columns r ≡ true) rows
  unfolding insert_all
  insert_all-eq next [] table t h = (sym (some_eq h) ∙ sym (append-nil table), tt)
  insert_all-eq next (row ∷ rows) table t h =
      let (fits, new, rest) = inserted next row rows table t h in
      let (e, all) = insert_all-eq (suc next) rows _ t rest in
      (e ∙ append_assoc table _ _, (fits, all))

  All-snoc :
      (P : QueryMetricSnapshotOrm F → Type 0) (rows : List (QueryMetricSnapshotOrm F))
      (row : QueryMetricSnapshotOrm F)
      → All P rows
      → P row
      → All P (rows ++ row ∷ [])
  All-snoc P [] row h p = (p, tt)
  All-snoc P (r ∷ rows) row h p = (h.0, All-snoc P rows row h.1 p)

  DistinctPoints-snoc :
      (table : List (QueryMetricSnapshotOrm F)) (row : QueryMetricSnapshotOrm F)
      → DistinctPoints table
      → taken row table ≡ false
      → DistinctPoints (table ++ row ∷ [])
  unfolding taken
  DistinctPoints-snoc [] row d n = (tt, tt)
  DistinctPoints-snoc (other ∷ table) row d n = (
    All-snoc (λ r. same_point r other ≡ false) table row d.0 (ground arith),
    DistinctPoints-snoc table row d.1 (ground arith),
  )

  insert_all-DistinctPoints :
      (next : ℕ) (rows table : List (QueryMetricSnapshotOrm F))
      (t : List (QueryMetricSnapshotOrm F))
      → insert_all next rows table ≡ some t
      → DistinctPoints table
      → DistinctPoints t
  unfolding insert_all
  insert_all-DistinctPoints next [] table t h d = subst (λ l. DistinctPoints l) (some_eq h) d
  insert_all-DistinctPoints next (row ∷ rows) table t h d =
      let (fits, new, rest) = inserted next row rows table t h in
      insert_all-DistinctPoints (suc next) rows _ t rest
        (DistinctPoints-snoc table (record row { id = next }) d new)

  -- What the write of `rows` does to the session `s`, with the result `r` and the session `s'` at its end.
  pub record IsWrite (rows : List (QueryMetricSnapshotOrm F)) (r : Result ℕ) (s s' : Session F)
      : Type 0 where
    pub outcome :
        ((r ≡ ok (length rows))
          × All (λ row. fits_columns row ≡ true) rows
          × (s'.tables ≡ record s.tables {
            query_metric_snapshots =
                s.tables.query_metric_snapshots
                ++ numbered s.sequences.query_metric_snapshots_id rows;
          }))
        ⊎ ((r ≡ err storage_write_error) × (s'.tables ≡ s.tables))
    pub stays_distinct :
        DistinctPoints s.tables.query_metric_snapshots
        → DistinctPoints s'.tables.query_metric_snapshots
    pub not_committed : s'.committed ≡ s.committed
    pub still_entered : s'.entered ≡ s.entered

  stored_lem :
      (rows : List (QueryMetricSnapshotOrm F)) (s : Session F)
      (o : Option (List (QueryMetricSnapshotOrm F)))
      → insert_all s.sequences.query_metric_snapshots_id rows s.tables.query_metric_snapshots ≡ o
      → let out =
          (catching storage_write_error (store_rows o (length rows)) >> pure (length rows)) s in
        IsWrite rows out.0 s out.1
  unfolding store_rows
  stored_lem rows s none e = record {
    outcome = inr (refl, refl);
    stays_distinct = λ d. d;
    not_committed = refl;
    still_entered = refl;
  }
  stored_lem rows s (some t) e = record {
    outcome = inl (
      refl,
      (insert_all-eq _ rows _ t e).1,
      ap (λ l. record s.tables { query_metric_snapshots = l }) (insert_all-eq _ rows _ t e).0,
    );
    stays_distinct = λ d. insert_all-DistinctPoints _ rows _ t e d;
    not_committed = refl;
    still_entered = refl;
  }

  abbrev facing : Session F → List Bool → Session F
  facing s l = record s { faults = l }

  write_rows_lem :
      (rows : List (QueryMetricSnapshotOrm F)) (s : Session F) (l : List Bool)
      → let out = write_rows rows (facing s l) in IsWrite rows out.0 (facing s l) out.1
  unfolding write_rows statement
  write_rows_lem [] s l = record {
    outcome =
        inl
          (refl, tt, ap (λ t. record s.tables { query_metric_snapshots = t }) (sym (append-nil _)));
    stays_distinct = λ d. d;
    not_committed = refl;
    still_entered = refl;
  }
  write_rows_lem (row ∷ rows) s [] = stored_lem (row ∷ rows) (facing s []) _ refl
  write_rows_lem (row ∷ rows) s (false ∷ l) =
      let w = stored_lem (row ∷ rows) (facing s l) _ refl in
      record {
        outcome = w.outcome;
        stays_distinct = w.stays_distinct;
        not_committed = w.not_committed;
        still_entered = w.still_entered;
      }
  write_rows_lem (row ∷ rows) s (true ∷ l) = record {
    outcome = inr (refl, refl);
    stays_distinct = λ d. d;
    not_committed = refl;
    still_entered = refl;
  }

  -- On every session, the write of a snapshot either returns the number of its statements, all of which fit their
  -- columns, and has appended their rows with the ids of the sequence, or raises StorageWriteError and has changed no
  -- table. In both cases a table with no two rows at one point stays so, nothing is committed, and the unit of work
  -- still holds the session.
  pub write_query_snapshot-IsWrite :
      (snapshot : QuerySnapshotResult F) (s : Session F)
      → let out = write_query_snapshot snapshot s in
        IsWrite (map (to_orm snapshot) snapshot.statements) out.0 s out.1
  unfolding write_query_snapshot
  write_query_snapshot-IsWrite snapshot s =
      write_rows_lem (map (to_orm snapshot) snapshot.statements) s s.faults

All-map-Elem :
    {A B : Type 0} (f : A → B) (P : B → Type 0) (xs : List A) (a : A)
    → Elem a xs
    → All P (map f xs)
    → P (f a)
All-map-Elem f P [] a m h = absurd m
All-map-Elem f P (x ∷ xs) a (inl e) h = subst (λ y. P (f y)) (sym e) h.0
All-map-Elem f P (x ∷ xs) a (inr m) h = All-map-Elem f P xs a m h.1

-- A snapshot with a statement whose `dbid` or another value its column does not hold is not written at all: the write
-- raises StorageWriteError and changes no table, whatever the other statements are.
pub write_query_snapshot-misfit :
    {F : Type 0} (snapshot : QuerySnapshotResult F) (s : Session F) (metric : StatementMetric F)
    → Elem metric snapshot.statements
    → fits_columns (to_orm snapshot metric) ≡ false
    → let out = write_query_snapshot snapshot s in
      (out.0 ≡ err storage_write_error) × (out.1.tables ≡ s.tables)
write_query_snapshot-misfit snapshot s metric at misfit =
    elim (write_query_snapshot-IsWrite snapshot s).outcome [
      | inl w ↦ absurd (
          true≢false (
            sym (
              All-map-Elem (to_orm snapshot) (λ r. fits_columns r ≡ true) snapshot.statements metric
                at w.1)
            ∙ misfit))
      | inr w ↦ w
    ]
