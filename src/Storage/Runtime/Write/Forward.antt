-- ===== src/Storage/Runtime/Write/Forward.antt =====
-- The time of the current state in write_runtime_snapshot of storage/repositories.py.
use pg_monitor.Prelude.{
  ℕ, ◌≤◌, ◌≡◌, ap, String, Bool, Bool-cases, true, false, Option, none, some, List, [], ◌∷◌, inl,
  inr, length, ◌+◌, arith, leb, if◌then◌else◌,
}
use pg_monitor.Prelude.Eq.{String_eq, ◌=?◌, =?→eq}
use pg_monitor.Exn.{storage_write_error}
use pg_monitor.Collector.Models.{DatabaseMetric, RuntimeSnapshotResult}
use pg_monitor.Storage.Orm.{Tables, RuntimeCurrentOrm}
use pg_monitor.Storage.Session.{Session, Db, pure, select, statement, catching, ◌>>=◌, ◌>>◌}
use pg_monitor.Storage.Session.Moves.{
  IsPath, Moves, >>=-Moves, >>-Moves, pure-Moves, statement-Moves, select-Moves, update-Moves,
}
use pg_monitor.Storage.Runtime.Upserts.{
  current_row, upsert_current, upsert_runtime_current, current_captured_at,
}
use pg_monitor.Storage.Runtime.Write.{
  require_fit, flush_runtime, flush_history, upsert_values, delete_databases, replace_databases,
  is_stale, upsert_runtime_database_current, write_runtime_snapshot,
}

-- A time that is there, and no earlier than one that was.
abbrev pub NoEarlier : Option ℕ → Option ℕ → Type 0
NoEarlier none new = Unit
NoEarlier (some old) none = ⊥
NoEarlier (some old) (some new) = old ≤ new

NoEarlier-refl : (o : Option ℕ) → NoEarlier o o
NoEarlier-refl none = tt
NoEarlier-refl (some n) = omega arith

NoEarlier-trans : (a b c : Option ℕ) → NoEarlier a b → NoEarlier b c → NoEarlier a c
NoEarlier-trans none b c h k = tt
NoEarlier-trans (some a) (some b) (some c) h k = omega arith
NoEarlier-trans (some a) (some b) none h k = k
NoEarlier-trans (some a) none c h k = absurd h

head_moves :
    (q q' : Bool) (x y : ℕ) (c : Option ℕ)
    → q ≡ q'
    → x ≤ y
    → NoEarlier (if q then some x else c) (if q' then some y else c)
head_moves true true x y c e h = h
head_moves false false x y c e h = NoEarlier-refl c
head_moves true false x y c e h = absurd (ground arith)
head_moves false true x y c e h = absurd (ground arith)

tail_moves :
    (q : Bool) (x : ℕ) (c c' : Option ℕ)
    → NoEarlier c c'
    → NoEarlier (if q then some x else c) (if q then some x else c')
tail_moves true x c c' h = omega arith
tail_moves false x c c' h = h

module _ {F : Type 0} where
  -- The current time of no database goes back.
  abbrev pub Forward : Tables F → Tables F → Type 0
  Forward t t' =
      (db : String)
      → NoEarlier (current_captured_at db t.runtime_current)
          (current_captured_at db t'.runtime_current)

  Forward-IsPath : IsPath Forward
  Forward-IsPath = record {
    stay = λ t db. NoEarlier-refl _;
    chain = λ t u v h k db. NoEarlier-trans _ _ _ (h db) (k db);
  }

  upsert_current-NoEarlier :
      (excluded : RuntimeCurrentOrm F) (rows : List (RuntimeCurrentOrm F)) (db : String)
      → NoEarlier
          (current_captured_at db rows)
          (current_captured_at db (upsert_current excluded rows))
  unfolding upsert_current current_captured_at
  upsert_current-NoEarlier excluded [] db = tt
  upsert_current-NoEarlier excluded (row ∷ rows) db =
      elim (Bool-cases (row.db_identifier =? excluded.db_identifier)) [
        | inl t ↦ elim (Bool-cases (leb row.captured_at excluded.captured_at)) [
          | inl b ↦
              rw (t, b)
                (head_moves (row.db_identifier =? db) (excluded.db_identifier =? db) _ _ _
                  (ap (λ x. x =? db) (=?→eq _ _ t)) (ground arith))
          | inr b ↦ rw (t, b) (NoEarlier-refl _)
        ]
        | inr f ↦
            rw f (
              tail_moves (row.db_identifier =? db) _ _ _
                (upsert_current-NoEarlier excluded rows db))
      ]

  require_fit-Moves : (b : Bool) → Moves Forward (require_fit b)
  unfolding require_fit
  require_fit-Moves true s = λ db. NoEarlier-refl _
  require_fit-Moves false s = λ db. NoEarlier-refl _

  statement_fit-Moves : (b : Bool) → Moves Forward (statement >> require_fit b)
  statement_fit-Moves b =
      >>-Moves Forward Forward-IsPath statement (require_fit b)
        (statement-Moves Forward Forward-IsPath) (require_fit-Moves b)

  flush_runtime-Moves :
      (snapshot : RuntimeSnapshotResult F) → Moves Forward (flush_runtime snapshot)
  unfolding flush_runtime
  flush_runtime-Moves snapshot =
      >>-Moves Forward Forward-IsPath _ _ (statement_fit-Moves _) (λ s db. NoEarlier-refl _)

  flush_history-Moves :
      (id : ℕ) (rows : List DatabaseMetric) → Moves Forward (flush_history {F = F} id rows)
  unfolding flush_history
  flush_history-Moves id [] = λ s db. NoEarlier-refl _
  flush_history-Moves id (row ∷ rows) =
      >>-Moves Forward Forward-IsPath _ _ (statement_fit-Moves _) (λ s db. NoEarlier-refl _)

  upsert_values-Moves :
      (snapshot : RuntimeSnapshotResult F) → Moves Forward (upsert_values snapshot)
  unfolding upsert_values
  upsert_values-Moves snapshot =
      >>-Moves Forward Forward-IsPath _ _ (statement_fit-Moves _) (λ s db. NoEarlier-refl _)

  replace_databases-Moves :
      (snapshot : RuntimeSnapshotResult F) (rows : List DatabaseMetric)
      → Moves Forward (replace_databases snapshot rows)
  unfolding replace_databases delete_databases
  replace_databases-Moves snapshot [] =
      update-Moves Forward Forward-IsPath _ (λ t db. NoEarlier-refl _)
  replace_databases-Moves snapshot (row ∷ rows) =
      >>-Moves Forward Forward-IsPath _ _
        (update-Moves Forward Forward-IsPath _ (λ t db. NoEarlier-refl _))
        (upsert_values-Moves snapshot)

  if-Moves :
      (b : Bool) (m n : Db F (Unit {0}))
      → Moves Forward m
      → Moves Forward n
      → Moves Forward (if b then m else n)
  if-Moves true m n k h = k
  if-Moves false m n k h = h

  upsert_runtime_database_current-Moves :
      (snapshot : RuntimeSnapshotResult F)
      → Moves Forward (upsert_runtime_database_current snapshot)
  unfolding upsert_runtime_database_current
  upsert_runtime_database_current-Moves snapshot =
      >>=-Moves Forward Forward-IsPath
        (select λ t. current_captured_at snapshot.db_identifier t.runtime_current)
        (λ latest.
          if is_stale latest snapshot.captured_at
          then pure tt
          else replace_databases snapshot snapshot.database)
        (select-Moves Forward Forward-IsPath _)
        (λ latest.
          if-Moves (is_stale latest snapshot.captured_at) (pure tt)
            (replace_databases snapshot snapshot.database) (pure-Moves Forward Forward-IsPath tt)
            (replace_databases-Moves snapshot snapshot.database))

  upsert_runtime_current-Moves :
      (snapshot : RuntimeSnapshotResult F) → Moves Forward (upsert_runtime_current snapshot)
  unfolding upsert_runtime_current
  upsert_runtime_current-Moves snapshot =
      update-Moves Forward Forward-IsPath _
        (λ t db. upsert_current-NoEarlier (current_row snapshot) t.runtime_current db)

  abbrev after_flush : RuntimeSnapshotResult F → ℕ → Db F (Unit {0})
  after_flush snapshot id =
      upsert_runtime_current snapshot
      >> (upsert_runtime_database_current snapshot >> flush_history id snapshot.database)

  after_flush-Moves :
      (snapshot : RuntimeSnapshotResult F) (id : ℕ) → Moves Forward (after_flush snapshot id)
  after_flush-Moves snapshot id =
      >>-Moves Forward Forward-IsPath (upsert_runtime_current snapshot)
        (upsert_runtime_database_current snapshot >> flush_history id snapshot.database)
        (upsert_runtime_current-Moves snapshot)
        (>>-Moves Forward Forward-IsPath (upsert_runtime_database_current snapshot)
          (flush_history id snapshot.database) (upsert_runtime_database_current-Moves snapshot)
          (flush_history-Moves id snapshot.database))

  -- On every session, however the write of a runtime snapshot ends, and however old the snapshot is: no server that
  -- has a row of its current state (runtime_current) loses it, and the time of none goes back.
  pub write_runtime_snapshot-Forward :
      (snapshot : RuntimeSnapshotResult F) (s : Session F)
      → Forward s.tables (write_runtime_snapshot snapshot s).1.tables
  unfolding write_runtime_snapshot
  write_runtime_snapshot-Forward snapshot =
      >>-Moves Forward Forward-IsPath
        (catching storage_write_error (flush_runtime snapshot >>= after_flush snapshot))
        (pure (1 + length snapshot.database))
        (>>=-Moves Forward Forward-IsPath (flush_runtime snapshot) (after_flush snapshot)
          (flush_runtime-Moves snapshot) (after_flush-Moves snapshot))
        (pure-Moves Forward Forward-IsPath (1 + length snapshot.database))
