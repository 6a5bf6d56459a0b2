-- ===== src/Storage/Runtime/Write/Outcomes.antt =====
-- What write_runtime_snapshot of storage/repositories.py leaves alone.
use pg_monitor.Prelude.{ℕ, refl, Bool, true, false, List, [], ◌∷◌, length, ◌+◌, if◌then◌else◌}
use pg_monitor.Exn.{storage_write_error}
use pg_monitor.Collector.Models.{DatabaseMetric, RuntimeSnapshotResult}
use pg_monitor.Storage.Session.{Db, pure, select, statement, catching, ◌>>=◌, ◌>>◌}
use pg_monitor.Storage.Session.Keeps.{
  Keeps, same-Kept, >>=-Keeps, >>-Keeps, statement-Keeps, select-Keeps, update-Keeps,
}
use pg_monitor.Storage.Runtime.Upserts.{upsert_runtime_current, current_captured_at}
use pg_monitor.Storage.Runtime.Write.{
  require_fit, flush_runtime, flush_history, upsert_values, delete_databases, replace_databases,
  is_stale, upsert_runtime_database_current, write_runtime_snapshot,
}

module _ {F : Type 0} where
  require_fit-Keeps : (b : Bool) → Keeps (require_fit {F = F} b)
  unfolding require_fit
  require_fit-Keeps true s = same-Kept s
  require_fit-Keeps false s = same-Kept s

  flush_runtime-Keeps : (snapshot : RuntimeSnapshotResult F) → Keeps (flush_runtime snapshot)
  unfolding flush_runtime
  flush_runtime-Keeps snapshot =
      >>-Keeps _ _ (>>-Keeps statement _ statement-Keeps (require_fit-Keeps _))
        (λ s. record { not_committed = refl; still_entered = refl })

  flush_history-Keeps :
      (id : ℕ) (rows : List DatabaseMetric) → Keeps (flush_history {F = F} id rows)
  unfolding flush_history
  flush_history-Keeps id [] = λ s. same-Kept s
  flush_history-Keeps id (row ∷ rows) =
      >>-Keeps _ _ (>>-Keeps statement _ statement-Keeps (require_fit-Keeps _))
        (λ s. record { not_committed = refl; still_entered = refl })

  upsert_values-Keeps : (snapshot : RuntimeSnapshotResult F) → Keeps (upsert_values snapshot)
  unfolding upsert_values
  upsert_values-Keeps snapshot =
      >>-Keeps _ _ (>>-Keeps statement _ statement-Keeps (require_fit-Keeps _))
        (λ s. record { not_committed = refl; still_entered = refl })

  replace_databases-Keeps :
      (snapshot : RuntimeSnapshotResult F) (rows : List DatabaseMetric)
      → Keeps (replace_databases snapshot rows)
  unfolding replace_databases delete_databases
  replace_databases-Keeps snapshot [] = update-Keeps _
  replace_databases-Keeps snapshot (row ∷ rows) =
      >>-Keeps _ _ (update-Keeps _) (upsert_values-Keeps snapshot)

  if-Keeps : (b : Bool) (m n : Db F (Unit {0})) → Keeps m → Keeps n → Keeps (if b then m else n)
  if-Keeps true m n k h = k
  if-Keeps false m n k h = h

  upsert_runtime_database_current-Keeps :
      (snapshot : RuntimeSnapshotResult F) → Keeps (upsert_runtime_database_current snapshot)
  unfolding upsert_runtime_database_current
  upsert_runtime_database_current-Keeps snapshot =
      >>=-Keeps (select λ t. current_captured_at snapshot.db_identifier t.runtime_current)
        (λ latest.
          if is_stale latest snapshot.captured_at
          then pure tt
          else replace_databases snapshot snapshot.database)
        (select-Keeps _)
        (λ latest.
          if-Keeps (is_stale latest snapshot.captured_at) (pure tt)
            (replace_databases snapshot snapshot.database) (λ s. same-Kept s)
            (replace_databases-Keeps snapshot snapshot.database))

  upsert_runtime_current-Keeps :
      (snapshot : RuntimeSnapshotResult F) → Keeps (upsert_runtime_current snapshot)
  unfolding upsert_runtime_current
  upsert_runtime_current-Keeps snapshot = update-Keeps _

  -- What follows once the row of the snapshot has its id.
  abbrev after_flush : RuntimeSnapshotResult F → ℕ → Db F (Unit {0})
  after_flush snapshot id =
      upsert_runtime_current snapshot
      >> (upsert_runtime_database_current snapshot >> flush_history id snapshot.database)

  after_flush-Keeps :
      (snapshot : RuntimeSnapshotResult F) (id : ℕ) → Keeps (after_flush snapshot id)
  after_flush-Keeps snapshot id =
      >>-Keeps (upsert_runtime_current snapshot)
        (upsert_runtime_database_current snapshot >> flush_history id snapshot.database)
        (upsert_runtime_current-Keeps snapshot)
        (>>-Keeps (upsert_runtime_database_current snapshot) (flush_history id snapshot.database)
          (upsert_runtime_database_current-Keeps snapshot)
          (flush_history-Keeps id snapshot.database))

  pub write_runtime_snapshot-Keeps :
      (snapshot : RuntimeSnapshotResult F) → Keeps (write_runtime_snapshot snapshot)
  unfolding write_runtime_snapshot
  write_runtime_snapshot-Keeps snapshot =
      >>-Keeps (catching storage_write_error (flush_runtime snapshot >>= after_flush snapshot))
        (pure (1 + length snapshot.database))
        (>>=-Keeps (flush_runtime snapshot) (after_flush snapshot) (flush_runtime-Keeps snapshot)
          (after_flush-Keeps snapshot))
        (λ s. same-Kept s)
