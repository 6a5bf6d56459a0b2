-- ===== src/Storage/Runtime/Write/Stale.antt =====
-- A runtime snapshot that is older than the current state (write_runtime_snapshot of storage/repositories.py).
use mathlib.Core.Bool.{false≢true}
use pg_monitor.Prelude.{
  ℕ, ◌<◌, ◌≡◌, refl, sym, ap, subst, ◌∙◌, String, Bool, Bool-cases, true, false, Option, some, List,
  [], ◌∷◌, inl, inr, length, ◌+◌, arith, leb, if◌then◌else◌,
}
use pg_monitor.Prelude.Eq.{String_eq, ◌=?◌}
use pg_monitor.Exn.{Result, ok, err, storage_write_error}
use pg_monitor.Collector.Models.{DatabaseMetric, RuntimeSnapshotResult}
use pg_monitor.Storage.Orm.{Tables, RuntimeCurrentOrm}
use pg_monitor.Storage.Session.{
  Session, Db, pure, continue, select, statement, catching, ◌>>=◌, ◌>>◌,
}
use pg_monitor.Storage.Session.Moves.{
  IsPath, Moves, >>=-Moves, >>-Moves, pure-Moves, statement-Moves, update-Moves,
}
use pg_monitor.Storage.Runtime.Upserts.{
  current_row, upsert_current, upsert_runtime_current, current_captured_at,
}
use pg_monitor.Storage.Runtime.Write.{
  require_fit, flush_runtime, flush_history, replace_databases, is_stale,
  upsert_runtime_database_current, write_runtime_snapshot,
}

some_eq : {a b : ℕ} → some a ≡ some b → a ≡ b
some_eq e = cc

module _ {F : Type 0} where
  upsert_current-older :
      (excluded : RuntimeCurrentOrm F) (latest : ℕ) (rows : List (RuntimeCurrentOrm F))
      → excluded.captured_at < latest
      → current_captured_at excluded.db_identifier rows ≡ some latest
      → upsert_current excluded rows ≡ rows
  unfolding upsert_current current_captured_at
  upsert_current-older excluded latest [] old h = cc
  upsert_current-older excluded latest (row ∷ rows) old h =
      elim (Bool-cases (row.db_identifier =? excluded.db_identifier)) [
        | inl t ↦
            let same = some_eq (rw t at h) in
            let kept : leb row.captured_at excluded.captured_at ≡ false = ground arith in
            rw (t, kept)
        | inr f ↦ rw f (ap (◌∷◌ row) (upsert_current-older excluded latest rows old (rw f at h)))
      ]

  module _ (db : String) (latest : ℕ) where
    -- If the database's current state is of `latest`, the current states are what they were.
    abbrev Frozen : Tables F → Tables F → Type 0
    Frozen t t' =
        current_captured_at db t.runtime_current ≡ some latest
        → (t'.runtime_current ≡ t.runtime_current)
          × (t'.runtime_database_current ≡ t.runtime_database_current)

    Frozen-IsPath : IsPath Frozen
    Frozen-IsPath = record {
      stay = λ t h. (refl, refl);
      chain = λ t u v f g h.
          let (a, b) = f h in
          let (c, d) = g (ap (λ rows. current_captured_at db rows) a ∙ h) in (c ∙ a, d ∙ b);
    }

    require_fit-Moves : (b : Bool) → Moves Frozen (require_fit b)
    unfolding require_fit
    require_fit-Moves true s = λ h. (refl, refl)
    require_fit-Moves false s = λ h. (refl, refl)

    statement_fit-Moves : (b : Bool) → Moves Frozen (statement >> require_fit b)
    statement_fit-Moves b =
        >>-Moves Frozen Frozen-IsPath statement (require_fit b)
          (statement-Moves Frozen Frozen-IsPath) (require_fit-Moves b)

    flush_runtime-Moves :
        (snapshot : RuntimeSnapshotResult F) → Moves Frozen (flush_runtime snapshot)
    unfolding flush_runtime
    flush_runtime-Moves snapshot =
        >>-Moves Frozen Frozen-IsPath _ _ (statement_fit-Moves _) (λ s h. (refl, refl))

    flush_history-Moves :
        (id : ℕ) (rows : List DatabaseMetric) → Moves Frozen (flush_history {F = F} id rows)
    unfolding flush_history
    flush_history-Moves id [] = λ s h. (refl, refl)
    flush_history-Moves id (row ∷ rows) =
        >>-Moves Frozen Frozen-IsPath _ _ (statement_fit-Moves _) (λ s h. (refl, refl))

  module _ (snapshot : RuntimeSnapshotResult F) (latest : ℕ)
      (old : snapshot.captured_at < latest) where
    abbrev Kept : Tables F → Tables F → Type 0
    Kept = Frozen snapshot.db_identifier latest

    path : IsPath Kept
    path = Frozen-IsPath snapshot.db_identifier latest

    upsert_runtime_current-Moves : Moves Kept (upsert_runtime_current snapshot)
    unfolding upsert_runtime_current current_row
    upsert_runtime_current-Moves =
        update-Moves Kept path _ (λ t h.
          (upsert_current-older (current_row snapshot) latest t.runtime_current old h, refl))

    -- What follows the time that was read.
    abbrev by_time : Option ℕ → Db F (Unit {0})
    by_time time =
        if is_stale time snapshot.captured_at
        then pure tt
        else replace_databases snapshot snapshot.database

    abbrev time_of : Tables F → Option ℕ
    time_of t = current_captured_at snapshot.db_identifier t.runtime_current

    by_time-stale :
        (t : Tables F) → time_of t ≡ some latest → is_stale (time_of t) snapshot.captured_at ≡ true
    unfolding is_stale
    by_time-stale t h = subst (λ o. is_stale o snapshot.captured_at ≡ true) (sym h) (ground arith)

    if-Moves :
        (b : Bool) (s : Session F)
        → (time_of s.tables ≡ some latest → b ≡ true)
        → Kept s.tables
            ((if b then pure tt else replace_databases snapshot snapshot.database) s).1.tables
    if-Moves true s stale = λ h. (refl, refl)
    if-Moves false s stale = λ h. absurd (false≢true (stale h))

    by_time-Moves : (s : Session F) → Kept s.tables (by_time (time_of s.tables) s).1.tables
    by_time-Moves s =
        if-Moves (is_stale (time_of s.tables) snapshot.captured_at) s (by_time-stale s.tables)

    select_then :
        (r : Result (Unit {0})) (s : Session F)
        → continue
            (continue r (λ _ s. (ok (time_of s.tables), s)) s).0
            by_time
            (continue r (λ _ s. (ok (time_of s.tables), s)) s).1
          ≡ continue r (λ _ s. by_time (time_of s.tables) s) s
    select_then (ok u) s = refl
    select_then (err e) s = refl

    upsert_runtime_database_current-Moves : Moves Kept (upsert_runtime_database_current snapshot)
    unfolding upsert_runtime_database_current select
    upsert_runtime_database_current-Moves s =
        subst (λ out. Kept s.tables out.1.tables)
          (sym (select_then (statement s).0 (statement s).1))
          (>>-Moves Kept path statement (λ s. by_time (time_of s.tables) s)
            (statement-Moves Kept path) by_time-Moves s)

    abbrev after_flush : ℕ → Db F (Unit {0})
    after_flush id =
        upsert_runtime_current snapshot
        >> (upsert_runtime_database_current snapshot >> flush_history id snapshot.database)

    after_flush-Moves : (id : ℕ) → Moves Kept (after_flush id)
    after_flush-Moves id =
        >>-Moves Kept path (upsert_runtime_current snapshot)
          (upsert_runtime_database_current snapshot >> flush_history id snapshot.database)
          upsert_runtime_current-Moves
          (>>-Moves Kept path (upsert_runtime_database_current snapshot)
            (flush_history id snapshot.database) upsert_runtime_database_current-Moves
            (flush_history-Moves snapshot.db_identifier latest id snapshot.database))

    -- A snapshot that is older than the current state of its database changes no current state, neither of the server nor
    -- of its databases, however its write ends.
    pub write_runtime_snapshot-stale :
        (s : Session F)
        → current_captured_at snapshot.db_identifier s.tables.runtime_current ≡ some latest
        → let t = (write_runtime_snapshot snapshot s).1.tables in
          (t.runtime_current ≡ s.tables.runtime_current)
          × (t.runtime_database_current ≡ s.tables.runtime_database_current)
    unfolding write_runtime_snapshot
    write_runtime_snapshot-stale =
        >>-Moves Kept path (catching storage_write_error (flush_runtime snapshot >>= after_flush))
          (pure (1 + length snapshot.database))
          (>>=-Moves Kept path (flush_runtime snapshot) after_flush
            (flush_runtime-Moves snapshot.db_identifier latest snapshot) after_flush-Moves)
          (pure-Moves Kept path (1 + length snapshot.database))
