-- ===== src/Storage/Uow.antt =====
-- storage/uow.py: a unit of work around a session. `aexit` is what it does at its end, with the result of its body.
pub mod Atomicity
use pg_monitor.Prelude.{true, false, if◌then◌else◌}
use pg_monitor.Exn.{Result, ok, err, storage_error, storage_write_error, runtime_error}
use pg_monitor.Storage.Session.{Db, pure, raise, catching, statement, ◌>>◌}

module _ {F : Type 0} where
  -- __aenter__
  unfoldable pub enter : Db F (Unit {0})
  enter s = (ok tt, record s { entered = true; tables = s.committed })

  -- `session.commit()` and `session.rollback()`
  unfoldable pub commit : Db F (Unit {0})
  unfolding statement
  commit = statement >> λ s. (ok tt, record s { committed = s.tables })

  unfoldable pub rollback : Db F (Unit {0})
  unfolding statement
  rollback = statement >> λ s. (ok tt, record s { tables = s.committed })

  -- The properties `query_snapshots` and `runtime_snapshots` refuse a unit that is not entered.
  unfoldable pub require_entered : Db F (Unit {0})
  require_entered s = if s.entered then (ok tt, s) else (err runtime_error, s)

module _ {F A : Type 0} where
  -- The `finally`: what was not committed is gone.
  closing : Db F A → Db F A
  closing m s = let (r, s') = m s in (r, record s' { entered = false; tables = s'.committed })

  finish : Result A → Db F A
  unfolding commit rollback
  finish (ok a) = catching storage_write_error commit >> pure a
  finish (err e) = catching storage_error rollback >> raise e

  -- __aexit__, with the result of the body
  unfoldable pub aexit : Result A → Db F A
  unfolding closing finish
  aexit r s = if s.entered then closing (finish r) s else (r, s)

  -- `async with uow_factory() as uow: body`
  unfoldable pub with_uow : Db F A → Db F A
  unfolding enter aexit require_entered
  with_uow body s = let (r, s') = (enter >> (require_entered >> body)) s in aexit r s'
