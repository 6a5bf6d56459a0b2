-- ===== src/Storage/Session.antt =====
-- A SQLAlchemy session on the tables of the storage database. What a transaction has written is
-- `tables`, and what others see is `committed`. `faults` says of each statement that is still to come whether
-- the database fails it: an environment that chooses.
pub mod Keeps
pub mod Moves
use pg_monitor.Prelude.{ℕ, ◌≡◌, refl, Bool, true, false, List, [], ◌∷◌, if◌then◌else◌}
use pg_monitor.Exn.{Exn, Result, ok, err, sqlalchemy_error, is_sqlalchemy_error}
use pg_monitor.Storage.Orm.{Tables}

-- The ids that the sequences of the tables give next. A rollback does not take them back.
pub record Sequences : Type 0 where
  pub query_metric_snapshots_id : ℕ
  pub runtime_snapshots_id : ℕ
  pub runtime_database_snapshots_id : ℕ
  pub runtime_database_current_id : ℕ

pub record Session (F : Type 0) : Type 0 where
  pub committed : Tables F
  pub tables : Tables F
  pub sequences : Sequences
  pub faults : List Bool
  -- Whether a unit of work holds the session.
  pub entered : Bool

abbrev pub Db : Type 0 → Type 0 → Type 0
Db F A = Session F → Result A × Session F

module _ {F A : Type 0} where
  abbrev pub pure : A → Db F A
  pure a s = (ok a, s)

  abbrev pub raise : Exn → Db F A
  raise e s = (err e, s)

module _ {F A B : Type 0} where
  abbrev pub continue : Result A → (A → Db F B) → Session F → Result B × Session F
  continue (ok a) f s = f a s
  continue (err e) f s = (err e, s)

  infixl 5 ◌>>=◌ ◌>>◌
  abbrev pub ◌>>=◌ : Db F A → (A → Db F B) → Db F B
  ◌>>=◌ m f s = let (r, s') = m s in continue r f s'

  abbrev pub ◌>>◌ : Db F A → Db F B → Db F B
  m >> k = m >>= λ _. k

module _ {F A B : Type 0} where
  -- What follows a result may be replaced by what does the same after it.
  pub continue_cong :
      (r : Result A) (f g : A → Db F B) (s : Session F)
      → ((a : A) → r ≡ ok a → f a s ≡ g a s)
      → continue r f s ≡ continue r g s
  continue_cong (ok a) f g s h = h a refl
  continue_cong (err e) f g s h = refl

module _ {F : Type 0} where
  next_fault : List Bool → Db F (Unit {0})
  next_fault [] s = (ok tt, s)
  next_fault (true ∷ rest) s = (err sqlalchemy_error, record s { faults = rest })
  next_fault (false ∷ rest) s = (ok tt, record s { faults = rest })

  -- A statement is sent to the database, which may fail it.
  unfoldable pub statement : Db F (Unit {0})
  unfolding next_fault
  statement s = next_fault s.faults s

  -- A query, and a change of the tables.
  unfoldable pub select : {A : Type 0} → (Tables F → A) → Db F A
  unfolding statement
  select query = statement >> λ s. (ok (query s.tables), s)

  unfoldable pub update : (Tables F → Tables F) → Db F (Unit {0})
  unfolding statement
  update change = statement >> λ s. (ok tt, record s { tables = change s.tables })

-- `except SQLAlchemyError as exc: raise to from exc`
abbrev pub translate : {A : Type 0} → Exn → Result A → Result A
translate to (ok a) = ok a
translate to (err e) = if is_sqlalchemy_error e then err to else err e

abbrev pub catching : {F A : Type 0} → Exn → Db F A → Db F A
catching to m s = let (r, s') = m s in (translate to r, s')

module _ {F : Type 0} (s : Session F) (calm : s.faults ≡ []) where
  pub statement_calm : statement s ≡ (ok tt, s)
  unfolding statement
  statement_calm = rw calm

  pub select_calm : {A : Type 0} (query : Tables F → A) → select query s ≡ (ok (query s.tables), s)
  unfolding select
  select_calm query = rw calm

  pub update_calm :
      (change : Tables F → Tables F)
      → update change s ≡ (ok tt, record s { tables = change s.tables })
  unfolding update
  update_calm change = rw calm
