-- ===== src/Storage/Session/Moves.antt =====
-- Relations of the tables before and after a step of a session, which chains of steps pass on.
use pg_monitor.Prelude.{Bool, true, false, List, [], ◌∷◌}
use pg_monitor.Exn.{Result, ok, err}
use pg_monitor.Storage.Orm.{Tables}
use pg_monitor.Storage.Session.{Session, Db, pure, continue, statement, select, update, ◌>>=◌, ◌>>◌}

-- A relation that holds from each table to itself, and passes through.
pub record IsPath {F : Type 0} (R : Tables F → Tables F → Type 0) : Type 0 where
  pub stay : (t : Tables F) → R t t
  pub chain : (t u v : Tables F) → R t u → R u v → R t v

-- A step that the relation covers, whether it succeeds or not.
abbrev pub Moves : {F A : Type 0} → (Tables F → Tables F → Type 0) → Db F A → Type 0
Moves {F} R m = (s : Session F) → R s.tables (m s).1.tables

module _ {F : Type 0} (R : Tables F → Tables F → Type 0) (p : IsPath R) where
  continue-Moves :
      {A B : Type 0} (r : Result A) (next : A → Db F B) (s s' : Session F)
      → R s.tables s'.tables
      → ((a : A) → Moves R (next a))
      → R s.tables (continue r next s').1.tables
  continue-Moves (ok a) next s s' k h = p.chain s.tables s'.tables _ k (h a s')
  continue-Moves (err e) next s s' k h = k

  pub >>=-Moves :
      {A B : Type 0} (m : Db F A) (next : A → Db F B)
      → Moves R m
      → ((a : A) → Moves R (next a))
      → Moves R (m >>= next)
  >>=-Moves m next k h s = continue-Moves (m s).0 next s (m s).1 (k s) h

  pub >>-Moves : {A B : Type 0} (m : Db F A) (n : Db F B) → Moves R m → Moves R n → Moves R (m >> n)
  >>-Moves m n k h = >>=-Moves m (λ _. n) k (λ _. h)

  pub pure-Moves : {A : Type 0} (a : A) → Moves R (pure a)
  pure-Moves a s = p.stay s.tables

  with_faults :
      (s : Session F) (l : List Bool) → R s.tables (statement (record s { faults = l })).1.tables
  unfolding statement
  with_faults s [] = p.stay s.tables
  with_faults s (true ∷ l) = p.stay s.tables
  with_faults s (false ∷ l) = p.stay s.tables

  pub statement-Moves : Moves R (statement {F = F})
  statement-Moves s = with_faults s s.faults

  pub select-Moves : {A : Type 0} (query : Tables F → A) → Moves R (select query)
  unfolding select
  select-Moves query =
      >>-Moves statement (λ s. (ok (query s.tables), s)) statement-Moves (λ s. p.stay s.tables)

  pub update-Moves :
      (change : Tables F → Tables F) → ((t : Tables F) → R t (change t)) → Moves R (update change)
  unfolding update
  update-Moves change h =
      >>-Moves statement (λ s. (ok tt, record s { tables = change s.tables })) statement-Moves
        (λ s. h s.tables)
