-- ===== src/Storage/Session/Keeps.antt =====
-- What steps of a session leave alone, for the repositories of storage/repositories.py.
use pg_monitor.Prelude.{◌≡◌, refl, ◌∙◌, Bool, true, false, List, [], ◌∷◌}
use pg_monitor.Exn.{Result, ok, err}
use pg_monitor.Storage.Orm.{Tables}
use pg_monitor.Storage.Session.{Session, Db, continue, statement, select, update, ◌>>=◌, ◌>>◌}

-- The session that `m` leaves has the same committed tables, and the unit of work still holds it.
pub record Kept {F : Type 0} (s s' : Session F) : Type 0 where
  pub not_committed : s'.committed ≡ s.committed
  pub still_entered : s'.entered ≡ s.entered

abbrev pub Keeps : {F A : Type 0} → Db F A → Type 0
Keeps {F} m = (s : Session F) → Kept s (m s).1

pub same-Kept : {F : Type 0} (s : Session F) → Kept s s
same-Kept s = record { not_committed = refl; still_entered = refl }

module _ {F A B : Type 0} where
  continue-Keeps :
      (r : Result A) (f : A → Db F B) (s s' : Session F)
      → Kept s s'
      → ((a : A) → Keeps (f a))
      → Kept s (continue r f s').1
  continue-Keeps (ok a) f s s' k h = record {
    not_committed = (h a s').not_committed ∙ k.not_committed;
    still_entered = (h a s').still_entered ∙ k.still_entered;
  }
  continue-Keeps (err e) f s s' k h = k

  pub >>=-Keeps :
      (m : Db F A) (f : A → Db F B) → Keeps m → ((a : A) → Keeps (f a)) → Keeps (m >>= f)
  >>=-Keeps m f k h s = continue-Keeps (m s).0 f s (m s).1 (k s) h

  pub >>-Keeps : (m : Db F A) (n : Db F B) → Keeps m → Keeps n → Keeps (m >> n)
  >>-Keeps m n k h = >>=-Keeps m (λ _. n) k (λ _. h)

module _ {F : Type 0} where
  statement_cases : (s : Session F) (l : List Bool) → Kept s (statement (record s { faults = l })).1
  unfolding statement
  statement_cases s [] = record { not_committed = refl; still_entered = refl }
  statement_cases s (true ∷ l) = record { not_committed = refl; still_entered = refl }
  statement_cases s (false ∷ l) = record { not_committed = refl; still_entered = refl }

  pub statement-Keeps : Keeps (statement {F = F})
  statement-Keeps s = statement_cases s s.faults

  pub select-Keeps : {A : Type 0} (query : Tables F → A) → Keeps (select query)
  unfolding select
  select-Keeps query =
      >>-Keeps statement (λ s. (ok (query s.tables), s)) statement-Keeps (λ s. same-Kept s)

  pub update-Keeps : (change : Tables F → Tables F) → Keeps (update change)
  unfolding update
  update-Keeps change =
      >>-Keeps statement (λ s. (ok tt, record s { tables = change s.tables })) statement-Keeps
        (λ s. record { not_committed = refl; still_entered = refl })
