-- ===== src/Storage/Uow/Atomicity.antt =====
-- What a unit of work of storage/uow.py leaves behind.
use pg_monitor.Prelude.{
  ◌≡◌, refl, sym, subst, ap, ◌∙◌, ◌⊎◌, inl, inr, Bool, true, false, List, [], ◌∷◌, arith,
}
use pg_monitor.Exn.{Result, ok, err, storage_error, storage_write_error}
use pg_monitor.Storage.Session.{Session, Db, statement}
use pg_monitor.Storage.Uow.{with_uow, aexit}

abbrev pub is_ok : {A : Type 0} → Result A → Bool
is_ok (ok a) = true
is_ok (err e) = false

module _ {F : Type 0} where
  -- The session at the start and at the end of a unit of work that has changed nothing.
  abbrev pub entered : Session F → Session F
  entered s = record s { entered = true; tables = s.committed }

  abbrev pub left : Session F → Session F
  left s = record s { entered = false; tables = s.committed }

  abbrev held : Session F → List Bool → Session F
  held b l = record b { entered = true; faults = l }

module _ {F A : Type 0} where
  -- What a unit of work leaves behind, with `r` and `b` the result and the session of its body.
  pub record IsAtomic (s b : Session F) (r r' : Result A) (s' : Session F) : Type 0 where
    pub closed : s'.entered ≡ false
    pub nothing_pending : s'.tables ≡ s'.committed
    pub committed : is_ok r' ≡ true → (s'.committed ≡ b.tables) × (r' ≡ r)
    pub rolled_back : is_ok r' ≡ false → s'.committed ≡ s.committed
    pub same_error : (r' ≡ r) ⊎ (r' ≡ err storage_error) ⊎ (r' ≡ err storage_write_error)

  aexit_cases :
      (s b : Session F) (r : Result A) (l : List Bool)
      → b.committed ≡ s.committed
      → IsAtomic s (held b l) r (aexit r (held b l)).0 (aexit r (held b l)).1
  unfolding aexit statement
  aexit_cases s b (ok a) [] k = record {
    closed = refl;
    nothing_pending = refl;
    committed = λ _. (refl, refl);
    rolled_back = λ e. ground arith;
    same_error = inl refl;
  }
  aexit_cases s b (ok a) (true ∷ l) k = record {
    closed = refl;
    nothing_pending = refl;
    committed = λ e. ground arith;
    rolled_back = λ _. k;
    same_error = inr (inr refl);
  }
  aexit_cases s b (ok a) (false ∷ l) k = record {
    closed = refl;
    nothing_pending = refl;
    committed = λ _. (refl, refl);
    rolled_back = λ e. ground arith;
    same_error = inl refl;
  }
  aexit_cases s b (err e) [] k = record {
    closed = refl;
    nothing_pending = refl;
    committed = λ e. ground arith;
    rolled_back = λ _. k;
    same_error = inl refl;
  }
  aexit_cases s b (err e) (true ∷ l) k = record {
    closed = refl;
    nothing_pending = refl;
    committed = λ e. ground arith;
    rolled_back = λ _. k;
    same_error = inr (inl refl);
  }
  aexit_cases s b (err e) (false ∷ l) k = record {
    closed = refl;
    nothing_pending = refl;
    committed = λ e. ground arith;
    rolled_back = λ _. k;
    same_error = inl refl;
  }

  aexit-IsAtomic :
      (s b : Session F) (r : Result A)
      → b.entered ≡ true
      → b.committed ≡ s.committed
      → IsAtomic s b r (aexit r b).0 (aexit r b).1
  aexit-IsAtomic s b r h k =
      let P : Bool → Type 0 = λ x.
        IsAtomic s (record b { entered = x }) r (aexit r (record b { entered = x })).0
          (aexit r (record b { entered = x })).1 in
      subst P (sym h) (aexit_cases s b r b.faults k)

  -- With a body that leaves the commit to the unit of work: if the unit returns, what the body wrote is committed and
  -- the body's result is returned; if it raises, nothing is; the error is the body's, or that of the commit or the
  -- rollback. On every path the session is closed with nothing pending.
  pub with_uow-IsAtomic :
      (body : Db F A) (s : Session F)
      → (body (entered s)).1.entered ≡ true
      → (body (entered s)).1.committed ≡ s.committed
      → IsAtomic s (body (entered s)).1 (body (entered s)).0 (with_uow body s).0 (with_uow body s).1
  unfolding with_uow
  with_uow-IsAtomic body s h k = aexit-IsAtomic s (body (entered s)).1 (body (entered s)).0 h k

  aexit_calm :
      (s : Session F) (a : A)
      → aexit (ok a) (record (entered s) { faults = [] }) ≡ (ok a, record (left s) { faults = [] })
  unfolding aexit statement
  aexit_calm s a = refl

  pub with_uow_read :
      (body : Db F A) (s : Session F) (a : A)
      → s.faults ≡ []
      → body (entered s) ≡ (ok a, entered s)
      → with_uow body s ≡ (ok a, left s)
  unfolding with_uow
  with_uow_read body s a calm e =
      ap (λ x. aexit x.0 x.1) e
      ∙ subst
          (λ l.
            aexit (ok a) (record (entered s) { faults = l })
            ≡ (ok a, record (left s) { faults = l }))
          (sym calm) (aexit_calm s a)
