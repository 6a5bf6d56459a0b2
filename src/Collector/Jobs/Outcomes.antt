-- ===== src/Collector/Jobs/Outcomes.antt =====
-- What the jobs of collector/scheduler.py leave in the storage, and what can come out of them.
use pg_monitor.Prelude.{
  ℕ, ◌≡◌, refl, sym, ap, ◌∙◌, ◌⊎◌, inl, inr, String, Bool, Bool-cases, false, arith,
}
use pg_monitor.Exn.{Exn, Result, ok, err, is_collector_error, is_storage_error, is_timeout_error}
use pg_monitor.Collector.Models.{Objects, FloatObjects}
use pg_monitor.Collector.Context.{Profile, runtime, queries, Context}
use pg_monitor.Collector.Service.{CollectorRepository, collect_runtime_once, collect_queries_once}
use pg_monitor.Collector.Jobs.{
  World, wait_for, end_job, store_snapshot, run_job, run_runtime_job, run_queries_job,
}
use pg_monitor.Storage.Session.{Session, Db}
use pg_monitor.Storage.Session.Keeps.{Keeps}
use pg_monitor.Storage.Uow.{with_uow}
use pg_monitor.Storage.Uow.Atomicity.{entered, IsAtomic, is_ok, with_uow-IsAtomic}
use pg_monitor.Storage.Queries.Write.{write_query_snapshot}
use pg_monitor.Storage.Queries.Write.Outcomes.{write_query_snapshot-IsWrite}
use pg_monitor.Storage.Runtime.Write.{write_runtime_snapshot}
use pg_monitor.Storage.Runtime.Write.Outcomes.{write_runtime_snapshot-Keeps}

-- No `except` clause of a job names the class of the exception.
pub record Escapes (e : Exn) : Type 0 where
  pub no_collector_error : is_collector_error e ≡ false
  pub no_storage_error : is_storage_error e ≡ false
  pub no_timeout_error : is_timeout_error e ≡ false

-- Of a job that collected `collected` and writes with `write`, with the result `r` and the end `w'`: it returns, or an
-- exception leaves it that no clause names; and either nothing was committed, or a snapshot was collected, its write
-- returned, and what it wrote was committed.
pub record IsJob {F A : Type 0} (write : A → Db F ℕ) (collected : Result A) (w : World F)
    (r : Result (Unit {0})) (w' : World F) : Type 0 where
  pub contained : (r ≡ ok tt) ⊎ ((e : Exn) × (r ≡ err e) × Escapes e)
  pub all_or_nothing :
      (w'.session.committed ≡ w.session.committed)
      ⊎ ((snapshot : A) × (n : ℕ) × (collected ≡ ok snapshot)
          × ((write snapshot (entered w.session)).0 ≡ ok n)
          × (w'.session.committed ≡ (write snapshot (entered w.session)).1.tables)
          × (r ≡ ok tt))

module _ {F : Type 0} where
  end_job-contained :
      (profile : Profile) (db : String) (r : Result ℕ) (w : World F)
      → let out = end_job profile db r w in
        (out.0 ≡ ok tt) ⊎ ((e : Exn) × (out.0 ≡ err e) × Escapes e)
  unfolding end_job
  end_job-contained profile db (ok n) w = inl refl
  end_job-contained profile db (err e) w = elim (Bool-cases (is_collector_error e)) [
    | inl t ↦ inl (rw t refl)
    | inr c ↦ elim (Bool-cases (is_storage_error e)) [
      | inl t ↦ inl (rw (c, t) refl)
      | inr s ↦ elim (Bool-cases (is_timeout_error e)) [
        | inl t ↦ inl (rw (c, s, t) refl)
        | inr t ↦ inr (
          e,
          rw (c, s, t) refl,
          record { no_collector_error = c; no_storage_error = s; no_timeout_error = t },
        )
      ]
    ]
  ]

  end_job-session :
      (profile : Profile) (db : String) (r : Result ℕ) (w : World F)
      → (end_job profile db r w).1.session ≡ w.session
  unfolding end_job
  end_job-session profile db (ok n) w = refl
  end_job-session profile db (err e) w = ground arith

  end_job-ok :
      (profile : Profile) (db : String) (r : Result ℕ) (w : World F) (n : ℕ)
      → r ≡ ok n
      → (end_job profile db r w).0 ≡ ok tt
  unfolding end_job
  end_job-ok profile db (ok m) w n e = refl
  end_job-ok profile db (err x) w n e = cc

module _ {F A : Type 0} (profile : Profile) (db : A → String) (write : A → Db F ℕ)
    (keeps : (snapshot : A) → Keeps (write snapshot)) where
  unit : A → World F → Result ℕ × Session F
  unit snapshot w = with_uow (write snapshot) w.session

  ended : A → World F → Result (Unit {0}) × World F
  unfolding unit
  ended snapshot w =
      end_job profile (db snapshot) (unit snapshot w).0 (record w { session = (unit snapshot w).1 })

  unit-IsAtomic :
      (snapshot : A) (w : World F)
      → let b = write snapshot (entered w.session) in
        IsAtomic w.session b.1 b.0 (unit snapshot w).0 (unit snapshot w).1
  unfolding unit
  unit-IsAtomic snapshot w =
      let k = keeps snapshot (entered w.session) in
      with_uow-IsAtomic (write snapshot) w.session k.still_entered k.not_committed

  ended-session :
      (snapshot : A) (w : World F)
      → (ended snapshot w).1.session.committed ≡ (unit snapshot w).1.committed
  unfolding ended
  ended-session snapshot w =
      ap (λ s. s.committed)
        (end_job-session profile (db snapshot) (unit snapshot w).0
          (record w { session = (unit snapshot w).1 }))

  ended-all_or_nothing :
      (snapshot : A) (w : World F) (r : Result ℕ)
      → r ≡ (unit snapshot w).0
      → ((ended snapshot w).1.session.committed ≡ w.session.committed)
        ⊎ ((a : A) × (n : ℕ) × (ok snapshot ≡ ok a)
            × ((write a (entered w.session)).0 ≡ ok n)
            × ((ended snapshot w).1.session.committed ≡ (write a (entered w.session)).1.tables)
            × ((ended snapshot w).0 ≡ ok tt))
  unfolding ended
  ended-all_or_nothing snapshot w (ok n) e =
      let c = (unit-IsAtomic snapshot w).committed (ap is_ok (sym e)) in
      inr (
        snapshot,
        n,
        refl,
        sym c.1 ∙ sym e,
        ended-session snapshot w ∙ c.0,
        end_job-ok profile (db snapshot) (unit snapshot w).0 _ n (sym e),
      )
  ended-all_or_nothing snapshot w (err x) e =
      inl (ended-session snapshot w ∙ (unit-IsAtomic snapshot w).rolled_back (ap is_ok (sym e)))

  ended-contained :
      (snapshot : A) (w : World F)
      → ((ended snapshot w).0 ≡ ok tt) ⊎ ((e : Exn) × ((ended snapshot w).0 ≡ err e) × Escapes e)
  unfolding ended
  ended-contained snapshot w = end_job-contained profile (db snapshot) (unit snapshot w).0 _

  store_snapshot-IsJob :
      (collected : Result A) (w : World F)
      → let out = store_snapshot profile db write collected w in IsJob write collected w out.0 out.1
  unfolding store_snapshot ended
  store_snapshot-IsJob (err e) w = record {
    contained = end_job-contained profile "" (err e) w;
    all_or_nothing = inl (ap (λ s. s.committed) (end_job-session profile "" (err e) w));
  }
  store_snapshot-IsJob (ok snapshot) w = record {
    contained = ended-contained snapshot w;
    all_or_nothing = ended-all_or_nothing snapshot w (unit snapshot w).0 refl;
  }

  run_job-IsJob :
      (expired : Bool) (collect : Context → Result A × Context) (w : World F)
      → let out = run_job profile db write expired collect w in
        IsJob write (wait_for expired (collect w.context).0) w out.0 out.1
  unfolding run_job
  run_job-IsJob expired collect w =
      let k =
        store_snapshot-IsJob (wait_for expired (collect w.context).0)
          (record w { context = (collect w.context).1 }) in
      record { contained = k.contained; all_or_nothing = k.all_or_nothing }

module _ {F V : Type 0} ⦃py : Objects V⦄ ⦃fp : FloatObjects F V⦄
    (repository : CollectorRepository V) (now : ℕ) (uuid : String) (expired : Bool)
    (w : World F) where
  -- Whatever the monitored server answers, the time limit cuts off and the storage fails, a runtime job and a queries
  -- job each commit all that the write of a collected snapshot wrote, or nothing, and no collector error, storage error
  -- or timeout comes out of them.
  pub jobs-IsJob :
      (let out = run_runtime_job repository now uuid expired w in
        IsJob write_runtime_snapshot
          (wait_for expired (collect_runtime_once repository now uuid w.context).0)
          w
          out.0
          out.1)
      × (let out = run_queries_job repository now uuid expired w in
          IsJob write_query_snapshot
            (wait_for expired (collect_queries_once repository now uuid w.context).0)
            w
            out.0
            out.1)
  unfolding run_runtime_job run_queries_job
  jobs-IsJob = (
    run_job-IsJob runtime (λ r. r.db_identifier) write_runtime_snapshot write_runtime_snapshot-Keeps
        expired (collect_runtime_once repository now uuid) w,
    run_job-IsJob queries (λ r. r.db_identifier) write_query_snapshot
        (λ snapshot s.
          let k = write_query_snapshot-IsWrite snapshot s in
          record { not_committed = k.not_committed; still_entered = k.still_entered })
        expired (collect_queries_once repository now uuid) w,
  )
