-- ===== src/Collector/Worker/Cleanup.antt =====
-- What run_worker of collector/worker.py closes.
use Prim.Native.Nat.{ℕ, zero, suc}
use pg_monitor.Prelude.{
  ◌+◌, ◌≡◌, refl, sym, ap, subst, Bool-cases, ◌∙◌, ◌⊎◌, inl, inr, arith, if◌then◌else◌,
}
use pg_monitor.Prelude.Int.{ℤ, pos, negsuc}
use pg_monitor.Prelude.Floats.{Floats}
use pg_monitor.Exn.{Result, ok, err, collector_connection_error}
use pg_monitor.Collector.Worker.{
  WorkerSettings, Attempt, WorkerState, try_start, is_connection_error, retry_loop,
  build_and_start_scheduler_with_retry, log_worker, collector_worker_disabled, rounds_of,
  finally_stop, after_start, run_worker,
}
use pg_monitor.Collector.Worker.Attempts.{kept_of, kept_open}
use pg_monitor.Collector.Worker.Retry.{build_and_start_scheduler_with_retry-IsRetry}

-- The number of containers that the caller of a start has to close.
abbrev owed : Result (Unit {0}) → ℕ
owed (ok started) = 1
owed (err e) = 0

made_by :
    (make get launch : Result (Unit {0}))
    → let o =
        try_start
          (record { make_container = make; get_scheduler = get; start_scheduler = launch }) in
      o.result ≡ ok tt → o.made ≡ 1
unfolding try_start
made_by (ok u) get launch h = refl
made_by (err x) get launch h = cc

try_start-made : (a : Attempt) → (try_start a).result ≡ ok tt → (try_start a).made ≡ 1
try_start-made a h = made_by a.make_container a.get_scheduler a.start_scheduler h

-- The results of attempts that can fail with connection errors alone.
abbrev Expected : Result (Unit {0}) → Type 0
Expected r = (r ≡ ok tt) ⊎ (r ≡ err collector_connection_error)

opened_by :
    (a : Attempt) (r : Result (Unit {0}))
    → Expected (try_start a).result
    → r ≡ (try_start a).result
    → kept_open (try_start a) ≡ owed r
unfolding is_connection_error
opened_by a (ok u) x e = ap (λ r. kept_of r (try_start a).made) (sym e) ∙ try_start-made a (sym e)
opened_by a (err y) (inl t) e = absurd (ground arith)
opened_by a (err y) (inr c) e = ap (λ r. kept_of r (try_start a).made) c

module _ {F : Type 0} ⦃f : Floats F⦄ where
  after_start-closes :
      (stopped r : Result (Unit {0})) (s s' : WorkerState F)
      → s'.open_containers ≡ s.open_containers + owed r
      → (after_start stopped (r, s')).1.open_containers ≡ s.open_containers
  unfolding after_start log_worker finally_stop
  after_start-closes stopped (ok u) s s' h = omega arith
  after_start-closes stopped (err e) s s' h = omega arith

module _ {F : Type 0} ⦃f : Floats F⦄ (attempts : ℕ → Attempt)
    (expected : (i : ℕ)
      → ((try_start (attempts i)).result ≡ ok tt)
        ⊎ ((try_start (attempts i)).result ≡ err collector_connection_error)) where
  no_rounds :
      (settings : WorkerSettings F) (n : ℤ) (s : WorkerState F)
      → settings.collector_startup_retry_attempts ≡ n
      → rounds_of n ≡ 0
      → let out = build_and_start_scheduler_with_retry settings attempts s in
        out.1.open_containers ≡ s.open_containers + owed out.0
  unfolding build_and_start_scheduler_with_retry retry_loop
  no_rounds settings n s e z =
      subst
        (λ rounds.
          let out =
            retry_loop attempts settings.collector_startup_retry_attempts
              settings.collector_startup_retry_max_delay_seconds rounds 1
              settings.collector_startup_retry_base_delay_seconds s in
          out.1.open_containers ≡ s.open_containers + owed out.0)
        (sym (ap rounds_of e ∙ z)) (omega arith)

  start-opens :
      (settings : WorkerSettings F) (n : ℤ) (s : WorkerState F)
      → settings.collector_startup_retry_attempts ≡ n
      → let out = build_and_start_scheduler_with_retry settings attempts s in
        out.1.open_containers ≡ s.open_containers + owed out.0
  start-opens settings (pos (suc n)) s e =
      let k =
        build_and_start_scheduler_with_retry-IsRetry attempts
          settings.collector_startup_retry_max_delay_seconds settings n s e refl in
      k.opened ∙ ap (λ m. s.open_containers + m) (opened_by _ _ (expected _) k.result_of)
  start-opens settings (pos zero) s e = no_rounds settings (pos zero) s e refl
  start-opens settings (negsuc n) s e = no_rounds settings (negsuc n) s e refl

  -- If an attempt to start can fail with connection errors alone, a worker closes every container that it has made,
  -- whether it is disabled, gives up, or runs until it is stopped, and however its wait ends.
  pub run_worker-closes :
      (settings : WorkerSettings F) (stopped : Result (Unit {0})) (s : WorkerState F)
      → (run_worker settings attempts stopped s).1.open_containers ≡ s.open_containers
  unfolding run_worker log_worker
  run_worker-closes settings stopped s = elim (Bool-cases settings.collector_scheduler_enabled) [
    | inl on ↦
        subst
          (λ b.
            (if b then after_start stopped started else idle).1.open_containers ≡ s.open_containers)
          (sym on)
          (after_start-closes stopped started.0 s started.1
            (start-opens settings settings.collector_startup_retry_attempts s refl))
    | inr off ↦
        subst
          (λ b.
            (if b then after_start stopped started else idle).1.open_containers ≡ s.open_containers)
          (sym off) refl
  ]
    where
      started : Result (Unit {0}) × WorkerState F
      started = build_and_start_scheduler_with_retry settings attempts s

      idle : Result (Unit {0}) × WorkerState F
      idle = (ok tt, log_worker collector_worker_disabled s)
