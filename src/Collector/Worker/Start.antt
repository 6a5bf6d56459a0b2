-- ===== src/Collector/Worker/Start.antt =====
-- When the worker of collector/worker.py gets to its wait for the stop event.
use Prim.Native.Nat.{ℕ, zero, suc}
use pg_monitor.Prelude.{
  ◌+◌, ◌<◌, ◌≤◌, ◌≡◌, ◌⊎◌, refl, sym, ap, ◌∙◌, inl, inr, true, [], ◌∷◌, ◌++◌, Elem, Elem-append,
  arith,
}
use pg_monitor.Prelude.Int.{ℤ, pos, negsuc}
use pg_monitor.Prelude.Floats.{Floats}
use pg_monitor.Exn.{Result, ok, err, collector_connection_error}
use pg_monitor.Collector.Worker.{
  WorkerSettings, Attempt, collector_worker_started, collector_worker_stopped, WorkerState,
  try_start, rounds_of, log_worker, finally_stop, after_start, build_and_start_scheduler_with_retry,
  run_worker,
}
use pg_monitor.Collector.Worker.Retry.{IsRetry, build_and_start_scheduler_with_retry-IsRetry}

compare_cases : (a b : ℕ) → (a < b) ⊎ (a ≡ b) ⊎ (b < a)
compare_cases a b = ground arith

not_both : ◌≡◌ {A = Result (Unit {0})} (err collector_connection_error) (ok tt) → ⊥
not_both e = cc

module _ {F : Type 0} ⦃f : Floats F⦄ (attempts : ℕ → Attempt) (max_delay : F) where
  -- The retries end with the first attempt that works, if it is one of them and connection errors come before it.
  IsRetry-ok :
      (retries : ℕ) (delay : F) (s : WorkerState F) (r : Result (Unit {0})) (s' : WorkerState F)
      (j : ℕ)
      → IsRetry attempts max_delay retries 1 delay s r s'
      → j ≤ retries
      → ((i : ℕ) → i < j → (try_start (attempts (i + 1))).result ≡ err collector_connection_error)
      → (try_start (attempts (j + 1))).result ≡ ok tt
      → r ≡ ok tt
  IsRetry-ok retries delay s r s' j R within failed works = elim (compare_cases R.k j) [
    | inl earlier ↦
        let refused = R.result_of ∙ failed R.k earlier in
        let all = R.given_up refused in absurd (omega arith)
    | inr (inl same) ↦ R.result_of ∙ ap (λ k. (try_start (attempts (k + 1))).result) same ∙ works
    | inr (inr later) ↦ absurd (not_both (sym (R.failed j later) ∙ works))
  ]

positive_rounds :
    (n : ℤ) (j : ℕ) → j < rounds_of n → (retries : ℕ) × (n ≡ pos (suc retries)) × (j ≤ retries)
positive_rounds (pos zero) j h = absurd (omega arith)
positive_rounds (pos (suc n)) j h = (n, refl, omega arith)
positive_rounds (negsuc n) j h = absurd (omega arith)

module _ {F : Type 0} ⦃f : Floats F⦄ where
  waits :
      (r : Result (Unit {0})) (s : WorkerState F) (stopped : Result (Unit {0}))
      → r ≡ ok tt
      → let out = after_start stopped (r, s) in
        (out.0 ≡ stopped) × Elem collector_worker_started out.1.log
  unfolding after_start finally_stop log_worker
  waits (ok u) s stopped e = (
    refl,
    Elem-append collector_worker_started (s.log ++ collector_worker_started ∷ [])
        (collector_worker_stopped ∷ [])
        (inl (
          Elem-append collector_worker_started s.log (collector_worker_started ∷ [])
            (inr (inl refl)))),
  )
  waits (err x) s stopped e = absurd (cc)

  -- If the server can be reached within the attempts of the settings, that is if one of these attempts works and those
  -- before it fail with connection errors, then a worker that is enabled starts, logs that it did, and ends the way
  -- its wait for the stop event ends.
  pub run_worker-starts :
      (settings : WorkerSettings F) (attempts : ℕ → Attempt) (j : ℕ) (stopped : Result (Unit {0}))
      (s : WorkerState F)
      → settings.collector_scheduler_enabled ≡ true
      → j < rounds_of settings.collector_startup_retry_attempts
      → ((i : ℕ) → i < j → (try_start (attempts (i + 1))).result ≡ err collector_connection_error)
      → (try_start (attempts (j + 1))).result ≡ ok tt
      → let out = run_worker settings attempts stopped s in
        (out.0 ≡ stopped) × Elem collector_worker_started out.1.log
  unfolding run_worker
  run_worker-starts settings attempts j stopped s enabled within failed works =
      let (retries, n, j_within) =
        positive_rounds settings.collector_startup_retry_attempts j within in
      let max_delay = settings.collector_startup_retry_max_delay_seconds in
      let out = build_and_start_scheduler_with_retry settings attempts s in
      let started =
        IsRetry-ok attempts max_delay retries settings.collector_startup_retry_base_delay_seconds s
          out.0 out.1 j
          (build_and_start_scheduler_with_retry-IsRetry attempts max_delay settings retries s n
            refl)
          j_within failed works in
      rw enabled (waits out.0 out.1 stopped started)
