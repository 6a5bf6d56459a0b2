-- ===== src/Collector/Worker/Retry.antt =====
-- How the start of collector/worker.py retries, and what it leaves open.
use Prim.Native.Nat.{ℕ, zero, suc}
use mathlib.Core.List.{append_assoc, append-nil}
use pg_monitor.Prelude.{
  ◌+◌, ◌<◌, ◌≤◌, ◌≡◌, refl, sym, ap, subst, ◌∙◌, false, [], ◌∷◌, ◌++◌, leb, take, inl, inr, arith,
  if◌then◌else◌,
}
use pg_monitor.Prelude.Int.{pos}
use pg_monitor.Prelude.Floats.{Floats, min_f}
use pg_monitor.Exn.{Exn, Result, ok, err, collector_connection_error}
use pg_monitor.Collector.Worker.Attempts.{
  after_ok, after_other, after_connection_error, plus_zero, zero_plus, leb-true, leb-false,
  result_cases, backoff, kept_of, kept_open,
}
use pg_monitor.Collector.Worker.{
  WorkerSettings, Attempt, WorkerState, Outcome, try_start, is_connection_error, rounds_of,
  collector_scheduler_startup_failed, collector_scheduler_start_retry, log_worker, sleep,
  after_attempt, retry_loop, build_and_start_scheduler_with_retry,
}

module _ {F : Type 0} ⦃f : Floats F⦄ (attempts : ℕ → Attempt) (max_delay : F) where
  -- Of a start from attempt `attempt` on, with `retries` attempts after that one: `k` attempts end with a connection
  -- error and are followed by the delays of the backoff; the result is that of the next attempt, and it is a connection
  -- error only if no attempts are left. Only the container of that attempt may stay open.
  pub record IsRetry (retries attempt : ℕ) (delay : F) (s : WorkerState F) (r : Result (Unit {0}))
      (s' : WorkerState F) : Type 0 where
    pub k : ℕ
    pub within : k ≤ retries
    pub failed :
        (i : ℕ)
        → i < k
        → (try_start (attempts (i + attempt))).result ≡ err collector_connection_error
    pub result_of : r ≡ (try_start (attempts (k + attempt))).result
    pub given_up : r ≡ err collector_connection_error → k ≡ retries
    pub delays : s'.slept ≡ s.slept ++ take k (backoff max_delay retries delay)
    pub opened :
        s'.open_containers ≡ s.open_containers + kept_open (try_start (attempts (k + attempt)))

  module _ (n : ℕ) where
    run_from : ℕ → ℕ → F → WorkerState F → Result (Unit {0}) × WorkerState F
    run_from retries attempt delay s =
        retry_loop attempts (pos n) max_delay (suc retries) attempt delay s

    abbrev one : ℕ → Outcome
    one attempt = try_start (attempts attempt)

    abbrev after_retry : ℕ → F → WorkerState F → WorkerState F
    after_retry attempt delay s =
        sleep delay (log_worker (collector_scheduler_start_retry attempt delay) s)

    final :
        (retries attempt : ℕ) (delay : F) (s s' : WorkerState F) (r : Result (Unit {0}))
        → r ≡ (one attempt).result
        → (r ≡ err collector_connection_error → 0 ≡ retries)
        → s'.slept ≡ s.slept
        → s'.open_containers ≡ s.open_containers + kept_open (one attempt)
        → IsRetry retries attempt delay s r s'
    final retries attempt delay s s' r h g d o = record {
      k = 0;
      within = omega arith;
      failed = λ i lt. absurd (omega arith);
      result_of = h ∙ ap (λ a. (one a).result) (sym (zero_plus attempt));
      given_up = g;
      delays = d ∙ sym (append-nil s.slept);
      opened = o ∙ ap (λ a. s.open_containers + kept_open (one a)) (sym (zero_plus attempt));
    }

    retried :
        (retries attempt : ℕ) (delay : F) (s : WorkerState F)
        (out : Result (Unit {0}) × WorkerState F)
        → (one attempt).result ≡ err collector_connection_error
        → IsRetry retries
            (suc attempt)
            (min_f (f.double delay) max_delay)
            (after_retry attempt delay s)
            out.0
            out.1
        → IsRetry (suc retries) attempt delay s out.0 out.1
    unfolding sleep log_worker
    retried retries attempt delay s out h ih = record {
      k = suc ih.k;
      within = let w = ih.within in omega arith;
      failed = λ i lt. failed_from i lt;
      result_of = ih.result_of ∙ ap (λ a. (one a).result) (shift ih.k);
      given_up = λ e. ap suc (ih.given_up e);
      delays = ih.delays ∙ append_assoc s.slept (delay ∷ []) _;
      opened = ih.opened ∙ ap (λ a. s.open_containers + kept_open (one a)) (shift ih.k);
    }
      where
        shift : (i : ℕ) → i + suc attempt ≡ suc i + attempt
        shift i = omega arith

        failed_from :
            (i : ℕ) → i < suc ih.k → (one (i + attempt)).result ≡ err collector_connection_error
        failed_from zero lt = ap (λ a. (one a).result) (zero_plus attempt) ∙ h
        failed_from (suc i) lt =
            sym (ap (λ a. (one a).result) (shift i)) ∙ ih.failed i (omega arith)

    later : ℕ → ℕ → F → WorkerState F → Result (Unit {0}) × WorkerState F
    later rounds attempt delay s =
        retry_loop attempts (pos n) max_delay rounds (suc attempt)
          (min_f (f.double delay) max_delay) (after_retry attempt delay s)

    run_from_step :
        (retries attempt : ℕ) (delay : F) (s : WorkerState F)
        → run_from retries attempt delay s
          ≡ after_attempt (leb n attempt) (one attempt) s (later retries attempt delay s)
    unfolding run_from later retry_loop
    run_from_step retries attempt delay s = refl

    run_from-ok :
        (retries attempt : ℕ) (delay : F) (s : WorkerState F)
        → (one attempt).result ≡ ok tt
        → let out = run_from retries attempt delay s in IsRetry retries attempt delay s out.0 out.1
    run_from-ok retries attempt delay s h =
        subst (λ out. IsRetry retries attempt delay s out.0 out.1)
          (sym (
            run_from_step retries attempt delay s
            ∙ after_ok (leb n attempt) (one attempt) s (later retries attempt delay s) h))
          (final retries attempt delay s _ (ok tt) (sym h) (λ e. cc) refl
            (ap (λ r. s.open_containers + kept_of r (one attempt).made) (sym h)))

    run_from-other :
        (retries attempt : ℕ) (delay : F) (s : WorkerState F) (e : Exn)
        → is_connection_error e ≡ false
        → (one attempt).result ≡ err e
        → let out = run_from retries attempt delay s in IsRetry retries attempt delay s out.0 out.1
    unfolding is_connection_error
    run_from-other retries attempt delay s e other h =
        subst (λ out. IsRetry retries attempt delay s out.0 out.1)
          (sym (
            run_from_step retries attempt delay s
            ∙ after_other (leb n attempt) (one attempt) s (later retries attempt delay s) e other
                h))
          (final retries attempt delay s _ (err e) (sym h) (λ c. ground arith) refl
            (sym (ap (λ b. s.open_containers + (if b then 0 else (one attempt).made)) other)
              ∙ ap (λ r. s.open_containers + kept_of r (one attempt).made) (sym h)))

    run_from-last :
        (attempt : ℕ) (delay : F) (s : WorkerState F)
        → (one attempt).result ≡ err collector_connection_error
        → n ≤ attempt
        → let out = run_from 0 attempt delay s in IsRetry 0 attempt delay s out.0 out.1
    unfolding log_worker is_connection_error
    run_from-last attempt delay s h last =
        subst (λ out. IsRetry 0 attempt delay s out.0 out.1)
          (sym (
            run_from_step 0 attempt delay s
            ∙ (after_connection_error (leb n attempt) (one attempt) s (later 0 attempt delay s) h
                ∙ ap
                    (λ b.
                      if b
                      then (
                        err collector_connection_error,
                        log_worker collector_scheduler_startup_failed s,
                      )
                      else later 0 attempt delay s)
                    (leb-true n attempt last))))
          (final 0 attempt delay s _ (err collector_connection_error) (sym h) (λ e. refl) refl
            (plus_zero s.open_containers
              ∙ ap (λ r. s.open_containers + kept_of r (one attempt).made) (sym h)))

    run_from_retry :
        (m attempt : ℕ) (delay : F) (s : WorkerState F)
        → (one attempt).result ≡ err collector_connection_error
        → attempt < n
        → run_from (suc m) attempt delay s
          ≡ run_from m
              (suc attempt)
              (min_f (f.double delay) max_delay)
              (after_retry attempt delay s)
    unfolding later run_from
    run_from_retry m attempt delay s h more =
        run_from_step (suc m) attempt delay s
        ∙ (after_connection_error (leb n attempt) (one attempt) s (later (suc m) attempt delay s) h
            ∙ ap
                (λ b.
                  if b
                  then (
                    err collector_connection_error,
                    log_worker collector_scheduler_startup_failed s,
                  )
                  else later (suc m) attempt delay s)
                (leb-false n attempt more))

    run_from-IsRetry :
        (retries attempt : ℕ) (delay : F) (s : WorkerState F)
        → retries + attempt ≡ n
        → let out = run_from retries attempt delay s in IsRetry retries attempt delay s out.0 out.1
    run_from-IsRetry zero attempt delay s e = elim (result_cases (one attempt).result) [
      | inl h ↦ run_from-ok 0 attempt delay s h
      | inr (inl h) ↦ run_from-last attempt delay s h (omega arith)
      | inr (inr (x, other, h)) ↦ run_from-other 0 attempt delay s x other h
    ]
    run_from-IsRetry (suc m) attempt delay s e = elim (result_cases (one attempt).result) [
      | inl h ↦ run_from-ok (suc m) attempt delay s h
      | inr (inl h) ↦
          subst (λ out. IsRetry (suc m) attempt delay s out.0 out.1)
            (sym (run_from_retry m attempt delay s h (omega arith)))
            (retried m attempt delay s _ h (
              run_from-IsRetry m (suc attempt) (min_f (f.double delay) max_delay)
                (after_retry attempt delay s) (omega arith)))
      | inr (inr (x, other, h)) ↦ run_from-other (suc m) attempt delay s x other h
    ]

  -- A start with a positive number of attempts ends with the result of one of them: those before it ended with a
  -- CollectorConnectionError and were followed by the delays of a doubling backoff, each but the first at most the
  -- maximum; it raises a CollectorConnectionError only after all attempts; and the only container that stays open is
  -- that of the last attempt made, if that attempt succeeded or raised another error.
  pub build_and_start_scheduler_with_retry-IsRetry :
      (settings : WorkerSettings F) (retries : ℕ) (s : WorkerState F)
      → settings.collector_startup_retry_attempts ≡ pos (suc retries)
      → settings.collector_startup_retry_max_delay_seconds ≡ max_delay
      → let out = build_and_start_scheduler_with_retry settings attempts s in
        IsRetry retries 1 settings.collector_startup_retry_base_delay_seconds s out.0 out.1
  unfolding build_and_start_scheduler_with_retry run_from
  build_and_start_scheduler_with_retry-IsRetry settings retries s e d =
      let base = settings.collector_startup_retry_base_delay_seconds in
      subst
        (λ n.
          let out =
            retry_loop attempts n settings.collector_startup_retry_max_delay_seconds (rounds_of n) 1
              base s in
          IsRetry retries 1 base s out.0 out.1)
        (sym e)
        (subst
          (λ m.
            let out = retry_loop attempts (pos (suc retries)) m (suc retries) 1 base s in
            IsRetry retries 1 base s out.0 out.1)
          (sym d) (run_from-IsRetry (suc retries) retries 1 base s (omega arith)))
