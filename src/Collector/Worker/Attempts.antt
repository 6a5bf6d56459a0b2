-- ===== src/Collector/Worker/Attempts.antt =====
-- How one attempt to start ends (collector/worker.py), and the delays between attempts.
use Prim.Native.Nat.{ℕ, zero, suc}
use pg_monitor.Prelude.{
  ◌+◌, ◌<◌, ◌≤◌, ◌≡◌, refl, sym, ap, subst, Bool, Bool-cases, true, false, List, [], ◌∷◌, leb, ◌⊎◌,
  inl, inr, arith, if◌then◌else◌,
}
use pg_monitor.Prelude.Floats.{Floats, min_f}
use pg_monitor.Exn.{Exn, Result, ok, err, collector_connection_error}
use pg_monitor.Collector.Worker.{
  WorkerState, Outcome, is_connection_error, collector_scheduler_startup_failed, log_worker,
  after_attempt,
}

module _ {F : Type 0} (last : Bool) (o : Outcome) (s : WorkerState F)
    (rest : Result (Unit {0}) × WorkerState F) where
  abbrev with_result : Result (Unit {0}) → Outcome
  with_result r = record o { result = r }

  pub after_ok :
      o.result ≡ ok tt
      → after_attempt last o s rest
        ≡ (ok tt, record s { open_containers = s.open_containers + o.made; running = true })
  unfolding after_attempt
  after_ok e =
      subst
        (λ r.
          after_attempt last (with_result r) s rest
          ≡ (ok tt, record s { open_containers = s.open_containers + o.made; running = true }))
        (sym e) refl

  pub after_other :
      (e : Exn)
      → is_connection_error e ≡ false
      → o.result ≡ err e
      → after_attempt last o s rest
        ≡ (err e, record s { open_containers = s.open_containers + o.made })
  unfolding after_attempt
  after_other e f h =
      subst
        (λ r.
          after_attempt last (with_result r) s rest
          ≡ (err e, record s { open_containers = s.open_containers + o.made }))
        (sym h) (rw f refl)

  pub after_connection_error :
      o.result ≡ err collector_connection_error
      → after_attempt last o s rest ≡ (
          if last
          then (err collector_connection_error, log_worker collector_scheduler_startup_failed s)
          else rest)
  unfolding after_attempt
  after_connection_error h =
      subst
        (λ r. after_attempt last (with_result r) s rest ≡ (
          if last
          then (err collector_connection_error, log_worker collector_scheduler_startup_failed s)
          else rest))
        (sym h) refl

connection_error_eq : (e : Exn) → is_connection_error e ≡ true → e ≡ collector_connection_error
unfolding is_connection_error
connection_error_eq e h = ground arith

module _ {F : Type 0} ⦃f : Floats F⦄ (max_delay : F) where
  -- The first `n` delays from `delay` on: each is twice the one before, or the maximum if that is less.
  abbrev pub backoff : ℕ → F → List F
  backoff zero delay = []
  backoff (suc n) delay = delay ∷ backoff n (min_f (f.double delay) max_delay)

-- The containers that stay open after an attempt whose result is final.
abbrev pub kept_of : Result (Unit {0}) → ℕ → ℕ
kept_of (ok started) made = made
kept_of (err e) made = if is_connection_error e then 0 else made

abbrev pub kept_open : Outcome → ℕ
kept_open o = kept_of o.result o.made

pub plus_zero : (n : ℕ) → n ≡ n + 0
plus_zero n = omega arith

pub leb-true : (n m : ℕ) → n ≤ m → leb n m ≡ true
leb-true n m h = ground arith

pub leb-false : (n m : ℕ) → m < n → leb n m ≡ false
leb-false n m h = ground arith

pub result_cases :
    (r : Result (Unit {0}))
    → (r ≡ ok tt)
      ⊎ (r ≡ err collector_connection_error)
      ⊎ ((e : Exn) × (is_connection_error e ≡ false) × (r ≡ err e))
result_cases (ok u) = inl refl
result_cases (err e) = elim (Bool-cases (is_connection_error e)) [
  | inl t ↦ inr (inl (ap err (connection_error_eq e t)))
  | inr f ↦ inr (inr (e, f, refl))
]

pub zero_plus : (n : ℕ) → 0 + n ≡ n
zero_plus n = omega arith
