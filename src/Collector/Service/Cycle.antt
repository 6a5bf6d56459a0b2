-- ===== src/Collector/Service/Cycle.antt =====
-- What every cycle of collector/service.py does, whatever its body does.
use pg_monitor.Prelude.{
  ◌≡◌, refl, inl, inr, Bool-cases, String, true, some, List, [], ◌∷◌, ◌++◌, arith, if◌then◌else◌,
}
use mathlib.Core.List.{append_assoc}
use pg_monitor.Exn.{
  Exn, Result, ok, err, collector_query_error, is_collector_error, is_exception, ◌>>=◌,
}
use pg_monitor.Collector.Context.{
  Profile, Event, Entry, Context, collector_cycle_started, collector_cycle_succeeded,
  collector_cycle_failed, log_event, set_poll_cycle_id, reset_poll_cycle_id,
}
use pg_monitor.Collector.Service.{end_cycle, db_of, run_cycle}

abbrev entry : String → Event → Entry
entry uuid e = record { event = e; poll_cycle_id = some uuid }

-- The error that a caller of a cycle sees: a CollectorError as it is, any other Exception as a CollectorQueryError,
-- and a cancellation as it is.
abbrev pub seen : Exn → Exn
seen e = if is_collector_error e then e else if is_exception e then collector_query_error else e

abbrev pub seen_result : {A : Type 0} → Result A → Result A
seen_result (ok a) = ok a
seen_result (err e) = err (seen e)

-- The entries at the end of a cycle: one, unless the cycle was cancelled.
abbrev pub end_entries : {A : Type 0} → Profile → String → String → Result A → List Entry
end_entries profile uuid db (ok a) = entry uuid (collector_cycle_succeeded profile db) ∷ []
end_entries profile uuid db (err e) =
    if is_exception (seen e)
    then entry uuid (collector_cycle_failed profile db (seen e)) ∷ []
    else []

is_exception-of_collector_error : (e : Exn) → is_collector_error e ≡ true → is_exception e ≡ true
is_exception-of_collector_error e h = ground arith

module _ {A : Type 0} where
  -- What a cycle leaves: `r` is the result of its body.
  pub record IsCycle (profile : Profile) (uuid db : String) (r r' : Result A) (c c' : Context)
      : Type 0 where
    pub result_seen : r' ≡ seen_result r
    pub id_restored : c'.poll_cycle_id ≡ c.poll_cycle_id
    pub logged :
        c'.log
        ≡ c.log ++ entry uuid (collector_cycle_started profile) ∷ end_entries profile uuid db r

  end_cycle-IsCycle :
      (profile : Profile) (uuid db : String) (r : Result A) (c : Context)
      → let (token, c') = set_poll_cycle_id (some uuid) c in
        let out = end_cycle profile token r db (log_event (collector_cycle_started profile) c') in
        IsCycle profile uuid db r out.0 c out.1
  unfolding end_cycle log_event set_poll_cycle_id reset_poll_cycle_id
  end_cycle-IsCycle profile uuid db (ok a) c = record {
    result_seen = refl;
    id_restored = refl;
    logged = append_assoc c.log _ _;
  }
  end_cycle-IsCycle profile uuid db (err e) c = elim (Bool-cases (is_collector_error e)) [
    | inl t ↦
        rw (t, seen, end_entries)
          (record {
            result_seen = rw t;
            id_restored = refl;
            logged = rw (t, is_exception-of_collector_error e t) (append_assoc c.log _ _);
          })
    | inr f ↦ elim (Bool-cases (is_exception e)) [
      | inl t ↦
          rw (f, t)
            (record {
              result_seen = rw (f, t);
              id_restored = refl;
              logged = rw (f, t) (append_assoc c.log _ _);
            })
      | inr n ↦
          rw (f, n) (record { result_seen = rw (f, n); id_restored = refl; logged = rw (f, n, n) })
    ]
  ]

  -- Whatever a cycle's repository and body do, the cycle ends as `seen_result` says: only a CollectorError or a
  -- cancellation leaves it, `poll_cycle_id` is what it was before, and the log has grown by the entry of the start and,
  -- unless the cycle was cancelled, one entry of the end, both with the identifier of the cycle.
  pub run_cycle-IsCycle :
      (profile : Profile) (uuid : String) (identifier : Result String) (body : String → Result A)
      (c : Context)
      → let out = run_cycle profile uuid identifier body c in
        IsCycle profile uuid (db_of identifier) (identifier >>= body) out.0 c out.1
  unfolding run_cycle
  run_cycle-IsCycle profile uuid identifier body c =
      end_cycle-IsCycle profile uuid (db_of identifier) (identifier >>= body) c
