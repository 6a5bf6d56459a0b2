-- ===== src/Collector/Scheduler/Lifecycle.antt =====
-- The life of a CollectorScheduler (collector/scheduler.py): any order of start, shutdown and other work.
use pg_monitor.Prelude.{
  ◌≡◌, refl, sym, ap, ◌∙◌, String, Bool, Bool-cases, inl, inr, true, false, Option, none, some,
  List, [], ◌∷◌, ◌++◌, if◌then◌else◌,
}
use pg_monitor.Prelude.Eq.{String_eq}
use pg_monitor.Prelude.Dict.{has}
use pg_monitor.Exn.{Result, ok, err}
use pg_monitor.Collector.Jobs.{World}
use pg_monitor.Collector.Scheduler.{
  Intervals, SchedulerCall, add_job, start_scheduler, shutdown_scheduler, remove_all_jobs,
  CollectorScheduler, start_calls, preflight_dependencies, finish_start, start, shutdown,
}
use pg_monitor.Storage.Queries.Latest.{Collation}

-- What APScheduler holds: whether it runs, and the ids of its jobs.
pub record Held : Type 0 where
  pub runs : Bool
  pub jobs : List String

-- The calls in the order that APScheduler's documentation allows; `none` is an error. It is not started twice, not shut
-- down while it does not run, and does not get two jobs with one id.
abbrev pub obey : SchedulerCall → Held → Option Held
obey (add_job id seconds) h = if has h.jobs id then none else some (record h { jobs = id ∷ h.jobs })
obey start_scheduler h = if h.runs then none else some (record h { runs = true })
obey shutdown_scheduler h = if h.runs then some (record h { runs = false }) else none
obey remove_all_jobs h = some (record h { jobs = [] })

abbrev pub and_then : Option Held → (Held → Option Held) → Option Held
and_then none f = none
and_then (some h) f = f h

abbrev pub replay : List SchedulerCall → Held → Option Held
replay [] h = some h
replay (call ∷ calls) h = and_then (obey call h) (replay calls)

and_then_assoc :
    (o : Option Held) (f g k : Held → Option Held)
    → ((h : Held) → f h ≡ and_then (g h) k)
    → and_then o f ≡ and_then (and_then o g) k
and_then_assoc none f g k e = refl
and_then_assoc (some h) f g k e = e h

replay-append :
    (calls more : List SchedulerCall) (h : Held)
    → replay (calls ++ more) h ≡ and_then (replay calls h) (replay more)
replay-append [] more h = refl
replay-append (call ∷ calls) more h =
    and_then_assoc (obey call h) (replay (calls ++ more)) (replay calls) (replay more)
      (replay-append calls more)

abbrev pub idle : Held
idle = record { runs = false; jobs = [] }

-- What APScheduler is to hold for a scheduler that is started or not.
abbrev pub held_by : Bool → Held
held_by true = record { runs = true; jobs = "collector_queries" ∷ "collector_runtime" ∷ [] }
held_by false = idle

-- APScheduler has accepted every call, and holds what `started` says.
abbrev pub InStep : CollectorScheduler → Type 0
InStep self = replay self.calls idle ≡ some (held_by self.started)

-- What a scheduler comes to, from its constructor on: starts with any answer to the ping, shutdowns, and other work on
-- the world in between.
pub data Reaches {F : Type 0} ⦃c : Collation⦄ : CollectorScheduler → World F → Type 0 where
  made :
      (settings : Intervals) (w : World F)
      → Reaches (record { settings = settings; started = false; calls = [] }) w
  started :
      {self : CollectorScheduler} {w : World F} (ping : Result (Unit {0}))
      → Reaches self w
      → Reaches (start ping self w).1 (start ping self w).2
  stopped :
      {self : CollectorScheduler} {w : World F}
      → Reaches self w
      → Reaches (shutdown self w).0 (shutdown self w).1
  worked :
      {self : CollectorScheduler} {w : World F} (w' : World F) → Reaches self w → Reaches self w'

held :
    (self : CollectorScheduler) {b : Bool}
    → self.started ≡ b
    → InStep self
    → replay self.calls idle ≡ some (held_by b)
held self e h = h ∙ ap (λ b. some (held_by b)) e

module _ {F : Type 0} where
  finish_start-InStep :
      ⦃c : Collation⦄ (self : CollectorScheduler) (r : Result (Unit {0})) (w : World F)
      → self.started ≡ false
      → InStep self
      → InStep (finish_start self (r, w)).1
  unfolding finish_start has
  finish_start-InStep self (err e) w off h = h
  finish_start-InStep self (ok passed) w off h =
      replay-append self.calls (start_calls self.settings) idle ∙ rw (held self off h)

  shutdown-InStep :
      (self : CollectorScheduler) (w : World F) → InStep self → InStep (shutdown self w).0
  unfolding shutdown
  shutdown-InStep self w h = elim (Bool-cases self.started) [
    | inl t ↦ rw t (replay-append self.calls _ idle ∙ rw (held self t h))
    | inr f ↦ rw f (held self f h)
  ]

  module _ ⦃c : Collation⦄ where
    start-InStep :
        (ping : Result (Unit {0})) (self : CollectorScheduler) (w : World F)
        → InStep self
        → InStep (start ping self w).1
    unfolding start
    start-InStep ping self w h = go self.started refl
      where
        next : Result (Unit {0}) × CollectorScheduler × World F
        next = finish_start self (preflight_dependencies ping w)

        go : (b : Bool) → b ≡ self.started → InStep (if b then (ok tt, self, w) else next).1
        go true e = h
        go false e =
            finish_start-InStep self (preflight_dependencies ping w).0
              (preflight_dependencies ping w).1 (sym e) h

    -- In whatever order a scheduler is started and shut down, and whether or not its checks pass, APScheduler gets calls
    -- that it accepts, and runs, with one job of each kind, exactly while the scheduler is started.
    pub Reaches-InStep : {self : CollectorScheduler} {w : World F} → Reaches self w → InStep self
    Reaches-InStep (made settings w) = refl
    Reaches-InStep (started {self} {w} ping before) =
        start-InStep ping self w (Reaches-InStep before)
    Reaches-InStep (stopped {self} {w} before) = shutdown-InStep self w (Reaches-InStep before)
    Reaches-InStep (worked w' before) = Reaches-InStep before
