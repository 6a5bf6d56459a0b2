-- ===== src/Metrics/Exporter/Bounds.antt =====
-- The bound of the gauges that are measured in seconds.
use pg_monitor.Prelude.{
  ℕ, ◌≡◌, refl, subst, String, some, List, [], ◌∷◌, true, All, All-append, Bool-cases, inl, inr,
}
use pg_monitor.Prelude.Int.{sub_ℕ}
use pg_monitor.Prelude.Eq.{String_eq, Pair_eq, List_eq}
use pg_monitor.Prelude.Dict.{get}
use pg_monitor.Prelude.Dict.Entries.{put_entries-All}
use pg_monitor.Prelude.Floats.{Floats}
use pg_monitor.Metrics.Models.{RuntimeDatabaseMetrics, RuntimeMetricsState, Numbers}
use pg_monitor.Metrics.Gauges.{snapshot_age, SampleKey, Gauge_eq}
use pg_monitor.Metrics.Exporter.{max_zero, age_seconds, set_states}
use pg_monitor.Metrics.Exporter.Entries.{
  server_value, Entry, server_entries, database_entries, databases_entries, state_entries, entries,
  set_states-entries,
}

module _ {F : Type 0} ⦃f : Floats F⦄ where
  pub max_zero-bounds : (a : F) → f.le f.zero_f (max_zero a) ≡ true
  unfolding max_zero
  max_zero-bounds a = elim (Bool-cases (f.le f.zero_f a)) [
    | inl t ↦ rw t t
    | inr g ↦ rw g (elim (Bool-cases (f.le f.zero_f f.zero_f)) [
      | inl e ↦ e
      | inr e ↦ f.le-IsPreorder.total f.zero_f f.zero_f e
    ])
  ]

-- A value of the gauge of ages is not below zero.
abbrev AgeBound : {F : Type 0} → ⦃f : Floats F⦄ → SampleKey → F → Type 0
AgeBound ⦃f⦄ k v = k.0 ≡ snapshot_age → f.le f.zero_f v ≡ true

module _ (F : Type 0) ⦃f : Floats F⦄ ⦃n : Numbers F⦄ where
  databases_bounds :
      (db_identifier : String) (dbs : List RuntimeDatabaseMetrics)
      → All (λ (x : Entry F). AgeBound x.0 x.1) (databases_entries db_identifier dbs)
  databases_bounds db_identifier [] = tt
  databases_bounds db_identifier (db ∷ dbs) =
      All-append _ (database_entries db_identifier db) (databases_entries db_identifier dbs)
        (λ e. cc, (λ e. cc, (λ e. cc, (λ e. cc, (λ e. cc, (λ e. cc, tt))))))
        (databases_bounds db_identifier dbs)

module _ {F : Type 0} ⦃f : Floats F⦄ ⦃n : Numbers F⦄ (observed_at : ℕ) where
  states_bounds :
      (states : List (RuntimeMetricsState F))
      → All (λ x. AgeBound x.0 x.1) (entries observed_at states)
  unfolding server_value age_seconds
  states_bounds [] = tt
  states_bounds (state ∷ states) =
      All-append _ (state_entries observed_at state) (entries observed_at states)
        (All-append _ (server_entries observed_at state)
          (databases_entries state.db_identifier state.database)
          (
            λ e. cc,
            (
              λ e. cc,
              (
                λ e. cc,
                (
                  λ e. cc,
                  (
                    λ e. cc,
                    (
                      λ e. max_zero-bounds (n.total_seconds (sub_ℕ observed_at state.captured_at)),
                      tt,
                    ),
                  ),
                ),
              ),
            ),
          )
          (databases_bounds F state.db_identifier state.database))
        (states_bounds states)

  -- Whatever the times of the snapshots, a clock that stands behind them included, no sample of the age of a snapshot
  -- is below zero.
  pub snapshot_age-bounds :
      (states : List (RuntimeMetricsState F)) (labels : List String) (age : F)
      → get (set_states observed_at states []) (snapshot_age, labels) ≡ some age
      → f.le f.zero_f age ≡ true
  unfolding get
  snapshot_age-bounds states labels age h =
      put_entries-All AgeBound (entries observed_at states) [] (states_bounds states) (λ k v e. cc)
        (snapshot_age, labels) age
        (subst (λ d. get d (snapshot_age, labels) ≡ some age)
          (set_states-entries observed_at states []) h)
        refl
