-- ===== src/Metrics/Exporter/Values.antt =====
-- The samples after all states are set.
use pg_monitor.Prelude.{
  ℕ, ◌≡◌, ◌≢◌, sym, ap, ◌∙◌, subst, ◌⊎◌, inl, inr, String, some, List, [], ◌∷◌, All, All-append,
  All-map, Elem, Elem-append, Elem-map, Distinct, Distinct-Elem,
}
use pg_monitor.Prelude.Eq.{String_eq, Pair_eq, List_eq}
use pg_monitor.Prelude.Dict.{get}
use pg_monitor.Prelude.Dict.Entries.{get-put_entries}
use pg_monitor.Prelude.Floats.{Floats}
use pg_monitor.Metrics.Models.{RuntimeDatabaseMetrics, RuntimeMetricsState, Numbers}
use pg_monitor.Metrics.Gauges.{Gauge, SampleKey, Gauge_eq}
use pg_monitor.Metrics.Exporter.{set_states}
use pg_monitor.Metrics.Exporter.Entries.{
  server_value, database_value, server_gauges, database_gauges, Entry, server_entry, database_entry,
  server_entries, database_entries, databases_entries, state_entries, entries, set_states-entries,
}

head_eq : {a b : String} {xs ys : List String} → a ∷ xs ≡ b ∷ ys → a ≡ b
head_eq e = cc

second_eq : {a b c d : String} → a ∷ b ∷ [] ≡ c ∷ d ∷ [] → b ≡ d
second_eq e = cc

-- An entry of the key gives it the value.
abbrev Gives : {F : Type 0} → SampleKey → F → Entry F → Type 0
Gives k v x = x.0 ≡ k → x.1 ≡ v

module _ {F : Type 0} ⦃f : Floats F⦄ ⦃n : Numbers F⦄ where
  server_in_databases :
      (g : Gauge) (a b : String) (v : F) (dbs : List RuntimeDatabaseMetrics)
      → All (Gives (g, a ∷ []) v) (databases_entries b dbs)
  server_in_databases g a b v [] = tt
  server_in_databases g a b v (db ∷ dbs) =
      All-append _ (database_entries b db) (databases_entries b dbs)
        (All-map (database_entry b db) (Gives (g, a ∷ []) v) database_gauges
          (λ h e. absurd (longer (ap (λ k. k.1) e))))
        (server_in_databases g a b v dbs)
    where
      longer : b ∷ db.datname ∷ [] ≡ a ∷ [] → ⊥
      longer e = cc

module _ (F : Type 0) ⦃f : Floats F⦄ ⦃n : Numbers F⦄ where
  database_in_databases :
      (g : Gauge) (a b : String) (db : RuntimeDatabaseMetrics) (dbs : List RuntimeDatabaseMetrics)
      → (b ≢ a) ⊎ All (λ y. (y ≡ db) ⊎ (y.datname ≢ db.datname)) dbs
      → All (Gives {F = F} (g, a ∷ db.datname ∷ []) (database_value db g)) (databases_entries b dbs)
  database_in_databases g a b db [] h = tt
  database_in_databases g a b db (y ∷ dbs) h =
      All-append _ (database_entries b y) (databases_entries b dbs)
        (All-map (database_entry {F = F} b y) (Gives (g, a ∷ db.datname ∷ []) (database_value db g))
          database_gauges (here h))
        (database_in_databases g a b db dbs (rest h))
    where
      rest :
          (b ≢ a) ⊎ All (λ y. (y ≡ db) ⊎ (y.datname ≢ db.datname)) (y ∷ dbs)
          → (b ≢ a) ⊎ All (λ y. (y ≡ db) ⊎ (y.datname ≢ db.datname)) dbs
      rest (inl other) = inl other
      rest (inr all) = inr all.1

      here :
          (b ≢ a) ⊎ All (λ y. (y ≡ db) ⊎ (y.datname ≢ db.datname)) (y ∷ dbs)
          → (g' : Gauge) → ◌≡◌ {A = SampleKey} (g', b ∷ y.datname ∷ []) (g, a ∷ db.datname ∷ [])
          → ◌≡◌ {A = F} (database_value y g') (database_value db g)
      here (inl other) g' e = absurd (other (head_eq (ap (λ k. k.1) e)))
      here (inr (inl same, _)) g' e =
          ap (λ z. database_value z g') same ∙ ap (λ k. database_value db k) (ap (λ k. k.0) e)
      here (inr (inr other, _)) g' e = absurd (other (second_eq (ap (λ k. k.1) e)))

module _ {F : Type 0} ⦃f : Floats F⦄ ⦃n : Numbers F⦄ (observed_at : ℕ) where
  -- Every entry of a gauge and a server gives it one value, and so does every entry of a gauge and a database.
  server-Gives :
      (g : Gauge) (state : RuntimeMetricsState F) (states : List (RuntimeMetricsState F))
      → All (λ s. (s ≡ state) ⊎ (s.db_identifier ≢ state.db_identifier)) states
      → All
          (Gives (g, state.db_identifier ∷ []) (server_value observed_at state g))
          (entries observed_at states)
  server-Gives g state [] h = tt
  server-Gives g state (s ∷ states) h =
      All-append _ (state_entries observed_at s) (entries observed_at states)
        (All-append _ (server_entries observed_at s) (databases_entries s.db_identifier s.database)
          (All-map (server_entry observed_at s)
            (Gives (g, state.db_identifier ∷ []) (server_value observed_at state g)) server_gauges
            (here h.0))
          (server_in_databases g state.db_identifier s.db_identifier _ s.database))
        (server-Gives g state states h.1)
    where
      here :
          (s ≡ state) ⊎ (s.db_identifier ≢ state.db_identifier)
          → (g' : Gauge)
          → ◌≡◌ {A = SampleKey} (g', s.db_identifier ∷ []) (g, state.db_identifier ∷ [])
          → server_value observed_at s g' ≡ server_value observed_at state g
      here (inl same) g' e =
          ap (λ y. server_value observed_at y g') same
          ∙ ap (λ k. server_value observed_at state k) (ap (λ k. k.0) e)
      here (inr other) g' e = absurd (other (head_eq (ap (λ k. k.1) e)))

  database_in_server :
      (g : Gauge) (a b : String) (v : F) (s : RuntimeMetricsState F)
      → All (Gives (g, a ∷ b ∷ []) v) (server_entries observed_at s)
  database_in_server g a b v s =
      All-map (server_entry observed_at s) (Gives (g, a ∷ b ∷ []) v) server_gauges
        (λ h e. absurd (shorter (ap (λ k. k.1) e)))
    where
      shorter : s.db_identifier ∷ [] ≡ a ∷ b ∷ [] → ⊥
      shorter e = cc

  database-Gives :
      (g : Gauge) (state : RuntimeMetricsState F) (db : RuntimeDatabaseMetrics)
      (states : List (RuntimeMetricsState F))
      → All (λ s. (s ≡ state) ⊎ (s.db_identifier ≢ state.db_identifier)) states
      → All (λ y. (y ≡ db) ⊎ (y.datname ≢ db.datname)) state.database
      → All
          (Gives (g, state.db_identifier ∷ db.datname ∷ []) (database_value db g))
          (entries observed_at states)
  database-Gives g state db [] h k = tt
  database-Gives g state db (s ∷ states) h k =
      All-append _ (state_entries observed_at s) (entries observed_at states)
        (All-append _ (server_entries observed_at s) (databases_entries s.db_identifier s.database)
          (database_in_server g state.db_identifier db.datname _ s)
          (database_in_databases F g state.db_identifier s.db_identifier db s.database (which h.0)))
        (database-Gives g state db states h.1 k)
    where
      which :
          (s ≡ state) ⊎ (s.db_identifier ≢ state.db_identifier)
          → (s.db_identifier ≢ state.db_identifier)
            ⊎ All (λ y. (y ≡ db) ⊎ (y.datname ≢ db.datname)) s.database
      which (inl same) =
          inr (subst (λ z. All (λ y. (y ≡ db) ⊎ (y.datname ≢ db.datname)) z.database) (sym same) k)
      which (inr other) = inl other

  -- The entries of a state are there.
  Elem-databases_entries :
      (a : String) (db : RuntimeDatabaseMetrics) (dbs : List RuntimeDatabaseMetrics) (x : Entry F)
      → Elem db dbs
      → Elem x (database_entries a db)
      → Elem x (databases_entries a dbs)
  Elem-databases_entries a db [] x m k = absurd m
  Elem-databases_entries a db (y ∷ dbs) x (inl e) k =
      Elem-append x (database_entries a y) (databases_entries a dbs)
        (inl (subst (λ z. Elem x (database_entries a z)) e k))
  Elem-databases_entries a db (y ∷ dbs) x (inr m) k =
      Elem-append x (database_entries a y) (databases_entries a dbs)
        (inr (Elem-databases_entries a db dbs x m k))

  Elem-entries :
      (state : RuntimeMetricsState F) (states : List (RuntimeMetricsState F)) (x : Entry F)
      → Elem state states
      → Elem x (state_entries observed_at state)
      → Elem x (entries observed_at states)
  Elem-entries state [] x m k = absurd m
  Elem-entries state (y ∷ states) x (inl e) k =
      Elem-append x (state_entries observed_at y) (entries observed_at states)
        (inl (subst (λ z. Elem x (state_entries observed_at z)) e k))
  Elem-entries state (y ∷ states) x (inr m) k =
      Elem-append x (state_entries observed_at y) (entries observed_at states)
        (inr (Elem-entries state states x m k))

  module _ (states : List (RuntimeMetricsState F))
      (distinct : Distinct (λ s. s.db_identifier) states) (state : RuntimeMetricsState F)
      (there : Elem state states) where
    -- The gauges of a server.
    pub server_sample :
        (g : Gauge)
        → Elem g server_gauges
        → get (set_states observed_at states []) (g, state.db_identifier ∷ [])
          ≡ some (server_value observed_at state g)
    server_sample g m =
        ap (λ d. get d (g, state.db_identifier ∷ [])) (set_states-entries observed_at states [])
        ∙ get-put_entries (entries observed_at states) [] (g, state.db_identifier ∷ [])
            (server_value observed_at state g)
            (server-Gives g state states
              (Distinct-Elem (λ s. s.db_identifier) state states distinct there))
            (inr (
              Elem-entries state states _ there (
                Elem-append _ (server_entries observed_at state)
                  (databases_entries state.db_identifier state.database)
                  (inl (Elem-map (server_entry observed_at state) g server_gauges m)))))

    -- The gauges of one of its databases.
    pub database_sample :
        (db : RuntimeDatabaseMetrics)
        → Distinct (λ y. y.datname) state.database
        → Elem db state.database
        → (g : Gauge) → Elem g database_gauges
        → get (set_states observed_at states []) (g, state.db_identifier ∷ db.datname ∷ [])
          ≡ some (database_value db g)
    database_sample db named at g m =
        ap (λ d. get d (g, state.db_identifier ∷ db.datname ∷ []))
          (set_states-entries observed_at states [])
        ∙ get-put_entries (entries observed_at states) [] (g, state.db_identifier ∷ db.datname ∷ [])
            (database_value db g)
            (database-Gives g state db states
              (Distinct-Elem (λ s. s.db_identifier) state states distinct there)
              (Distinct-Elem (λ y. y.datname) db state.database named at))
            (inr (
              Elem-entries state states _ there (
                Elem-append _ (server_entries observed_at state)
                  (databases_entries state.db_identifier state.database)
                  (inr (
                    Elem-databases_entries state.db_identifier db state.database _ at
                      (Elem-map (database_entry state.db_identifier db) g database_gauges m))))))
