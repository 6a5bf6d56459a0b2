-- ===== src/Metrics/Requests/Counts.antt =====
-- What ServiceMetrics counts.
use Prim.Native.Nat.{ℕ, suc}
use mathlib.Core.List.{append_assoc, append-nil}
use pg_monitor.Prelude.{
  ◌+◌, ◌≡◌, sym, ap, ◌∙◌, subst, inl, inr, List, [], ◌∷◌, ◌++◌, Bool, true, if◌then◌else◌,
  Bool-cases, ◌&&◌, map, filter, length, arith,
}
use pg_monitor.Prelude.Eq.{ℕ_eq, List_eq, ◌=?◌, =?_refl, =?→eq}
use pg_monitor.Prelude.Dict.{get, get-put}
use pg_monitor.Prelude.Floats.{Floats}
use pg_monitor.Prelude.Text.{Text}
use pg_monitor.Prelude.Text.Decimal.{decimal, decimal-injective}
use pg_monitor.Metrics.Exporter.{max_zero}
use pg_monitor.Metrics.Requests.{
  Labels, ServiceMetrics, Observation, or_none_yet, or_nothing, inc, observe, labels_of,
  observe_http_request,
}

module _ {F : Type 0} ⦃f : Floats F⦄ where
  -- Requests are observed one after another.
  unfoldable pub observe_all : List (Observation F) → ServiceMetrics F → ServiceMetrics F
  observe_all [] m = m
  observe_all (o ∷ os) m = observe_all os (observe_http_request o m)

  -- `ServiceMetrics()`, as far as it counts.
  abbrev pub fresh : ServiceMetrics F
  fresh = record { http_requests_total = []; http_request_duration_seconds = [] }

-- The labels of a method, a path and a status.
abbrev pub labels_for : Text → Text → ℕ → Labels
labels_for method path status = method ∷ path ∷ decimal status ∷ []

decimal_eq : (a b : ℕ) → (decimal a =? decimal b) ≡ (a =? b)
decimal_eq a b = elim (Bool-cases (a =? b)) [
  | inl t ↦
      subst (λ k. (decimal k =? decimal b) ≡ true) (sym (=?→eq a b t)) (=?_refl (decimal b)) ∙ sym t
  | inr g ↦ elim (Bool-cases (decimal a =? decimal b)) [
    | inl t ↦
        let same = decimal-injective a b (=?→eq (decimal a) (decimal b) t) in
        absurd (ground (arith, (ℕ_eq.beq_iff a b).1 same))
    | inr h ↦ h ∙ sym g
  ]
]

module _ {F : Type 0} where
  -- Whether a request has the method, the path and the status.
  abbrev pub is_of : Text → Text → ℕ → Observation F → Bool
  is_of method path status o = (o.method =? method) && (o.path =? path) && (o.status_code =? status)

  abbrev pub total : ServiceMetrics F → Labels → ℕ
  total m labels = or_none_yet (get m.http_requests_total labels)

  abbrev pub durations : ServiceMetrics F → Labels → List F
  durations m labels = or_nothing (get m.http_request_duration_seconds labels)

  labels_eq :
      (method path : Text) (status : ℕ) (o : Observation F)
      → (labels_of o =? labels_for method path status) ≡ is_of method path status o
  unfolding labels_of
  labels_eq method path status o = ground (arith, decimal_eq o.status_code status)

  counted :
      (o : Observation F) (x : F) (m : ServiceMetrics F) (labels : Labels)
      → total (observe (labels_of o) x (inc (labels_of o) m)) labels
        ≡ (if labels_of o =? labels then suc (total m labels) else total m labels)
  unfolding observe inc
  counted o x m labels = elim (Bool-cases (labels_of o =? labels)) [
    | inl t ↦
        let same = =?→eq (labels_of o) labels t in
        ap or_none_yet
          (get-put m.http_requests_total (labels_of o) labels (suc (total m (labels_of o))))
        ∙ rw (t, same)
    | inr g ↦
        ap or_none_yet
          (get-put m.http_requests_total (labels_of o) labels (suc (total m (labels_of o))))
        ∙ rw g
  ]

  timed :
      (o : Observation F) (x : F) (m : ServiceMetrics F) (labels : Labels)
      → durations (observe (labels_of o) x (inc (labels_of o) m)) labels
        ≡ (if labels_of o =? labels then durations m labels ++ x ∷ [] else durations m labels)
  unfolding observe inc
  timed o x m labels = elim (Bool-cases (labels_of o =? labels)) [
    | inl t ↦
        let same = =?→eq (labels_of o) labels t in
        ap or_nothing (
          get-put m.http_request_duration_seconds (labels_of o) labels
            (durations m (labels_of o) ++ x ∷ []))
        ∙ rw (t, same)
    | inr g ↦
        ap or_nothing (
          get-put m.http_request_duration_seconds (labels_of o) labels
            (durations m (labels_of o) ++ x ∷ []))
        ∙ rw g
  ]

module _ {F : Type 0} ⦃f : Floats F⦄ (method path : Text) (status : ℕ) where
  -- On top of what was counted before.
  pub totals :
      (os : List (Observation F)) (m : ServiceMetrics F)
      → total (observe_all os m) (labels_for method path status)
        ≡ total m (labels_for method path status) + length (filter (is_of method path status) os)
  unfolding observe_all observe_http_request
  totals [] m = omega arith
  totals (o ∷ os) m =
      totals os (observe_http_request o m)
      ∙ ap (λ n. n + length (filter (is_of method path status) os))
          (counted o (max_zero o.duration_seconds) m (labels_for method path status))
      ∙ ground (arith, labels_eq method path status o)

  pub times :
      (os : List (Observation F)) (m : ServiceMetrics F)
      → durations (observe_all os m) (labels_for method path status)
        ≡ durations m (labels_for method path status)
          ++ map (λ o. max_zero o.duration_seconds) (filter (is_of method path status) os)
  unfolding observe_all observe_http_request
  times [] m = sym (append-nil _)
  times (o ∷ os) m =
      times os (observe_http_request o m)
      ∙ ap (λ l. l ++ map (λ o. max_zero o.duration_seconds) (filter (is_of method path status) os))
          (timed o (max_zero o.duration_seconds) m (labels_for method path status))
      ∙ elim (Bool-cases (is_of method path status o)) [
        | inl t ↦
            rw (labels_eq method path status o, t)
              (append_assoc (durations m (labels_for method path status))
                (max_zero o.duration_seconds ∷ [])
                (map (λ o'. max_zero o'.duration_seconds) (filter (is_of method path status) os)))
        | inr g ↦ rw (labels_eq method path status o, g)
      ]

  -- After any requests, the counter with the labels of a method, a path and a status is the number of the requests
  -- that had all three, and its histogram has observed their durations in order, those below zero as zero.
  pub observe_all-counts :
      (os : List (Observation F))
      → let own = filter (is_of method path status) os in
        (total (observe_all os fresh) (labels_for method path status) ≡ length own)
        × (durations (observe_all os fresh) (labels_for method path status)
            ≡ map (λ o. max_zero o.duration_seconds) own)
  unfolding get
  observe_all-counts os = (totals os fresh ∙ omega arith, times os fresh)
