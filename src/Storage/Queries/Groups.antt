-- ===== src/Storage/Queries/Groups.antt =====
-- The grouping of rows by their time in get_latest_snapshots_at_or_before (storage/repositories.py).
use mathlib.Core.Path.{◌≡◌, refl, sym, ap, ◌∙◌}
use pg_monitor.Prelude.{
  ℕ, Option, some, List, [], ◌∷◌, ◌++◌, map, inl, inr, All, filter, Bool-cases,
}
use mathlib.Core.List.{append-nil, append_assoc}
use pg_monitor.Prelude.Eq.{ℕ_eq, ◌=?◌, =?→eq}
use pg_monitor.Prelude.Dict.{Dict, get, put, put_all, get-put}
use pg_monitor.Exn.{ok}
use pg_monitor.Storage.Orm.{QueryMetricSnapshotOrm, QuerySnapshotRow, QuerySnapshotPoint, from_orm}
use pg_monitor.Storage.Queries.Grouping.{
  Points, append_row, group_rows, build_points, resolve, boundary_at,
}

abbrev pub Groups : Type 0 → Type 0
Groups F = Dict ℕ (List (QuerySnapshotRow F))

some_eq : {A : Type 0} {a b : A} → some a ≡ some b → a ≡ b
some_eq h = cc

module _ {F : Type 0} where
  abbrev pub HasGroup : Groups F → ℕ → Type 0
  HasGroup grouped k = (l : List (QuerySnapshotRow F)) × (get grouped k ≡ some l)

  -- The rows of one time.
  abbrev pub rows_of : ℕ → List (QueryMetricSnapshotOrm F) → List (QuerySnapshotRow F)
  rows_of k rows = map from_orm (filter (λ r. r.captured_at =? k) rows)

  HasGroup-put :
      (d : Groups F) (k j : ℕ) (v : List (QuerySnapshotRow F))
      → HasGroup d j
      → HasGroup (put d k v) j
  HasGroup-put d k j v (l, e) = elim (Bool-cases (k =? j)) [
    | inl t ↦ (v, get-put d k j v ∙ rw t)
    | inr f ↦ (l, get-put d k j v ∙ rw f e)
  ]

  All-put :
      (d : Groups F) (k : ℕ) (v : List (QuerySnapshotRow F))
      (rows : List (QueryMetricSnapshotOrm F))
      → All (λ r. HasGroup d r.captured_at) rows
      → All (λ r. HasGroup (put d k v) r.captured_at) rows
  All-put d k v [] h = tt
  All-put d k v (r ∷ rows) h = (HasGroup-put d k r.captured_at v h.0, All-put d k v rows h.1)

  appended :
      (r : QueryMetricSnapshotOrm F) (rows : List (QueryMetricSnapshotOrm F)) (d d' : Groups F)
      (l₀ : List (QuerySnapshotRow F))
      → get d r.captured_at ≡ some l₀
      → (k : ℕ) (l : List (QuerySnapshotRow F)) → get d k ≡ some l
      → ((m : List (QuerySnapshotRow F))
          → get (put d r.captured_at (l₀ ++ from_orm r ∷ [])) k ≡ some m
          → get d' k ≡ some (m ++ rows_of k rows))
      → get d' k ≡ some (l ++ rows_of k (r ∷ rows))
  appended r rows d d' l₀ e₀ k l ek keeps = elim (Bool-cases (r.captured_at =? k)) [
    | inr f ↦ rw f (keeps l (get-put d r.captured_at k (l₀ ++ from_orm r ∷ []) ∙ rw f ek))
    | inl t ↦
        let same : l₀ ≡ l = some_eq (sym e₀ ∙ ap (get d) (=?→eq r.captured_at k t) ∙ ek) in
        rw t (
          keeps (l₀ ++ from_orm r ∷ []) (get-put d r.captured_at k (l₀ ++ from_orm r ∷ []) ∙ rw t)
          ∙ ap some (
              append_assoc l₀ (from_orm r ∷ []) (rows_of k rows)
              ∙ ap (λ y. y ++ from_orm r ∷ rows_of k rows) same))
  ]

  -- If every row's time has a group, grouping succeeds and appends to each group the rows of its time.
  pub group_rows_lem :
      (rows : List (QueryMetricSnapshotOrm F)) (d : Groups F)
      → All (λ r. HasGroup d r.captured_at) rows
      → (d' : Groups F) × (group_rows rows d ≡ ok d')
        × ((k : ℕ) (l : List (QuerySnapshotRow F))
            → get d k ≡ some l
            → get d' k ≡ some (l ++ rows_of k rows))
  unfolding group_rows
  group_rows_lem [] d h = (d, refl, λ k l e. e ∙ ap some (sym (append-nil l)))
  group_rows_lem (r ∷ rows) d h =
      let (l₀, e₀) = h.0 in
      let x = from_orm r in
      let d₁ = put d r.captured_at (l₀ ++ x ∷ []) in
      let (d', e, keeps) =
        group_rows_lem rows d₁ (All-put d r.captured_at (l₀ ++ x ∷ []) rows h.1) in
      (d', rw (e₀, group_rows, append_row) e, λ k l ek. appended r rows d d' l₀ e₀ k l ek (keeps k))

  -- The last loop makes one entry for each timestamp.
  pub build_points_lem :
      (grouped : Groups F) (captured_ats : List ℕ) (point : ℕ → Option (QuerySnapshotPoint F))
      (timestamps : List ℕ) (d : Points F)
      → All (λ ts. resolve grouped (boundary_at captured_ats ts) ≡ ok (point ts)) timestamps
      → build_points grouped captured_ats timestamps d ≡ ok (put_all (λ ts. ts) point timestamps d)
  unfolding build_points put_all
  build_points_lem grouped captured_ats point [] d h = refl
  build_points_lem grouped captured_ats point (ts ∷ rest) d h =
      rw (h.0, build_points)
        (build_points_lem grouped captured_ats point rest (put d ts (point ts)) h.1)
