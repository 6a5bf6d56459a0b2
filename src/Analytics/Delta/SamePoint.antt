-- ===== src/Analytics/Delta/SamePoint.antt =====
-- Deltas of query_analytics/delta.py over one snapshot.
use pg_monitor.Prelude.{
  ◌≡◌, refl, sym, ◌≢◌, inl, inr, none, some, List, [], ◌∷◌, Elem, All, Bool-cases, subst,
}
use pg_monitor.Prelude.Eq.{◌=?◌, =?_refl, =?→eq}
use pg_monitor.Prelude.Order.{le_refl}
use pg_monitor.Prelude.Floats.{Floats}
use pg_monitor.Storage.Orm.{QuerySnapshotRow, QuerySnapshotPoint}
use pg_monitor.Analytics.Delta.{RowKey, RowKey_eq, row_key, build_query_deltas}
use pg_monitor.Analytics.Delta.Exactness.{last_with, Same, build_query_deltas-exact}

-- No two rows have one key, as the unique constraint of the table has it for the rows of one snapshot.
abbrev pub DistinctKeys : {F : Type 0} → List (QuerySnapshotRow F) → Type 0
DistinctKeys [] = Unit
DistinctKeys (row ∷ rows) = All (λ r. row_key r ≢ row_key row) rows × DistinctKeys rows

empty_of : {A : Type 0} (l : List A) → ((a : A) → ¬ Elem a l) → l ≡ []
empty_of [] h = refl
empty_of (a ∷ l) h = absurd (h a (inl refl))

module _ {F : Type 0} where
  last_with-none :
      (k : RowKey) (rows : List (QuerySnapshotRow F))
      → All (λ r. row_key r ≢ k) rows
      → last_with k rows ≡ none
  last_with-none k [] h = refl
  last_with-none k (r ∷ rows) h = elim (Bool-cases (row_key r =? k)) [
    | inl t ↦ absurd (h.0 (=?→eq (row_key r) k t))
    | inr n ↦ rw (last_with-none k rows h.1, n)
  ]

  last_with_head :
      (r : QuerySnapshotRow F) (rows : List (QuerySnapshotRow F))
      → DistinctKeys (r ∷ rows)
      → last_with (row_key r) (r ∷ rows) ≡ some r
  last_with_head r rows u = rw (last_with-none (row_key r) rows u.0, =?_refl (row_key r))

  last_with-Elem :
      (row : QuerySnapshotRow F) (rows : List (QuerySnapshotRow F))
      → DistinctKeys rows
      → Elem row rows
      → last_with (row_key row) rows ≡ some row
  last_with-Elem row [] u m = absurd m
  last_with-Elem row (r ∷ rows) u (inl e) =
      subst (λ x. last_with (row_key x) (r ∷ rows) ≡ some x) (sym e) (last_with_head r rows u)
  last_with-Elem row (r ∷ rows) u (inr m) = rw (last_with-Elem row rows u.1 m)

  module _ ⦃f : Floats F⦄ where
    Same-self : (row : QuerySnapshotRow F) → Same (some row) row
    Same-self row = record {
      calls_same = refl;
      time_le = le_refl f.le-IsPreorder row.total_exec_time_ms;
      time_ge = le_refl f.le-IsPreorder row.total_exec_time_ms;
      rows_same = refl;
      hit_same = refl;
      read_same = refl;
      dirtied_same = refl;
      written_same = refl;
    }

    -- Where both ends of a window fall on one snapshot, whose rows have distinct keys, there are no deltas.
    pub build_query_deltas-same_point :
        (point : QuerySnapshotPoint F)
        → DistinctKeys point.rows
        → build_query_deltas (some point) (some point) ≡ []
    build_query_deltas-same_point point u = empty_of _ λ d m.
        let (row, at, k) = (build_query_deltas-exact (some point) point d).0 m in
        k.moved (subst (λ o. Same o row) (sym (last_with-Elem row point.rows u at)) (Same-self row))
