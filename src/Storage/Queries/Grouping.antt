-- ===== src/Storage/Queries/Grouping.antt =====
-- The parts of get_latest_snapshots_at_or_before of storage/repositories.py that ask nothing of the database:
-- boundaries, grouping and the result.
use pg_monitor.Prelude.{
  ℕ, zero, suc, Option, none, some, List, [], ◌∷◌, ◌++◌, map, ltb, leb, if◌then◌else◌,
}
use pg_monitor.Prelude.Eq.{ℕ_eq, ℤ_eq, String_eq}
use pg_monitor.Prelude.Sort.{sort_by}
use pg_monitor.Prelude.Dict.{Dict, get, put, put_all, unique}
use pg_monitor.Exn.{Result, ok, err, key_error, ◌>>=◌}
use pg_monitor.Storage.Orm.{QueryMetricSnapshotOrm, QuerySnapshotRow, QuerySnapshotPoint, from_orm}

-- `bisect_right` on an ascending list: how many elements are at most `x`
unfoldable pub bisect_right : List ℕ → ℕ → ℕ
bisect_right [] x = 0
bisect_right (y ∷ ys) x = if leb y x then suc (bisect_right ys x) else 0

-- `captured_ats[bisect_right(captured_ats, ts) - 1]`, or None before the first
unfoldable pub nth_before : List ℕ → ℕ → Option ℕ
nth_before xs zero = none
nth_before [] (suc k) = none
nth_before (x ∷ xs) (suc zero) = some x
nth_before (x ∷ xs) (suc (suc k)) = nth_before xs (suc k)

unfoldable pub boundary_at : List ℕ → ℕ → Option ℕ
unfolding nth_before bisect_right
boundary_at captured_ats ts = nth_before captured_ats (bisect_right captured_ats ts)

-- `sorted({item for item in values if item is not None})`
unfoldable pub present : List (Option ℕ) → List ℕ
present [] = []
present (none ∷ rest) = present rest
present (some m ∷ rest) = m ∷ present rest

unfoldable pub needed_captured_ats : List ℕ → List ℕ → List ℕ
unfolding boundary_at present
needed_captured_ats captured_ats timestamps =
    sort_by leb (unique (present (map (boundary_at captured_ats) timestamps)))

abbrev pub Points : Type 0 → Type 0
Points F = Dict ℕ (Option (QuerySnapshotPoint F))

module _ {F : Type 0} where
  unfoldable pub append_row :
      Option (List (QuerySnapshotRow F))
      → QueryMetricSnapshotOrm F
      → Result (List (QuerySnapshotRow F))
  append_row none row = err key_error
  append_row (some rows) row = ok (rows ++ from_orm row ∷ [])

  -- `grouped_rows[row.captured_at].append(...)` for each row
  unfoldable pub group_rows :
      List (QueryMetricSnapshotOrm F)
      → Dict ℕ (List (QuerySnapshotRow F))
      → Result (Dict ℕ (List (QuerySnapshotRow F)))
  unfolding append_row
  group_rows [] grouped = ok grouped
  group_rows (row ∷ rows) grouped = elim (append_row (get grouped row.captured_at) row) [
    | err e ↦ err e
    | ok appended ↦ group_rows rows (put grouped row.captured_at appended)
  ]

  unfoldable pub point_of : Option (List (QuerySnapshotRow F)) → ℕ → Result (QuerySnapshotPoint F)
  point_of none boundary = err key_error
  point_of (some rows) boundary = ok (record { captured_at = boundary; rows = rows })

  unfoldable pub resolve :
      Dict ℕ (List (QuerySnapshotRow F)) → Option ℕ → Result (Option (QuerySnapshotPoint F))
  unfolding point_of
  resolve grouped none = ok none
  resolve grouped (some boundary) = do
    point ← point_of (get grouped boundary) boundary
    ok (some point)

  -- The last loop: one entry for each distinct timestamp.
  unfoldable pub build_points :
      Dict ℕ (List (QuerySnapshotRow F)) → List ℕ → List ℕ → Points F → Result (Points F)
  unfolding resolve
  build_points grouped captured_ats [] result = ok result
  build_points grouped captured_ats (ts ∷ rest) result =
      elim (resolve grouped (boundary_at captured_ats ts)) [
        | err e ↦ err e
        | ok point ↦ build_points grouped captured_ats rest (put result ts point)
      ]

-- `max(timestamps)`, of `m` and a list
unfoldable pub maximum : ℕ → List ℕ → ℕ
maximum m [] = m
maximum m (x ∷ xs) = maximum (if ltb m x then x else m) xs

module _ {F : Type 0} where
  -- `{ts: None for ts in timestamps}`
  unfoldable pub no_points : List ℕ → Points F
  no_points timestamps = put_all (λ ts. ts) (λ ts. none) timestamps []

  unfoldable pub assemble :
      List ℕ → List ℕ → List ℕ → List (QueryMetricSnapshotOrm F) → Result (Points F)
  unfolding group_rows build_points
  assemble captured_ats timestamps needed orm_rows = do
    grouped ← group_rows orm_rows (put_all (λ ts. ts) (λ ts. []) needed [])
    build_points grouped captured_ats timestamps []
