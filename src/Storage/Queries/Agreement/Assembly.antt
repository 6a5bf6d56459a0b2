-- ===== src/Storage/Queries/Agreement/Assembly.antt =====
-- The result of get_latest_snapshots_at_or_before (storage/repositories.py), assembled from its parts.
use mathlib.Core.Path.{◌≡◌, refl, sym, ap, ◌∙◌, subst}
use pg_monitor.Prelude.{
  ℕ, String, Bool, true, false, ◌&&◌, Option, none, some, List, [], ◌∷◌, ◌++◌, map, arith, inl, inr,
  ◌⊎◌, Bool-cases, All, All-Elem, All-of_Elem, All-filter, Elem, Elem-map, filter, leb,
  if◌then◌else◌,
}
use pg_monitor.Prelude.Eq.{ℕ_eq, String_eq, ◌=?◌}
use pg_monitor.Prelude.Sort.{All-sort_by, Elem-sort_by}
use pg_monitor.Prelude.Dict.{get, put_all, unique, has}
use pg_monitor.Prelude.Dict.Keys.{
  Elem-has, has-Elem, Elem-unique, Elem-of_unique, get-put_all, put_all_ext,
}
use pg_monitor.Exn.{ok}
use pg_monitor.Storage.Orm.{QueryMetricSnapshotOrm, QuerySnapshotRow, QuerySnapshotPoint, Tables}
use pg_monitor.Storage.Session.{Session, select_calm}
use pg_monitor.Storage.Queries.Latest.{
  Collation, of_database, latest_ts_query, get_latest_snapshot_at_or_before,
}
use pg_monitor.Storage.Queries.Grouping.{
  Points, boundary_at, present, needed_captured_ats, maximum, no_points, assemble, resolve,
  point_of,
}
use pg_monitor.Storage.Queries.Bulk.{
  captured_ats_query, needed_rows_query, from_needed, from_captured, from_unique,
  get_latest_snapshots_at_or_before,
}
use pg_monitor.Storage.Queries.Groups.{Groups, HasGroup, rows_of, group_rows_lem, build_points_lem}
use pg_monitor.Storage.Queries.Times.{boundary_at-captured_ats, maximum-ge_elem}
use pg_monitor.Storage.Queries.Agreement.{
  point_for, latest_point, needed_rows-at, get_latest_snapshot_at_or_before_lem,
}

Elem-present : (m : ℕ) (xs : List (Option ℕ)) → Elem (some m) xs → Elem m (present xs)
unfolding present
Elem-present m [] h = absurd h
Elem-present m (none ∷ xs) (inl e) = absurd (ground arith)
Elem-present m (none ∷ xs) (inr r) = Elem-present m xs r
Elem-present m (some n ∷ xs) (inl e) = inl (ground arith)
Elem-present m (some n ∷ xs) (inr r) = inr (Elem-present m xs r)

-- The boundary of each timestamp is among the needed times.
Elem-needed :
    (caps timestamps : List ℕ) (ts m : ℕ)
    → Elem ts timestamps
    → boundary_at caps ts ≡ some m
    → Elem m (needed_captured_ats caps timestamps)
unfolding needed_captured_ats
Elem-needed caps timestamps ts m at e = Elem-sort_by leb m _ (
    Elem-unique m _ (
      Elem-present m _ (
        subst (λ o. Elem o (map (boundary_at caps) timestamps)) e
          (Elem-map (boundary_at caps) ts timestamps at))))

module _ {F : Type 0} ⦃c : Collation⦄ where
  abbrev Grouped : List ℕ → QueryMetricSnapshotOrm F → Type 0
  Grouped needed r = HasGroup {F = F} (put_all (λ k. k) (λ k. []) needed []) r.captured_at

  rows-HasGroup :
      (db : String) (needed : List ℕ) (t : Tables F)
      → All (Grouped needed) (needed_rows_query db needed t)
  unfolding needed_rows_query
  rows-HasGroup db needed t =
      let p = of_database db (λ k. has needed k) in
      let rows = t.query_metric_snapshots in
      All-sort_by (Grouped needed) _ (filter p rows) (
        All-of_Elem (Grouped needed) (filter p rows) λ r m.
          let h = All-Elem (λ a. p a ≡ true) _ (All-filter p rows) m in
          let e = second (r.db_identifier =? db) (has needed r.captured_at) h in
          ([], get-put_all (λ k. []) needed [] r.captured_at ∙ rw e))
    where
      second : (p q : Bool) → (p && q) ≡ true → q ≡ true
      second p q h = ground arith

  module _ (db : String) (caps timestamps : List ℕ) (t : Tables F)
      (agree : (ts : ℕ) → Elem ts timestamps → boundary_at caps ts ≡ latest_ts_query db ts t) where
    abbrev needed : List ℕ
    needed = needed_captured_ats caps timestamps

    resolve_lem :
        (grouped : Groups F)
        → ((k : ℕ) (l : List (QuerySnapshotRow F))
            → get (put_all (λ k. k) (λ k. []) needed []) k ≡ some l
            → get grouped k ≡ some (l ++ rows_of k (needed_rows_query db needed t)))
        → (ts : ℕ) → Elem ts timestamps
        → (o : Option ℕ) → boundary_at caps ts ≡ o
        → resolve grouped (boundary_at caps ts) ≡ ok (latest_point db ts t)
    unfolding resolve point_of latest_point point_for
    resolve_lem grouped keeps ts at none e = rw (sym (agree ts at) ∙ e, e)
    resolve_lem grouped keeps ts at (some m) e =
        let has_m = has-Elem m needed (Elem-needed caps timestamps ts m at e) in
        let group =
          keeps m [] (get-put_all (λ k. []) needed [] m ∙ rw has_m)
          ∙ ap some (needed_rows-at db needed m t has_m) in
        rw (e, group, sym (agree ts at) ∙ e)

    assemble_lem :
        assemble caps timestamps needed (needed_rows_query db needed t)
        ≡ ok (put_all (λ ts. ts) (λ ts. latest_point db ts t) timestamps [])
    unfolding assemble
    assemble_lem =
        let (grouped, e, keeps) = group_rows_lem _ _ (rows-HasGroup db needed t) in
        rw e (
          build_points_lem grouped caps (λ ts. latest_point db ts t) timestamps []
            (All-of_Elem _ timestamps
              (λ ts at. resolve_lem grouped keeps ts at (boundary_at caps ts) refl)))

    -- Where no time is needed, no timestamp has a snapshot.
    nothing_needed :
        needed ≡ []
        → no_points {F = F} timestamps
          ≡ put_all (λ ts. ts) (λ ts. latest_point db ts t) timestamps []
    unfolding no_points latest_point point_for
    nothing_needed e =
        put_all_ext (λ ts. none) (λ ts. latest_point db ts t) timestamps []
          (All-of_Elem _ timestamps (λ ts at. none_at ts at (boundary_at caps ts) refl))
      where
        none_at :
            (ts : ℕ)
            → Elem ts timestamps
            → (o : Option ℕ) → boundary_at caps ts ≡ o
            → none ≡ latest_point db ts t
        none_at ts at none b = rw (sym (agree ts at) ∙ b)
        none_at ts at (some m) b = absurd (subst (Elem m) e (Elem-needed caps timestamps ts m at b))

  from_needed_calm :
      (db : String) (caps timestamps : List ℕ) (s : Session F)
      → s.faults ≡ []
      → ((ts : ℕ) → Elem ts timestamps → boundary_at caps ts ≡ latest_ts_query db ts s.tables)
      → (needed : List ℕ) → needed_captured_ats caps timestamps ≡ needed
      → from_needed db caps timestamps needed s
        ≡ (ok (put_all (λ ts. ts) (λ ts. latest_point db ts s.tables) timestamps []), s)
  unfolding from_needed
  from_needed_calm db caps timestamps s calm agree [] e =
      ap (λ p. (ok p, s)) (nothing_needed db caps timestamps s.tables agree e)
  from_needed_calm db caps timestamps s calm agree (n ∷ needed) e =
      rw (select_calm s calm (needed_rows_query db (n ∷ needed))) (
        ap (λ r. (r, s))
          (subst
            (λ l.
              assemble caps timestamps l (needed_rows_query db l s.tables)
              ≡ ok (put_all (λ ts. ts) (λ ts. latest_point db ts s.tables) timestamps []))
            e (assemble_lem db caps timestamps s.tables agree)))

  from_captured_calm :
      (db : String) (timestamps : List ℕ) (s : Session F)
      → s.faults ≡ []
      → (caps : List ℕ)
      → ((ts : ℕ) → Elem ts timestamps → boundary_at caps ts ≡ latest_ts_query db ts s.tables)
      → from_captured db timestamps caps s
        ≡ (ok (put_all (λ ts. ts) (λ ts. latest_point db ts s.tables) timestamps []), s)
  unfolding from_captured boundary_at latest_point point_for no_points
  from_captured_calm db timestamps s calm [] agree =
      ap (λ p. (ok p, s))
        (put_all_ext (λ ts. none) (λ ts. latest_point db ts s.tables) timestamps []
          (All-of_Elem _ timestamps (λ ts at. rw (sym (agree ts at)))))
  from_captured_calm db timestamps s calm (k ∷ caps) agree =
      from_needed_calm db (k ∷ caps) timestamps s calm agree _ refl

  from_unique_calm :
      (db : String) (timestamps : List ℕ) (s : Session F)
      → s.faults ≡ []
      → from_unique db timestamps s
        ≡ (ok (put_all (λ ts. ts) (λ ts. latest_point db ts s.tables) timestamps []), s)
  unfolding from_unique put_all
  from_unique_calm db [] s calm = refl
  from_unique_calm db (ts ∷ rest) s calm =
      rw (select_calm s calm (captured_ats_query db (maximum ts rest))) (
        from_captured_calm db (ts ∷ rest) s calm _ λ u at.
          boundary_at-captured_ats db u (maximum ts rest) s.tables (maximum-ge_elem u ts rest at))

  pub get_latest_snapshots_at_or_before_lem :
      (db : String) (timestamps : List ℕ) (s : Session F)
      → s.faults ≡ []
      → get_latest_snapshots_at_or_before db timestamps s
        ≡ (ok (put_all (λ ts. ts) (λ ts. latest_point db ts s.tables) (unique timestamps) []), s)
  unfolding get_latest_snapshots_at_or_before
  get_latest_snapshots_at_or_before_lem db timestamps s calm =
      from_unique_calm db (unique timestamps) s calm

  -- On a session whose statements succeed, the bulk read has an entry for each timestamp asked for, and it is what
  -- the single read returns for that timestamp; it has no other entries, and neither read changes the session.
  pub get_latest_snapshots_at_or_before-agrees :
      (db : String) (timestamps : List ℕ) (s : Session F)
      → s.faults ≡ []
      → (points : Points F) × (get_latest_snapshots_at_or_before db timestamps s ≡ (ok points, s))
        × ((ts : ℕ)
            → Elem ts timestamps
            → (point : Option (QuerySnapshotPoint F)) × (get_latest_snapshot_at_or_before db ts s
                ≡ (ok point, s))
              × (get points ts ≡ some point))
        × ((ts : ℕ) → ¬ Elem ts timestamps → get points ts ≡ none)
  unfolding get
  get_latest_snapshots_at_or_before-agrees db timestamps s calm = (
    put_all (λ ts. ts) (λ ts. latest_point db ts s.tables) (unique timestamps) [],
    get_latest_snapshots_at_or_before_lem db timestamps s calm,
    λ ts at. (
      latest_point db ts s.tables,
      get_latest_snapshot_at_or_before_lem db ts s calm,
      entry ts ∙ rw (has-Elem ts (unique timestamps) (Elem-unique ts timestamps at)),
    ),
    λ ts out. entry ts ∙ missing ts out (Bool-cases (has (unique timestamps) ts)),
  )
    where
      entry :
          (ts : ℕ)
          → get (put_all (λ k. k) (λ k. latest_point db k s.tables) (unique timestamps) []) ts
            ≡ (if has (unique timestamps) ts then some (latest_point db ts s.tables) else none)
      entry ts = get-put_all (λ k. latest_point db k s.tables) (unique timestamps) [] ts

      missing :
          (ts : ℕ)
          → ¬ Elem ts timestamps
          → (has (unique timestamps) ts ≡ true) ⊎ (has (unique timestamps) ts ≡ false)
          → (if has (unique timestamps) ts then some (latest_point db ts s.tables) else none) ≡ none
      missing ts out (inl t) = absurd (out (Elem-of_unique ts timestamps (Elem-has ts _ t)))
      missing ts out (inr f) = rw f
