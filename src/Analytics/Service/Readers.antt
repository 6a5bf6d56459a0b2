-- ===== src/Analytics/Service/Readers.antt =====
-- The loading of points in query_analytics/service.py, with the bulk read and without it.
use mathlib.Core.Path.{◌≡◌, refl, ap, ◌∙◌}
use pg_monitor.Prelude.{ℕ, String, none, some, List, [], ◌∷◌, All-of_Elem, Elem}
use pg_monitor.Prelude.Eq.{ℕ_eq}
use pg_monitor.Prelude.Dict.{get, put, put_all, unique}
use pg_monitor.Prelude.Dict.Keys.{has-Elem, Elem-unique, get-put_all, put_all_ext}
use pg_monitor.Exn.{ok}
use pg_monitor.Storage.Orm.{Tables}
use pg_monitor.Storage.Session.{Session}
use pg_monitor.Storage.Uow.Atomicity.{entered, left, with_uow_read}
use pg_monitor.Storage.Queries.Latest.{Collation, get_latest_snapshot_at_or_before}
use pg_monitor.Storage.Queries.Grouping.{Points}
use pg_monitor.Storage.Queries.Bulk.{get_latest_snapshots_at_or_before}
use pg_monitor.Storage.Queries.Agreement.{latest_point, get_latest_snapshot_at_or_before_lem}
use pg_monitor.Storage.Queries.Agreement.Assembly.{get_latest_snapshots_at_or_before_lem}
use pg_monitor.Analytics.Service.{
  QuerySnapshotReader, load_each, load_by, load_snapshot_points, get_or_none, or_none,
}

module _ {F : Type 0} ⦃c : Collation⦄ where
  -- QuerySnapshotRepository as a reader, and a reader that offers the single read alone.
  abbrev pub repository : QuerySnapshotReader F
  repository = record {
    get_latest_snapshot_at_or_before = get_latest_snapshot_at_or_before;
    get_latest_snapshots_at_or_before = some get_latest_snapshots_at_or_before;
  }

  abbrev pub single_reader : QuerySnapshotReader F
  single_reader = record {
    get_latest_snapshot_at_or_before = get_latest_snapshot_at_or_before;
    get_latest_snapshots_at_or_before = none;
  }

  -- The points of the tables, by timestamp.
  unfoldable pub points_of : String → Tables F → List ℕ → Points F
  points_of db t timestamps = put_all (λ ts. ts) (λ ts. latest_point db ts t) timestamps []

  load_each_calm :
      (db : String) (s : Session F)
      → s.faults ≡ []
      → (timestamps : List ℕ) (d : Points F)
      → load_each single_reader db timestamps d s
        ≡ (ok (put_all (λ ts. ts) (λ ts. latest_point db ts s.tables) timestamps d), s)
  unfolding load_each put_all
  load_each_calm db s calm [] d = refl
  load_each_calm db s calm (ts ∷ rest) d =
      rw (get_latest_snapshot_at_or_before_lem db ts s calm)
        (load_each_calm db s calm rest (put d ts (latest_point db ts s.tables)))

  load_single_calm :
      (db : String) (s : Session F)
      → s.faults ≡ []
      → (timestamps : List ℕ)
      → load_by single_reader none db timestamps s ≡ (ok (points_of db s.tables timestamps), s)
  unfolding load_by points_of
  load_single_calm db s calm timestamps = load_each_calm db s calm timestamps []

  pub loaded_entry :
      (db : String) (t : Tables F) (timestamps : List ℕ) (ts : ℕ)
      → Elem ts timestamps
      → get (points_of db t (unique timestamps)) ts ≡ some (latest_point db ts t)
  unfolding points_of get
  loaded_entry db t timestamps ts at =
      get-put_all (λ k. latest_point db k t) (unique timestamps) [] ts
      ∙ rw (has-Elem ts (unique timestamps) (Elem-unique ts timestamps at))

  get_or_none-loaded :
      (db : String) (t : Tables F) (timestamps : List ℕ) (ts : ℕ)
      → Elem ts timestamps
      → get_or_none (points_of db t (unique timestamps)) ts ≡ latest_point db ts t
  get_or_none-loaded db t timestamps ts at = ap or_none (loaded_entry db t timestamps ts at)

  load_bulk_calm :
      (db : String) (s : Session F)
      → s.faults ≡ []
      → (timestamps : List ℕ)
      → load_by repository (some get_latest_snapshots_at_or_before) db timestamps s
        ≡ (ok (points_of db s.tables timestamps), s)
  unfolding load_by points_of
  load_bulk_calm db s calm timestamps =
      rw (get_latest_snapshots_at_or_before_lem db timestamps s calm) (
        ap (λ d. (ok d, s))
          (put_all_ext (λ ts. get_or_none (points_of db s.tables (unique timestamps)) ts)
            (λ ts. latest_point db ts s.tables) timestamps []
            (All-of_Elem _ timestamps (get_or_none-loaded db s.tables timestamps))))

  pub load_single :
      (db : String) (timestamps : List ℕ) (s : Session F)
      → s.faults ≡ []
      → load_snapshot_points single_reader db timestamps s
        ≡ (ok (points_of db s.committed (unique timestamps)), left s)
  unfolding load_snapshot_points
  load_single db timestamps s calm =
      with_uow_read (load_by single_reader none db (unique timestamps)) s
        (points_of db s.committed (unique timestamps)) calm
        (load_single_calm db (entered s) calm (unique timestamps))

  pub load_bulk :
      (db : String) (timestamps : List ℕ) (s : Session F)
      → s.faults ≡ []
      → load_snapshot_points repository db timestamps s
        ≡ (ok (points_of db s.committed (unique timestamps)), left s)
  unfolding load_snapshot_points
  load_bulk db timestamps s calm =
      with_uow_read
        (load_by repository (some get_latest_snapshots_at_or_before) db (unique timestamps)) s
        (points_of db s.committed (unique timestamps)) calm
        (load_bulk_calm db (entered s) calm (unique timestamps))
