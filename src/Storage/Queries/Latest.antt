-- ===== src/Storage/Queries/Latest.antt =====
-- get_latest_snapshot_at_or_before of storage/repositories.py.
use pg_monitor.Prelude.{
  ℕ, String, Bool, ◌&&◌, Option, none, some, List, [], ◌∷◌, map, leb, filter, if◌then◌else◌,
}
use pg_monitor.Prelude.Int.{leb_ℤ}
use pg_monitor.Prelude.Eq.{ℕ_eq, ℤ_eq, String_eq, ◌=?◌}
use pg_monitor.Prelude.Order.{IsPreorder, lex, on}
use pg_monitor.Prelude.Sort.{sort_by}
use pg_monitor.Exn.{storage_read_error}
use pg_monitor.Storage.Orm.{QueryMetricSnapshotOrm, QuerySnapshotPoint, Tables, from_orm}
use pg_monitor.Storage.Session.{Db, pure, select, catching, ◌>>=◌}

-- How the database orders texts.
pub record Collation : Type 0 where
  pub le_text : String → String → Bool
  pub le_text-IsPreorder : IsPreorder le_text

-- `func.max(captured_at)`: NULL over no rows
unfoldable pub max_of : List ℕ → Option ℕ
max_of [] = none
max_of (x ∷ xs) = elim (max_of xs) [ none ↦ some x | some m ↦ some (if leb x m then m else x) ]

module _ {F : Type 0} where
  -- `where db_identifier == db` and a condition on `captured_at`
  abbrev pub of_database : String → (ℕ → Bool) → QueryMetricSnapshotOrm F → Bool
  of_database db when row = (row.db_identifier =? db) && when row.captured_at

module _ {F : Type 0} where
  unfoldable pub latest_ts_query : String → ℕ → Tables F → Option ℕ
  unfolding max_of
  latest_ts_query db ts t =
      max_of (
        map (λ r. r.captured_at) (filter (of_database db (λ c. leb c ts)) t.query_metric_snapshots))

module _ {F : Type 0} ⦃c : Collation⦄ where
  abbrev pub row_order : QueryMetricSnapshotOrm F → QueryMetricSnapshotOrm F → Bool
  row_order =
      lex (on (λ r. r.queryid) c.le_text) (lex (on (λ r. r.dbid) leb_ℤ) (on (λ r. r.userid) leb_ℤ))

  unfoldable pub latest_row_query : String → ℕ → Tables F → List (QueryMetricSnapshotOrm F)
  latest_row_query db at t =
      sort_by row_order (filter (of_database db (λ c. c =? at)) t.query_metric_snapshots)

  unfoldable pub rows_at : String → Option ℕ → Db F (Option (QuerySnapshotPoint F))
  unfolding latest_row_query
  rows_at db none = pure none
  rows_at db (some latest_ts) = do
    result ← select (latest_row_query db latest_ts)
    pure (some (record { captured_at = latest_ts; rows = map from_orm result }))

  unfoldable pub get_latest_snapshot_at_or_before :
      String → ℕ → Db F (Option (QuerySnapshotPoint F))
  unfolding rows_at latest_ts_query
  get_latest_snapshot_at_or_before db ts =
      catching storage_read_error
        do latest_ts ← select (latest_ts_query db ts); rows_at db latest_ts
