-- ===== src/Analytics/Ranking.antt =====
-- The ranking of query_analytics/service.py: sorting, the limit and the result of a period.
pub mod Top
use pg_monitor.Prelude.{ℕ, suc, ◌-◌, String, Bool, Option, none, some, List, length, take}
use pg_monitor.Prelude.Int.{ℤ, pos, negsuc, leb_ℤ}
use pg_monitor.Prelude.Eq.{ℕ_eq}
use pg_monitor.Prelude.Order.{lex, on, flip}
use pg_monitor.Prelude.Sort.{sort_by}
use pg_monitor.Prelude.Floats.{Floats}
use pg_monitor.Storage.Orm.{QuerySnapshotPoint}
use pg_monitor.Analytics.Models.{
  QuerySortBy, total_exec_time_ms, calls, PeriodWindow, QueryDelta, PeriodTopQueriesResult,
}
use pg_monitor.Analytics.Delta.{build_query_deltas}

module _ {F : Type 0} ⦃f : Floats F⦄ where
  -- The order of `sorted(deltas, key=…, reverse=True)`.
  abbrev pub ranks_before : QuerySortBy → QueryDelta F → QueryDelta F → Bool
  ranks_before calls =
      flip (lex (on (λ d. d.calls_delta) leb_ℤ) (on (λ d. d.total_exec_time_ms_delta) f.le))
  ranks_before total_exec_time_ms =
      flip (lex (on (λ d. d.total_exec_time_ms_delta) f.le) (on (λ d. d.calls_delta) leb_ℤ))

  unfoldable pub sort_deltas : List (QueryDelta F) → QuerySortBy → List (QueryDelta F)
  sort_deltas deltas by = sort_by (ranks_before by) deltas

-- `xs[:limit]`: a negative limit counts from the end
unfoldable pub slice_to {ℓ} : {A : Type ℓ} → ℤ → List A → List A
slice_to (pos n) xs = take n xs
slice_to (negsuc n) xs = take (length xs - suc n) xs

module _ {F : Type 0} where
  abbrev pub captured : Option (QuerySnapshotPoint F) → Option ℕ
  captured none = none
  captured (some point) = some point.captured_at

  module _ ⦃f : Floats F⦄ where
    unfoldable pub build_period_result :
        String
        → PeriodWindow
        → Option (QuerySnapshotPoint F)
        → Option (QuerySnapshotPoint F)
        → ℤ
        → QuerySortBy
        → PeriodTopQueriesResult F
    unfolding sort_deltas slice_to
    build_period_result db_identifier window start_point end_point limit by = record {
      db_identifier = db_identifier;
      window = window;
      snapshot_start_at = captured start_point;
      snapshot_end_at = captured end_point;
      sort_by = by;
      limit = limit;
      items = slice_to limit (sort_deltas (build_query_deltas start_point end_point) by);
    }
