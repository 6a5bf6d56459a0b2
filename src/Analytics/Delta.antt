-- ===== src/Analytics/Delta.antt =====
-- query_analytics/delta.py: what each query did between two snapshots.
pub mod Exactness
pub mod SamePoint
pub mod Restored
use pg_monitor.Prelude.{
  String, ◌≡◌, ◌↔◌, Bool, true, ◌&&◌, ◌||◌, Option, none, some, List, [], ◌∷◌, arith, if◌then◌else◌,
}
use pg_monitor.Prelude.Int.{ℤ, pos, ◌-ℤ◌, ltb_ℤ, eqb_ℤ, eqb_ℤ_iff}
use pg_monitor.Prelude.Eq.{Eq, String_eq}
use pg_monitor.Prelude.Dict.{Dict, get, put_all}
use pg_monitor.Prelude.Floats.{Floats, lt_f, eq_f}
use pg_monitor.Storage.Orm.{QuerySnapshotRow, QuerySnapshotPoint}
use pg_monitor.Analytics.Models.{QueryDelta}

-- (queryid, dbid, userid)
pub record RowKey : Type 0 where
  pub queryid : String
  pub dbid : ℤ
  pub userid : ℤ

abbrev pub eqb_key : RowKey → RowKey → Bool
eqb_key a b = String_eq.beq a.queryid b.queryid && eqb_ℤ a.dbid b.dbid && eqb_ℤ a.userid b.userid

pub eqb_key_iff : (a b : RowKey) → (eqb_key a b ≡ true) ↔ (a ≡ b)
eqb_key_iff a b = ground (
  arith,
  String_eq.beq_iff a.queryid b.queryid,
  eqb_ℤ_iff a.dbid b.dbid,
  eqb_ℤ_iff a.userid b.userid,
)

instance abbrev pub RowKey_eq : Eq RowKey
RowKey_eq = record { beq = eqb_key; beq_iff = eqb_key_iff }

module _ {F : Type 0} where
  abbrev pub row_key : QuerySnapshotRow F → RowKey
  row_key row = record { queryid = row.queryid; dbid = row.dbid; userid = row.userid }

  unfoldable pub index_rows : List (QuerySnapshotRow F) → Dict RowKey (QuerySnapshotRow F)
  index_rows rows = put_all row_key (λ row. row) rows []

  -- `{} if start_point is None else _index_rows(start_point.rows)`
  unfoldable pub start_index : Option (QuerySnapshotPoint F) → Dict RowKey (QuerySnapshotRow F)
  unfolding index_rows
  start_index none = []
  start_index (some point) = index_rows point.rows

  -- `start_row.field if start_row else zero`
  abbrev pub or_zero : {A : Type 0} → A → (QuerySnapshotRow F → A) → Option (QuerySnapshotRow F) → A
  or_zero zero field none = zero
  or_zero zero field (some row) = field row

  module _ ⦃f : Floats F⦄ where
    -- The seven differences, with the mean.
    unfoldable pub row_delta : Option (QuerySnapshotRow F) → QuerySnapshotRow F → QueryDelta F
    row_delta start_row end_row =
        let calls_delta = end_row.calls -ℤ or_zero (pos 0) (λ r. r.calls) start_row in
        let total_delta =
          f.sub end_row.total_exec_time_ms
            (or_zero f.zero_f (λ r. r.total_exec_time_ms) start_row) in
        record {
          queryid = end_row.queryid;
          dbid = end_row.dbid;
          userid = end_row.userid;
          query = end_row.query;
          calls_delta = calls_delta;
          total_exec_time_ms_delta = total_delta;
          mean_exec_time_ms_delta =
              if ltb_ℤ (pos 0) calls_delta then some (f.div_int total_delta calls_delta) else none;
          rows_delta = end_row.rows -ℤ or_zero (pos 0) (λ r. r.rows) start_row;
          shared_blks_hit_delta =
              end_row.shared_blks_hit -ℤ or_zero (pos 0) (λ r. r.shared_blks_hit) start_row;
          shared_blks_read_delta =
              end_row.shared_blks_read -ℤ or_zero (pos 0) (λ r. r.shared_blks_read) start_row;
          shared_blks_dirtied_delta =
              end_row.shared_blks_dirtied -ℤ or_zero (pos 0) (λ r. r.shared_blks_dirtied) start_row;
          shared_blks_written_delta =
              end_row.shared_blks_written -ℤ or_zero (pos 0) (λ r. r.shared_blks_written) start_row;
        }

    -- The first `continue`: a counter was reset.
    unfoldable pub has_reset : QueryDelta F → Bool
    has_reset d =
        ltb_ℤ d.calls_delta (pos 0)
        || lt_f d.total_exec_time_ms_delta f.zero_f
        || ltb_ℤ d.rows_delta (pos 0)
        || ltb_ℤ d.shared_blks_hit_delta (pos 0)
        || ltb_ℤ d.shared_blks_read_delta (pos 0)
        || ltb_ℤ d.shared_blks_dirtied_delta (pos 0)
        || ltb_ℤ d.shared_blks_written_delta (pos 0)

    -- The second `continue`: nothing happened.
    unfoldable pub is_unchanged : QueryDelta F → Bool
    is_unchanged d =
        eqb_ℤ d.calls_delta (pos 0)
        && eq_f d.total_exec_time_ms_delta f.zero_f
        && eqb_ℤ d.rows_delta (pos 0)
        && eqb_ℤ d.shared_blks_hit_delta (pos 0)
        && eqb_ℤ d.shared_blks_read_delta (pos 0)
        && eqb_ℤ d.shared_blks_dirtied_delta (pos 0)
        && eqb_ℤ d.shared_blks_written_delta (pos 0)

    -- The loop over the rows of the end point.
    unfoldable pub collect_deltas :
        Dict RowKey (QuerySnapshotRow F) → List (QuerySnapshotRow F) → List (QueryDelta F)
    unfolding row_delta has_reset is_unchanged
    collect_deltas start_rows [] = []
    collect_deltas start_rows (end_row ∷ rows) =
        let d = row_delta (get start_rows (row_key end_row)) end_row in
        let rest = collect_deltas start_rows rows in
        if has_reset d then rest else if is_unchanged d then rest else d ∷ rest

    unfoldable pub build_query_deltas :
        Option (QuerySnapshotPoint F) → Option (QuerySnapshotPoint F) → List (QueryDelta F)
    unfolding collect_deltas start_index
    build_query_deltas start_point none = []
    build_query_deltas start_point (some end_point) =
        collect_deltas (start_index start_point) end_point.rows
