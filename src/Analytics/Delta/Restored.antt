-- ===== src/Analytics/Delta/Restored.antt =====
-- The counters that a delta of query_analytics/delta.py gives back.
use pg_monitor.Prelude.{◌≡◌, ◌↔◌, Option, none, some}
use pg_monitor.Prelude.Int.{ℤ, pos, ◌+ℤ◌, ◌≤ℤ◌}
use pg_monitor.Prelude.Floats.{Floats}
use pg_monitor.Storage.Orm.{QuerySnapshotRow}
use pg_monitor.Analytics.Models.{QueryDelta}

module _ {F : Type 0} where
  -- The counter of a row at the start, which is zero if there is none.
  abbrev pub counter : (QuerySnapshotRow F → ℤ) → Option (QuerySnapshotRow F) → ℤ
  counter field none = pos 0
  counter field (some row) = field row

  -- `change` is not below zero, and leads from the counter at the start to that at the end.
  abbrev pub Leads :
      (QuerySnapshotRow F → ℤ) → Option (QuerySnapshotRow F) → ℤ → QuerySnapshotRow F → Type 0
  Leads field old change row = (pos 0 ≤ℤ change) × (counter field old +ℤ change ≡ field row)

  pub record Restores (old : Option (QuerySnapshotRow F)) (row : QuerySnapshotRow F)
      (d : QueryDelta F) : Type 0 where
    pub queryid_of : d.queryid ≡ row.queryid
    pub dbid_of : d.dbid ≡ row.dbid
    pub userid_of : d.userid ≡ row.userid
    pub query_of : d.query ≡ row.query
    pub calls_lead : Leads (λ r. r.calls) old d.calls_delta row
    pub rows_lead : Leads (λ r. r.rows) old d.rows_delta row
    pub hit_lead : Leads (λ r. r.shared_blks_hit) old d.shared_blks_hit_delta row
    pub read_lead : Leads (λ r. r.shared_blks_read) old d.shared_blks_read_delta row
    pub dirtied_lead : Leads (λ r. r.shared_blks_dirtied) old d.shared_blks_dirtied_delta row
    pub written_lead : Leads (λ r. r.shared_blks_written) old d.shared_blks_written_delta row
    pub mean_of_calls : (d.mean_exec_time_ms_delta ≡ none) ↔ (d.calls_delta ≡ pos 0)
