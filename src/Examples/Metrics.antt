-- ===== src/Examples/Metrics.antt =====
-- Runs of the model of the metrics.
use pg_monitor.Prelude.{
  ℕ, ◌≡◌, refl, inl, String, true, false, none, some, List, [], ◌∷◌, ◌++◌, filter, length, map,
}
use pg_monitor.Prelude.Int.{ℤ, pos, negsuc}
use pg_monitor.Prelude.Eq.{String_eq, =?→ne, Pair_eq, List_eq}
use pg_monitor.Prelude.Dict.{get, put}
use pg_monitor.Prelude.Floats.{Floats, ℤ_floats}
use pg_monitor.Prelude.Text.{Text, codes, quote}
use pg_monitor.Prelude.Text.Decimal.{int_text, int_text-Lacks}
use pg_monitor.Exn.{ok}
use pg_monitor.Storage.Orm.{RuntimeCurrentOrm, RuntimeDatabaseCurrentOrm}
use pg_monitor.Storage.Session.{Session}
use pg_monitor.Storage.Uow.Atomicity.{left}
use pg_monitor.Metrics.Models.{RuntimeMetricsState, Numbers}
use pg_monitor.Metrics.Escape.{escape_label, read_label}
use pg_monitor.Metrics.Escape.RoundTrip.{read_label-escape_label}
use pg_monitor.Metrics.Gauges.{snapshot_age, Gauge_eq}
use pg_monitor.Metrics.Exporter.{
  max_zero, age_seconds, set_server, set_databases, set_states, merge_prometheus_payloads,
}
use pg_monitor.Metrics.Exporter.Bounds.{snapshot_age-bounds}
use pg_monitor.Metrics.Fallback.{fallback_lines, render_fallback}
use pg_monitor.Metrics.Fallback.Lines.{lines_of, lines_of-render_fallback}
use pg_monitor.Metrics.Requests.{Observation}
use pg_monitor.Metrics.Requests.Counts.{
  total, durations, observe_all, labels_for, is_of, fresh, observe_all-counts,
}
use pg_monitor.Metrics.Service.{get_metrics_state}
use pg_monitor.Metrics.Service.Current.{named, Shows, get_metrics_state-Shows}
use pg_monitor.Examples.Data.{by_count, session_with}

-- Whole numbers of microseconds for seconds.
instance abbrev whole : Numbers ℤ
whole = record {
  float_of = λ a. a;
  total_seconds = λ a. a;
  float_text = int_text;
  float_text-Lacks = int_text-Lacks;
}

abbrev main_row : RuntimeCurrentOrm ℤ
main_row = record {
  db_identifier = "main";
  captured_at = 300;
  active_connections = pos 7;
  blocked_sessions = pos 0;
  longest_tx_duration_s = none;
  waiting_locks = pos 1;
  granted_locks = pos 4;
}

abbrev replica_row : RuntimeCurrentOrm ℤ
replica_row = record main_row { db_identifier = "replica-2"; active_connections = pos 3 }

abbrev database_row : ℕ → String → String → RuntimeDatabaseCurrentOrm
database_row id db datname = record {
  id = id;
  db_identifier = db;
  captured_at = 300;
  datid = pos 5;
  datname = datname;
  numbackends = pos 2;
  xact_commit = pos 100;
  xact_rollback = pos 1;
  blks_read = pos 10;
  blks_hit = pos 20;
  deadlocks = pos 0;
}

abbrev app : RuntimeDatabaseCurrentOrm
app = database_row 1 "main" "app"

abbrev postgres : RuntimeDatabaseCurrentOrm
postgres = database_row 2 "main" "postgres"

abbrev other_app : RuntimeDatabaseCurrentOrm
other_app = database_row 3 "replica-2" "app"

abbrev two_servers : Session ℤ
two_servers = record (session_with []) {
  committed = record (session_with []).committed {
    runtime_current = main_row ∷ replica_row ∷ [];
    runtime_database_current = app ∷ postgres ∷ other_app ∷ [];
  };
}

get_metrics_state-Shows_example :
    (states : List (RuntimeMetricsState ℤ)) × (get_metrics_state none two_servers
      ≡ (ok states, left two_servers))
    × Shows (set_states 900 states []) 900 main_row (app ∷ postgres ∷ [])
get_metrics_state-Shows_example =
    get_metrics_state-Shows two_servers refl ((=?→ne "main" "replica-2" refl, tt), (tt, tt))
      (
        (=?→ne (named app) (named postgres) refl, (=?→ne (named app) (named other_app) refl, tt)),
        ((=?→ne (named postgres) (named other_app) refl, tt), (tt, tt)),
      )
      main_row (inl refl) 900

abbrev hostile : Text
hostile = codes "a\"b\\c\nd"

escaped : escape_label hostile ≡ codes "a\\\"b\\\\c\\nd"
unfolding escape_label
escaped = refl

read_label-escape_label_example :
    read_label false (escape_label hostile ++ quote ∷ codes "} 7") ≡ some (hostile, codes "} 7")
read_label-escape_label_example = read_label-escape_label hostile (codes "} 7")

abbrev hostile_state : RuntimeMetricsState ℤ
hostile_state = record {
  captured_at = 300;
  db_identifier = "a\nb";
  active_connections = pos 7;
  blocked_sessions = pos 0;
  longest_tx_duration_s = some (pos 5);
  waiting_locks = pos 1;
  granted_locks = pos 4;
  database = [];
}

lines_of-render_fallback_example :
    lines_of (render_fallback (hostile_state ∷ []) 900) ≡ fallback_lines 900 (hostile_state ∷ [])
lines_of-render_fallback_example = lines_of-render_fallback hostile_state [] 900

-- The clock stands behind the snapshot.
age_is_zero :
    get (set_states 200 (hostile_state ∷ []) []) (snapshot_age, "a\nb" ∷ []) ≡ some (pos 0)
unfolding set_states set_server set_databases age_seconds max_zero get put
age_is_zero = refl

snapshot_age-bounds_example : Floats.le ℤ_floats (pos 0) (pos 0) ≡ true
snapshot_age-bounds_example =
    snapshot_age-bounds 200 (hostile_state ∷ []) ("a\nb" ∷ []) (pos 0) age_is_zero

abbrev request_to : String → ℕ → ℤ → Observation ℤ
request_to path status duration = record {
  method = codes "GET";
  path = codes path;
  status_code = status;
  duration_seconds = duration;
}

abbrev requests : List (Observation ℤ)
requests =
    request_to "/metrics" 200 (pos 3)
    ∷ request_to "/healthz" 200 (pos 1)
    ∷ request_to "/metrics" 200 (negsuc 4)
    ∷ request_to "/metrics" 503 (pos 2)
    ∷ []

observe_all-counts_example :
    let own = filter (is_of (codes "GET") (codes "/metrics") 200) requests in
    (total (observe_all requests fresh) (labels_for (codes "GET") (codes "/metrics") 200)
      ≡ length own)
    × (durations (observe_all requests fresh) (labels_for (codes "GET") (codes "/metrics") 200)
        ≡ map (λ o. max_zero o.duration_seconds) own)
observe_all-counts_example = observe_all-counts (codes "GET") (codes "/metrics") 200 requests

-- Payloads that are blank are left out.
merged :
    merge_prometheus_payloads (codes "a 1\n\n" ∷ codes " \n" ∷ codes "b 2\n" ∷ [])
    ≡ codes "a 1\nb 2\n"
unfolding merge_prometheus_payloads
merged = refl
