-- ===== src/Metrics/Fallback/Lines.antt =====
-- The lines of the fallback text.
use mathlib.Core.List.{append_assoc}
use pg_monitor.Prelude.{
  ℕ, ◌≡◌, refl, ap, ◌∙◌, String, List, [], ◌∷◌, ◌++◌, Bool, true, ◌==◌, if◌then◌else◌, All,
  All-append, All-concat, concat, ◌≢◌, not, ◌&&◌, arith,
}
use pg_monitor.Prelude.Floats.{Floats}
use pg_monitor.Prelude.Text.{Text, codes, newline, join_lines, Lacks}
use pg_monitor.Prelude.Text.Decimal.{int_text-Lacks}
use pg_monitor.Metrics.Models.{RuntimeDatabaseMetrics, RuntimeMetricsState, Numbers}
use pg_monitor.Metrics.Escape.{escape_label}
use pg_monitor.Metrics.Escape.RoundTrip.{escape_label-Lacks}
use pg_monitor.Metrics.Exporter.{age_seconds, or_zero_f, end_lines}
use pg_monitor.Metrics.Fallback.{
  server_labels, database_labels, sample_lines, gauge_lines, database_texts, server_texts,
  database_lines, databases_lines, server_lines, fallback_lines, render_fallback,
}

extend : ℕ → List Text → List Text
extend c [] = (c ∷ []) ∷ []
extend c (line ∷ rest) = (c ∷ line) ∷ rest

-- The lines that a reader of the text sees: each is ended by a newline.
unfoldable pub lines_of : Text → List Text
unfolding extend
lines_of [] = []
lines_of (c ∷ s) = if c == newline then [] ∷ lines_of s else extend c (lines_of s)

lines_of-line :
    (line rest : Text)
    → Lacks newline line
    → lines_of (line ++ newline ∷ rest) ≡ line ∷ lines_of rest
unfolding lines_of extend
lines_of-line [] rest h = refl
lines_of-line (c ∷ line) rest h = ground (arith, lines_of-line line rest h.1)

lines_of-join :
    (line : Text) (lines : List Text)
    → All (Lacks newline) (line ∷ lines)
    → lines_of (join_lines (line ∷ lines) ++ newline ∷ []) ≡ line ∷ lines
unfolding lines_of join_lines
lines_of-join line [] h = lines_of-line line [] h.0
lines_of-join line (next ∷ lines) h = rw append_assoc (
    lines_of-line line (join_lines (next ∷ lines) ++ newline ∷ []) h.0
    ∙ ap (◌∷◌ line) (lines_of-join next lines h.1))

no_newline : Text → Bool
no_newline [] = true
no_newline (c ∷ s) = not (c == newline) && no_newline s

no_newline-Lacks : (s : Text) → no_newline s ≡ true → Lacks newline s
unfolding no_newline
no_newline-Lacks [] h = tt
no_newline-Lacks (c ∷ s) h = (ground arith, no_newline-Lacks s (ground arith))

-- Pieces of a text without a newline give a text without one.
pieces : (pieces : List Text) → All (Lacks newline) pieces → Lacks newline (concat pieces)
pieces ps h = All-concat (λ c. c ≢ newline) ps h

sample_lines-Lacks :
    (name : String) (labels value : Text)
    → no_newline (codes name) ≡ true
    → Lacks newline labels
    → Lacks newline value
    → All (Lacks newline) (sample_lines name labels value)
unfolding sample_lines no_newline
sample_lines-Lacks name labels value hn hl hv =
    let named = no_newline-Lacks (codes name) hn in
    (
      pieces (codes "# TYPE " ∷ codes name ∷ codes " gauge" ∷ []) (
        no_newline-Lacks (codes "# TYPE ") refl,
        (named, (no_newline-Lacks (codes " gauge") refl, tt)),
      ),
      (
        pieces (codes name ∷ codes "{" ∷ labels ∷ codes "} " ∷ value ∷ []) (
          named,
          (no_newline-Lacks (codes "{") refl, (hl, (no_newline-Lacks (codes "} ") refl, (hv, tt)))),
        ),
        tt,
      ),
    )

server_labels-Lacks : (db_identifier : String) → Lacks newline (server_labels db_identifier)
unfolding server_labels no_newline
server_labels-Lacks db_identifier =
    pieces (codes "db_identifier=\"" ∷ escape_label (codes db_identifier) ∷ codes "\"" ∷ []) (
      no_newline-Lacks (codes "db_identifier=\"") refl,
      (escape_label-Lacks (codes db_identifier), (no_newline-Lacks (codes "\"") refl, tt)),
    )

database_labels-Lacks :
    (labels : Text) (datname : String)
    → Lacks newline labels
    → Lacks newline (database_labels labels datname)
unfolding database_labels no_newline
database_labels-Lacks labels datname h =
    pieces (labels ∷ codes ",datname=\"" ∷ escape_label (codes datname) ∷ codes "\"" ∷ []) (
      h,
      (
        no_newline-Lacks (codes ",datname=\"") refl,
        (escape_label-Lacks (codes datname), (no_newline-Lacks (codes "\"") refl, tt)),
      ),
    )

gauge_lines-Lacks :
    (labels : Text) (gauges : List (String × Text))
    → Lacks newline labels
    → All (λ g. (no_newline (codes g.0) ≡ true) × Lacks newline g.1) gauges
    → All (Lacks newline) (gauge_lines labels gauges)
unfolding gauge_lines
gauge_lines-Lacks labels [] h k = tt
gauge_lines-Lacks labels ((name, value) ∷ rest) h k =
    All-append _ (sample_lines name labels value) (gauge_lines labels rest)
      (sample_lines-Lacks name labels value k.0.0 h k.0.1) (gauge_lines-Lacks labels rest h k.1)

-- What a gauge writes has no newline.
abbrev IsWritten : String × Text → Type 0
IsWritten g = (no_newline (codes g.0) ≡ true) × Lacks newline g.1

database_texts-IsWritten : (db : RuntimeDatabaseMetrics) → All IsWritten (database_texts db)
unfolding database_texts no_newline
database_texts-IsWritten db = (
  (refl, int_text-Lacks db.numbackends),
  (
    (refl, int_text-Lacks db.xact_commit),
    (
      (refl, int_text-Lacks db.xact_rollback),
      (
        (refl, int_text-Lacks db.blks_read),
        ((refl, int_text-Lacks db.blks_hit), ((refl, int_text-Lacks db.deadlocks), tt)),
      ),
    ),
  ),
)

databases_lines-Lacks :
    (labels : Text) (dbs : List RuntimeDatabaseMetrics)
    → Lacks newline labels
    → All (Lacks newline) (databases_lines labels dbs)
unfolding databases_lines database_lines
databases_lines-Lacks labels [] h = tt
databases_lines-Lacks labels (db ∷ dbs) h =
    All-append _ (database_lines labels db) (databases_lines labels dbs)
      (gauge_lines-Lacks (database_labels labels db.datname) (database_texts db)
        (database_labels-Lacks labels db.datname h) (database_texts-IsWritten db))
      (databases_lines-Lacks labels dbs h)

module _ {F : Type 0} ⦃f : Floats F⦄ ⦃n : Numbers F⦄ where
  server_texts-IsWritten :
      (observed_at : ℕ) (state : RuntimeMetricsState F)
      → All IsWritten (server_texts observed_at state)
  unfolding server_texts no_newline
  server_texts-IsWritten observed_at state = (
    (refl, int_text-Lacks state.active_connections),
    (
      (refl, int_text-Lacks state.blocked_sessions),
      (
        (refl, n.float_text-Lacks (or_zero_f state.longest_tx_duration_s)),
        (
          (refl, int_text-Lacks state.waiting_locks),
          (
            (refl, int_text-Lacks state.granted_locks),
            ((refl, n.float_text-Lacks (age_seconds observed_at state)), tt),
          ),
        ),
      ),
    ),
  )

  fallback_lines-Lacks :
      (observed_at : ℕ) (states : List (RuntimeMetricsState F))
      → All (Lacks newline) (fallback_lines observed_at states)
  unfolding fallback_lines server_lines
  fallback_lines-Lacks observed_at [] = tt
  fallback_lines-Lacks observed_at (state ∷ rest) =
      let hl = server_labels-Lacks state.db_identifier in
      All-append _ (server_lines observed_at state) _
        (gauge_lines-Lacks (server_labels state.db_identifier) (server_texts observed_at state) hl
          (server_texts-IsWritten observed_at state))
        (All-append _ (databases_lines (server_labels state.db_identifier) state.database) _
          (databases_lines-Lacks (server_labels state.db_identifier) state.database hl)
          (All-append _ (fallback_lines observed_at rest) [] (fallback_lines-Lacks observed_at rest)
            tt))

  -- For every list of states but the empty one, whatever characters the names of servers and databases have, a
  -- reader that splits the fallback text at its newlines gets exactly the lines that were written: a TYPE line and a
  -- sample for each of the six gauges of each server and of each of its databases.
  pub lines_of-render_fallback :
      (state : RuntimeMetricsState F) (rest : List (RuntimeMetricsState F)) (observed_at : ℕ)
      → lines_of (render_fallback (state ∷ rest) observed_at)
        ≡ fallback_lines observed_at (state ∷ rest)
  unfolding render_fallback end_lines fallback_lines server_lines sample_lines
  lines_of-render_fallback state rest observed_at =
      lines_of-join _ _ (fallback_lines-Lacks observed_at (state ∷ rest))
