-- ===== src/Collector/Models/Required.antt =====
-- What the rows that collector/models.py accepts have.
use pg_monitor.Prelude.{◌≡◌, refl, String, Option, none, some, List, [], ◌∷◌, All}
use pg_monitor.Prelude.Int.{ℤ}
use pg_monitor.Prelude.Dict.{get}
use pg_monitor.Prelude.Eq.{String_eq}
use pg_monitor.Exn.{Result, ok, err, >>=-ok}
use pg_monitor.Collector.Models.{
  Objects, FloatObjects, Row, StatementMetric, LocksSnapshot, DatabaseMetric, database_from_row,
  require_some, require_value, to_int, to_str, to_float, locks_from_row, statement_from_row,
}

-- The row has a value under the key that is not NULL.
abbrev pub IsThere : {V : Type 0} → Row V → String → Type 0
IsThere {V} row key = (v : V) × (get row key ≡ some (some v))

require_some-ok :
    {V : Type 0} (o : Option (Option V)) (v : V) → require_some o ≡ ok v → o ≡ some (some v)
unfolding require_some
require_some-ok none v h = cc
require_some-ok (some none) v h = cc
require_some-ok (some (some w)) v h = cc

module _ {V : Type 0} ⦃py : Objects V⦄ (row : Row V) (key : String) where
  to_int-IsThere : (n : ℤ) → to_int row key ≡ ok n → IsThere row key
  unfolding to_int require_value
  to_int-IsThere n h =
      let (v, _, e) = >>=-ok (require_some (get row key)) py.int_of h in (v, require_some-ok _ v e)

  to_str-IsThere : (n : String) → to_str row key ≡ ok n → IsThere row key
  unfolding to_str require_value
  to_str-IsThere n h =
      let (v, _, e) = >>=-ok (require_some (get row key)) py.str_of h in (v, require_some-ok _ v e)

  module _ {F : Type 0} ⦃fp : FloatObjects F V⦄ where
    to_float-IsThere : (x : F) → to_float row key ≡ ok x → IsThere row key
    unfolding to_float require_value
    to_float-IsThere x h =
        let (v, _, e) = >>=-ok (require_some (get row key)) fp.float_of h in
        (v, require_some-ok _ v e)

-- `P`, if the result is no error.
abbrev pub IfOk : {A : Type 0} → Result A → Type 0 → Type 0
IfOk (ok a) P = P
IfOk (err e) P = Unit

if_ok : {A P : Type 0} (r : Result A) → ((a : A) → r ≡ ok a → P) → IfOk r P
if_ok (ok a) h = h a refl
if_ok (err e) h = tt

abbrev pub locks_keys : List String
locks_keys = "waiting_locks" ∷ "granted_locks" ∷ []

abbrev pub database_keys : List String
database_keys =
    "datid" ∷ "datname" ∷ "numbackends" ∷ "xact_commit" ∷ "xact_rollback" ∷ "blks_read" ∷ "blks_hit"
    ∷ "deadlocks" ∷ []

abbrev pub statement_keys : List String
statement_keys =
    "queryid" ∷ "dbid" ∷ "userid" ∷ "query" ∷ "calls" ∷ "total_exec_time_ms" ∷ "mean_exec_time_ms"
    ∷ "rows" ∷ "shared_blks_hit" ∷ "shared_blks_read" ∷ "shared_blks_dirtied"
    ∷ "shared_blks_written" ∷ []

module _ {V : Type 0} ⦃py : Objects V⦄ (row : Row V) where
  locks_from_row-All :
      (l : LocksSnapshot) → locks_from_row row ≡ ok l → All (IsThere row) locks_keys
  unfolding locks_from_row
  locks_from_row-All l h =
      let (v₁, h₁, e₁) = >>=-ok (to_int row "waiting_locks") _ h in
      let (v₂, h₂, e₂) = >>=-ok (to_int row "granted_locks") _ h₁ in
      (to_int-IsThere row "waiting_locks" v₁ e₁, (to_int-IsThere row "granted_locks" v₂ e₂, tt))

  database_from_row-All :
      (d : DatabaseMetric) → database_from_row row ≡ ok d → All (IsThere row) database_keys
  unfolding database_from_row
  database_from_row-All d h =
      let (v₁, h₁, e₁) = >>=-ok (to_int row "datid") _ h in
      let (v₂, h₂, e₂) = >>=-ok (to_str row "datname") _ h₁ in
      let (v₃, h₃, e₃) = >>=-ok (to_int row "numbackends") _ h₂ in
      let (v₄, h₄, e₄) = >>=-ok (to_int row "xact_commit") _ h₃ in
      let (v₅, h₅, e₅) = >>=-ok (to_int row "xact_rollback") _ h₄ in
      let (v₆, h₆, e₆) = >>=-ok (to_int row "blks_read") _ h₅ in
      let (v₇, h₇, e₇) = >>=-ok (to_int row "blks_hit") _ h₆ in
      let (v₈, h₈, e₈) = >>=-ok (to_int row "deadlocks") _ h₇ in
      (
        to_int-IsThere row "datid" v₁ e₁,
        (
          to_str-IsThere row "datname" v₂ e₂,
          (
            to_int-IsThere row "numbackends" v₃ e₃,
            (
              to_int-IsThere row "xact_commit" v₄ e₄,
              (
                to_int-IsThere row "xact_rollback" v₅ e₅,
                (
                  to_int-IsThere row "blks_read" v₆ e₆,
                  (to_int-IsThere row "blks_hit" v₇ e₇, (to_int-IsThere row "deadlocks" v₈ e₈, tt)),
                ),
              ),
            ),
          ),
        ),
      )

module _ {F V : Type 0} ⦃py : Objects V⦄ ⦃fp : FloatObjects F V⦄ (row : Row V) where
  statement_from_row-All :
      (m : StatementMetric F) → statement_from_row row ≡ ok m → All (IsThere row) statement_keys
  unfolding statement_from_row
  statement_from_row-All m h =
      let (v₁, h₁, e₁) = >>=-ok (to_str row "queryid") _ h in
      let (v₂, h₂, e₂) = >>=-ok (to_int row "dbid") _ h₁ in
      let (v₃, h₃, e₃) = >>=-ok (to_int row "userid") _ h₂ in
      let (v₄, h₄, e₄) = >>=-ok (to_str row "query") _ h₃ in
      let (v₅, h₅, e₅) = >>=-ok (to_int row "calls") _ h₄ in
      let (v₆, h₆, e₆) = >>=-ok (to_float row "total_exec_time_ms") _ h₅ in
      let (v₇, h₇, e₇) = >>=-ok (to_float row "mean_exec_time_ms") _ h₆ in
      let (v₈, h₈, e₈) = >>=-ok (to_int row "rows") _ h₇ in
      let (v₉, h₉, e₉) = >>=-ok (to_int row "shared_blks_hit") _ h₈ in
      let (v₁₀, h₁₀, e₁₀) = >>=-ok (to_int row "shared_blks_read") _ h₉ in
      let (v₁₁, h₁₁, e₁₁) = >>=-ok (to_int row "shared_blks_dirtied") _ h₁₀ in
      let (v₁₂, h₁₂, e₁₂) = >>=-ok (to_int row "shared_blks_written") _ h₁₁ in
      (
        to_str-IsThere row "queryid" v₁ e₁,
        (
          to_int-IsThere row "dbid" v₂ e₂,
          (
            to_int-IsThere row "userid" v₃ e₃,
            (
              to_str-IsThere row "query" v₄ e₄,
              (
                to_int-IsThere row "calls" v₅ e₅,
                (
                  to_float-IsThere row "total_exec_time_ms" v₆ e₆,
                  (
                    to_float-IsThere row "mean_exec_time_ms" v₇ e₇,
                    (
                      to_int-IsThere row "rows" v₈ e₈,
                      (
                        to_int-IsThere row "shared_blks_hit" v₉ e₉,
                        (
                          to_int-IsThere row "shared_blks_read" v₁₀ e₁₀,
                          (
                            to_int-IsThere row "shared_blks_dirtied" v₁₁ e₁₁,
                            (to_int-IsThere row "shared_blks_written" v₁₂ e₁₂, tt),
                          ),
                        ),
                      ),
                    ),
                  ),
                ),
              ),
            ),
          ),
        ),
      )

module _ (F : Type 0) {V : Type 0} ⦃py : Objects V⦄ ⦃fp : FloatObjects F V⦄ (row : Row V) where
  -- A row that gives a metric or a snapshot of locks has, under each of its keys, a value that is not NULL.
  pub from_row-IsThere :
      IfOk (statement_from_row {F = F} row) (All (IsThere row) statement_keys)
      × IfOk (database_from_row row) (All (IsThere row) database_keys)
      × IfOk (locks_from_row row) (All (IsThere row) locks_keys)
  from_row-IsThere = (
    if_ok (statement_from_row {F = F} row) (statement_from_row-All row),
    if_ok (database_from_row row) (database_from_row-All row),
    if_ok (locks_from_row row) (locks_from_row-All row),
  )
