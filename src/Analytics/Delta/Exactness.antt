-- ===== src/Analytics/Delta/Exactness.antt =====
-- Which rows query_analytics/delta.py keeps, said of the rows and not of the differences.
use mathlib.Core.Bool.{false≢true}
use pg_monitor.Prelude.{
  subst, ◌≡◌, refl, sym, ap, ◌∙◌, ◌↔◌, inl, inr, Bool, true, false, Option, none, some, List, [],
  ◌∷◌, arith, Elem, Bool-cases, not, ◌&&◌, ◌||◌, if◌then◌else◌,
}
use pg_monitor.Prelude.Int.{ℤ, pos, ◌≤ℤ◌, ◌-ℤ◌, ltb_ℤ, eqb_ℤ, -ℤ_parts, eq_of_parts}
use pg_monitor.Prelude.Eq.{◌=?◌}
use pg_monitor.Prelude.Dict.{Dict, get, put, put_all, get-put}
use pg_monitor.Prelude.Floats.{Floats}
use pg_monitor.Storage.Orm.{QuerySnapshotRow, QuerySnapshotPoint}
use pg_monitor.Analytics.Models.{QueryDelta}
use pg_monitor.Analytics.Delta.{
  RowKey, RowKey_eq, row_key, index_rows, start_index, or_zero, row_delta, has_reset, is_unchanged,
  collect_deltas, build_query_deltas,
}

or₇_false :
    (a b c d e g h : Bool)
    → (a || b || c || d || e || g || h) ≡ false
    → (a ≡ false)
      × (b ≡ false)
      × (c ≡ false)
      × (d ≡ false)
      × (e ≡ false)
      × (g ≡ false)
      × (h ≡ false)
or₇_false a b c d e g h p = ground arith

false_or₇ :
    (a b c d e g h : Bool)
    → (a ≡ false)
      × (b ≡ false)
      × (c ≡ false)
      × (d ≡ false)
      × (e ≡ false)
      × (g ≡ false)
      × (h ≡ false)
    → (a || b || c || d || e || g || h) ≡ false
false_or₇ a b c d e g h p = ground arith

and₇_true :
    (a b c d e g h : Bool)
    → (a && b && c && d && e && g && h) ≡ true
    → (a ≡ true) × (b ≡ true) × (c ≡ true) × (d ≡ true) × (e ≡ true) × (g ≡ true) × (h ≡ true)
and₇_true a b c d e g h p = ground arith

true_and₇ :
    (a b c d e g h : Bool)
    → (a ≡ true) × (b ≡ true) × (c ≡ true) × (d ≡ true) × (e ≡ true) × (g ≡ true) × (h ≡ true)
    → (a && b && c && d && e && g && h) ≡ true
true_and₇ a b c d e g h p = ground arith

and_true : (a b : Bool) → (a && b) ≡ true → (a ≡ true) × (b ≡ true)
and_true a b h = ground arith

true_and : (a b : Bool) → a ≡ true → b ≡ true → (a && b) ≡ true
true_and a b h k = ground arith

no_change : (a b : ℤ) → eqb_ℤ (a -ℤ b) (pos 0) ≡ true → a ≡ b
no_change a b h = ground (arith, -ℤ_parts a b, eq_of_parts a b)

change_none : (a b : ℤ) → a ≡ b → eqb_ℤ (a -ℤ b) (pos 0) ≡ true
change_none a b h = ground (arith, -ℤ_parts a b)

not_below : (a b : ℤ) → ltb_ℤ (a -ℤ b) (pos 0) ≡ false → b ≤ℤ a
not_below a b h = ground (arith, -ℤ_parts a b)

below_not : (a b : ℤ) → b ≤ℤ a → ltb_ℤ (a -ℤ b) (pos 0) ≡ false
below_not a b h = ground (arith, -ℤ_parts a b)

not-false : (b : Bool) → not b ≡ false → b ≡ true
not-false b h = ground arith

module _ {F : Type 0} where
  -- The last row with a key.
  abbrev pub last_with : RowKey → List (QuerySnapshotRow F) → Option (QuerySnapshotRow F)
  last_with k [] = none
  last_with k (row ∷ rows) = elim (last_with k rows) [
    | some later ↦ some later
    | none ↦ if row_key row =? k then some row else none
  ]

  abbrev pub start_row : Option (QuerySnapshotPoint F) → RowKey → Option (QuerySnapshotRow F)
  start_row none k = none
  start_row (some point) k = last_with k point.rows

  or_else : Option (QuerySnapshotRow F) → Option (QuerySnapshotRow F) → Option (QuerySnapshotRow F)
  or_else (some a) b = some a
  or_else none b = b

  get-put_all :
      (k : RowKey) (rows : List (QuerySnapshotRow F)) (d : Dict RowKey (QuerySnapshotRow F))
      → get (put_all row_key (λ row. row) rows d) k ≡ or_else (last_with k rows) (get d k)
  unfolding put_all or_else
  get-put_all k [] d = refl
  get-put_all k (row ∷ rows) d =
      get-put_all k rows (put d (row_key row) row) ∙ ground (arith, get-put d (row_key row) k row)

  -- The dictionary of the start point holds the last row of each key.
  pub get-start_index :
      (point : Option (QuerySnapshotPoint F)) (k : RowKey)
      → get (start_index point) k ≡ start_row point k
  unfolding start_index index_rows get or_else
  get-start_index none k = refl
  get-start_index (some point) k = get-put_all k point.rows [] ∙ ground arith

  module _ ⦃f : Floats F⦄ where
    -- No counter went down from the start row (zeros, if there is none).
    pub record Advanced (old : Option (QuerySnapshotRow F)) (new : QuerySnapshotRow F)
        : Type 0 where
      pub calls_up : or_zero (pos 0) (λ r. r.calls) old ≤ℤ new.calls
      pub time_up :
          f.le (or_zero f.zero_f (λ r. r.total_exec_time_ms) old) new.total_exec_time_ms ≡ true
      pub rows_up : or_zero (pos 0) (λ r. r.rows) old ≤ℤ new.rows
      pub hit_up : or_zero (pos 0) (λ r. r.shared_blks_hit) old ≤ℤ new.shared_blks_hit
      pub read_up : or_zero (pos 0) (λ r. r.shared_blks_read) old ≤ℤ new.shared_blks_read
      pub dirtied_up : or_zero (pos 0) (λ r. r.shared_blks_dirtied) old ≤ℤ new.shared_blks_dirtied
      pub written_up : or_zero (pos 0) (λ r. r.shared_blks_written) old ≤ℤ new.shared_blks_written

    -- All counters are what they were.
    pub record Same (old : Option (QuerySnapshotRow F)) (new : QuerySnapshotRow F) : Type 0 where
      pub calls_same : new.calls ≡ or_zero (pos 0) (λ r. r.calls) old
      pub time_le :
          f.le new.total_exec_time_ms (or_zero f.zero_f (λ r. r.total_exec_time_ms) old) ≡ true
      pub time_ge :
          f.le (or_zero f.zero_f (λ r. r.total_exec_time_ms) old) new.total_exec_time_ms ≡ true
      pub rows_same : new.rows ≡ or_zero (pos 0) (λ r. r.rows) old
      pub hit_same : new.shared_blks_hit ≡ or_zero (pos 0) (λ r. r.shared_blks_hit) old
      pub read_same : new.shared_blks_read ≡ or_zero (pos 0) (λ r. r.shared_blks_read) old
      pub dirtied_same : new.shared_blks_dirtied ≡ or_zero (pos 0) (λ r. r.shared_blks_dirtied) old
      pub written_same : new.shared_blks_written ≡ or_zero (pos 0) (λ r. r.shared_blks_written) old

    pub Advanced-has_reset :
        (old : Option (QuerySnapshotRow F)) (new : QuerySnapshotRow F)
        → has_reset (row_delta old new) ≡ false
        → Advanced old new
    unfolding has_reset row_delta
    Advanced-has_reset old new h =
        let t = or₇_false _ _ _ _ _ _ _ h in
        record {
          calls_up = not_below _ _ t.0;
          time_up = sym (f.zero-le_sub _ _) ∙ not-false _ t.1;
          rows_up = not_below _ _ t.2;
          hit_up = not_below _ _ t.3;
          read_up = not_below _ _ t.4;
          dirtied_up = not_below _ _ t.5;
          written_up = not_below _ _ t.6;
        }

    pub has_reset-Advanced :
        (old : Option (QuerySnapshotRow F)) (new : QuerySnapshotRow F)
        → Advanced old new
        → has_reset (row_delta old new) ≡ false
    unfolding has_reset row_delta
    has_reset-Advanced old new a = false_or₇ _ _ _ _ _ _ _ (
      below_not _ _ a.calls_up,
      ap not (f.zero-le_sub _ _ ∙ a.time_up),
      below_not _ _ a.rows_up,
      below_not _ _ a.hit_up,
      below_not _ _ a.read_up,
      below_not _ _ a.dirtied_up,
      below_not _ _ a.written_up,
    )

    pub Same-is_unchanged :
        (old : Option (QuerySnapshotRow F)) (new : QuerySnapshotRow F)
        → is_unchanged (row_delta old new) ≡ true
        → Same old new
    unfolding is_unchanged row_delta
    Same-is_unchanged old new h =
        let t = and₇_true _ _ _ _ _ _ _ h in
        let e = and_true _ _ t.1 in
        record {
          calls_same = no_change _ _ t.0;
          time_le = sym (f.sub-le_zero _ _) ∙ e.0;
          time_ge = sym (f.zero-le_sub _ _) ∙ e.1;
          rows_same = no_change _ _ t.2;
          hit_same = no_change _ _ t.3;
          read_same = no_change _ _ t.4;
          dirtied_same = no_change _ _ t.5;
          written_same = no_change _ _ t.6;
        }

    pub is_unchanged-Same :
        (old : Option (QuerySnapshotRow F)) (new : QuerySnapshotRow F)
        → Same old new
        → is_unchanged (row_delta old new) ≡ true
    unfolding is_unchanged row_delta
    is_unchanged-Same old new h = true_and₇ _ _ _ _ _ _ _ (
      change_none _ _ h.calls_same,
      true_and _ _ (f.sub-le_zero _ _ ∙ h.time_le) (f.zero-le_sub _ _ ∙ h.time_ge),
      change_none _ _ h.rows_same,
      change_none _ _ h.hit_same,
      change_none _ _ h.read_same,
      change_none _ _ h.dirtied_same,
      change_none _ _ h.written_same,
    )

    -- Of a row of the end point: the delta that is kept for it.
    pub record Kept (old : Option (QuerySnapshotRow F)) (new : QuerySnapshotRow F)
        (d : QueryDelta F) : Type 0 where
      pub is_delta : d ≡ row_delta old new
      pub advanced : Advanced old new
      pub moved : ¬ Same old new

    module _ (start_rows : Dict RowKey (QuerySnapshotRow F)) where
      abbrev before : QuerySnapshotRow F → Option (QuerySnapshotRow F)
      before row = get start_rows (row_key row)

      collect_deltas_sound :
          (d : QueryDelta F) (rows : List (QuerySnapshotRow F))
          → Elem d (collect_deltas start_rows rows)
          → (row : QuerySnapshotRow F) × Elem row rows × Kept (before row) row d
      unfolding collect_deltas
      collect_deltas_sound d [] m = absurd m
      collect_deltas_sound d (row ∷ rows) m =
          elim (Bool-cases (has_reset (row_delta (before row) row))) [
            | inl reset ↦ later (collect_deltas_sound d rows (rw reset at m))
            | inr up ↦ elim (Bool-cases (is_unchanged (row_delta (before row) row))) [
              | inl same ↦ later (collect_deltas_sound d rows (rw (up, same) at m))
              | inr moved ↦ elim (rw (up, moved) at m) [
                | inl e ↦ (
                  row,
                  inl refl,
                  record {
                    is_delta = e;
                    advanced = Advanced-has_reset _ _ up;
                    moved = λ s. false≢true (sym moved ∙ is_unchanged-Same _ _ s);
                  },
                )
                | inr r ↦ later (collect_deltas_sound d rows r)
              ]
            ]
          ]
        where
          later :
              (r : QuerySnapshotRow F) × Elem r rows × Kept (before r) r d
              → (r : QuerySnapshotRow F) × Elem r (row ∷ rows) × Kept (before r) r d
          later (r, m, k) = (r, inr m, k)

      collect_deltas-complete :
          (d : QueryDelta F) (row : QuerySnapshotRow F) (rows : List (QuerySnapshotRow F))
          → Elem row rows
          → Kept (before row) row d
          → Elem d (collect_deltas start_rows rows)
      unfolding collect_deltas
      collect_deltas-complete d row [] m k = absurd m
      collect_deltas-complete d row (r ∷ rows) (inr m) k =
          elim (Bool-cases (has_reset (row_delta (before r) r))) [
            | inl reset ↦ rw reset (collect_deltas-complete d row rows m k)
            | inr up ↦ elim (Bool-cases (is_unchanged (row_delta (before r) r))) [
              | inl same ↦ rw (up, same) (collect_deltas-complete d row rows m k)
              | inr moved ↦ rw (up, moved) (inr (collect_deltas-complete d row rows m k))
            ]
          ]
      collect_deltas-complete d row (r ∷ rows) (inl e) k =
          let k' = subst (λ x. Kept (before x) x d) e k in
          elim (Bool-cases (is_unchanged (row_delta (before r) r))) [
            | inl same ↦ absurd (k'.moved (Same-is_unchanged _ _ same))
            | inr moved ↦ rw (has_reset-Advanced _ _ k'.advanced, moved) (inl k'.is_delta)
          ]

    -- A delta is returned exactly if it is that of a row of the end point against the last row of the start
    -- point with the same key (zeros, if there is none), no counter of the row went down and not all are the same.
    pub build_query_deltas-exact :
        (start : Option (QuerySnapshotPoint F)) (end : QuerySnapshotPoint F) (d : QueryDelta F)
        → Elem d (build_query_deltas start (some end)) ↔ (
            (row : QuerySnapshotRow F) × Elem row end.rows
            × Kept (start_row start (row_key row)) row d)
    unfolding build_query_deltas
    build_query_deltas-exact start end d = (
      λ m.
          let (row, at, k) = collect_deltas_sound (start_index start) d end.rows m in
          (row, at, subst (λ o. Kept o row d) (get-start_index start (row_key row)) k),
      λ (row, at, k).
          collect_deltas-complete (start_index start) d row end.rows at
            (subst (λ o. Kept o row d) (sym (get-start_index start (row_key row))) k),
    )
