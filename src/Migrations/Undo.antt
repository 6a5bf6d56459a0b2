-- ===== src/Migrations/Undo.antt =====
-- The inverse of an operation, and downgrades against upgrades.
use pg_monitor.Prelude.{
  ◌≡◌, refl, sym, ap, ◌∙◌, subst, String, Option, none, some, Bool, true, false, not, ◌&&◌, ◌||◌,
  List, [], ◌∷◌, ◌++◌, map, if◌then◌else◌, arith,
}
use pg_monitor.Prelude.Eq.{String_eq, ◌=?◌, =?_refl}
use pg_monitor.Prelude.Dict.{has}
use pg_monitor.Migrations.Schema.{
  ColumnType, same_type, Table, Index, Schema, Operation, create_table, create_index, drop_index,
  drop_table, alter_column, names, has_column, index_names, all, refers_to, refers, alter, apply,
  run,
}
use pg_monitor.Migrations.Revisions.{
  Revision, create_query_metric_snapshots, add_runtime_storage_tables,
  upgrade_query_metric_counters_to_bigint, upgrade, downgrade,
}
use pg_monitor.Migrations.Names.{
  filter-added, filter-unknown, all_weaken, all-append, has-more, has-new, map-append, not-refers,
}
use pg_monitor.Migrations.Alter.{alter-back, names-alter, refers_to-alter, has_column-alter}

-- The foreign keys and the indexes of a schema are of tables that are there.
abbrev pub closed : Schema → Bool
closed s = all (refers_to (names s)) s.tables && all (λ i. has (names s) i.table_name) s.indexes

-- An operation of an upgrade: tables and indexes are created, and columns altered whose existing type is what it says.
abbrev pub expected : Operation → Schema → Bool
expected (create_table t) s = true
expected (create_index i) s = true
expected (alter_column table column existing type) s =
    all
      (λ t.
        if t.name =? table
        then all (λ c. if c.name =? column then same_type c.type_of existing else true) t.columns
        else true)
      s.tables
expected _ s = false

-- The operations go through, each in the schema that it expects.
unfoldable pub goes_through : List Operation → Schema → Bool
goes_through [] s = true
goes_through (op ∷ ops) s =
    expected op s && elim (apply op s) [ none ↦ false | some s' ↦ goes_through ops s' ]

inverse : Operation → Operation
inverse (create_table t) = drop_table t.name
inverse (create_index i) = drop_index i.name i.table_name
inverse (alter_column table column existing type) = alter_column table column type existing
inverse op = op

undo : List Operation → List Operation
undo [] = []
undo (op ∷ ops) = undo ops ++ inverse op ∷ []

downgrade_lem : (revision : Revision) → downgrade revision ≡ undo (upgrade revision)
unfolding downgrade upgrade undo inverse
downgrade_lem create_query_metric_snapshots = refl
downgrade_lem add_runtime_storage_tables = refl
downgrade_lem upgrade_query_metric_counters_to_bigint = refl

-- What an operation of an upgrade is followed by when it is undone.
abbrev Undone : Operation → Schema → Schema → Type 0
Undone op s s' = (apply (inverse op) s' ≡ some s) × (closed s' ≡ true)

some_eq : {A : Type 0} {a b : A} → some a ≡ some b → a ≡ b
some_eq h = cc

both : (a b : Bool) → a ≡ true → b ≡ true → (a && b) ≡ true
both a b h k = ground arith

create_table-Undone :
    (t : Table) (s : Schema)
    → closed s ≡ true
    → (not (has (names s) t.name || has (index_names s) t.name) && refers_to (names s) t) ≡ true
    → Undone (create_table t) s (record s { tables = s.tables ++ t ∷ [] })
unfolding apply inverse
create_table-Undone t s c h =
    let fresh : has (names s) t.name ≡ false = ground arith in
    let own : refers_to (names s) t ≡ true = ground arith in
    let tables_closed : all (refers_to (names s)) s.tables ≡ true = ground arith in
    let indexes_closed : all (λ i. has (names s) i.table_name) s.indexes ≡ true = ground arith in
    let there : has (map (λ t. t.name) (s.tables ++ t ∷ [])) t.name ≡ true =
      rw (map-append (λ t. t.name) s.tables t) (has-new (names s) t.name) in
    let free : all (λ u. u.name =? t.name || not (refers t.name u)) (s.tables ++ t ∷ []) ≡ true =
      all-append (λ u. u.name =? t.name || not (refers t.name u)) s.tables t
        (all_weaken (refers_to (names s)) (λ u. u.name =? t.name || not (refers t.name u)) s.tables
          (λ u r. let nr = not-refers (names s) t.name u fresh r in ground arith) tables_closed)
        (rw (=?_refl t.name)) in
    let more = names s ++ t.name ∷ [] in
    let grows : (u : Table) → refers_to (names s) u ≡ true → refers_to more u ≡ true = λ u r.
      all_weaken (λ k. has (names s) k.referred_table) (λ k. has more k.referred_table)
        u.foreign_keys (λ k g. has-more (names s) t.name k.referred_table g) r in
    let tables_more : all (refers_to more) (s.tables ++ t ∷ []) ≡ true =
      all-append (refers_to more) s.tables t
        (all_weaken (refers_to (names s)) (refers_to more) s.tables grows tables_closed)
        (grows t own) in
    let indexes_more : all (λ i. has more i.table_name) s.indexes ≡ true =
      all_weaken (λ i. has (names s) i.table_name) (λ i. has more i.table_name) s.indexes
        (λ i g. has-more (names s) t.name i.table_name g) indexes_closed in
    (
      rw (
        there,
        free,
        filter-added (λ t. t.name) t s.tables fresh,
        filter-unknown (λ i. i.table_name) (names s) t.name s.indexes fresh indexes_closed,
      ),
      subst
          (λ known.
            (all (refers_to known) (s.tables ++ t ∷ [])
              && all (λ i. has known i.table_name) s.indexes)
            ≡ true)
          (sym (map-append (λ t. t.name) s.tables t)) (both _ _ tables_more indexes_more),
    )

create_index-Undone :
    (i : Index) (s : Schema)
    → closed s ≡ true
    → (has (names s) i.table_name && not (has (index_names s) i.name || has (names s) i.name))
      ≡ true
    → Undone (create_index i) s (record s { indexes = s.indexes ++ i ∷ [] })
unfolding apply inverse
create_index-Undone i s c h =
    let fresh : has (index_names s) i.name ≡ false = ground arith in
    let on_table : has (names s) i.table_name ≡ true = ground arith in
    let there : has (map (λ i. i.name) (s.indexes ++ i ∷ [])) i.name ≡ true =
      rw (map-append (λ i. i.name) s.indexes i) (has-new (index_names s) i.name) in
    let indexes_closed : all (λ j. has (names s) j.table_name) s.indexes ≡ true = ground arith in
    let more : all (λ j. has (names s) j.table_name) (s.indexes ++ i ∷ []) ≡ true =
      all-append (λ j. has (names s) j.table_name) s.indexes i indexes_closed on_table in
    (rw (there, filter-added (λ i. i.name) i s.indexes fresh), both _ _ (ground arith) more)

alter_column-Undone :
    (table column : String) (existing type : ColumnType) (s : Schema)
    → closed s ≡ true
    → expected (alter_column table column existing type) s ≡ true
    → has (names s) table ≡ true
    → has_column table column s.tables ≡ true
    → Undone
        (alter_column table column existing type)
        s
        (record s { tables = map (alter table column type) s.tables })
unfolding apply inverse
alter_column-Undone table column existing type s c h k l = (
  rw (
    names-alter table column type s.tables,
    k,
    has_column-alter table column type s.tables,
    l,
    alter-back table column existing type s.tables h,
  ),
  rw (names-alter table column type s.tables, refers_to-alter (names s) table column type s.tables)
      c,
)

if_some :
    {A : Type 0} (b : Bool) (x y : A) → (if b then some x else none) ≡ some y → (b ≡ true) × (x ≡ y)
if_some true x y e = (refl, some_eq e)
if_some false x y e = cc

-- The same for an operation that goes through.
apply-Undone :
    (op : Operation) (s s' : Schema)
    → closed s ≡ true
    → expected op s ≡ true
    → apply op s ≡ some s'
    → Undone op s s'
unfolding apply
apply-Undone (create_table t) s s' c h e =
    let (b, same) = if_some _ _ _ e in
    subst (Undone (create_table t) s) same (create_table-Undone t s c b)
apply-Undone (create_index i) s s' c h e =
    let (b, same) = if_some _ _ _ e in
    subst (Undone (create_index i) s) same (create_index-Undone i s c b)
apply-Undone (alter_column table column existing type) s s' c h e =
    let (b, same) = if_some (has (names s) table && has_column table column s.tables) _ _ e in
    subst (Undone (alter_column table column existing type) s) same
      (alter_column-Undone table column existing type s c h (ground arith) (ground arith))
apply-Undone (drop_table name) s s' c h e = absurd (ground arith)
apply-Undone (drop_index name table) s s' c h e = absurd (ground arith)

-- One operation, and the rest on what it gives.
abbrev then_run : List Operation → Option Schema → Option Schema
then_run ops none = none
then_run ops (some s) = run ops s

run-cons :
    (op : Operation) (ops : List Operation) (s : Schema)
    → run (op ∷ ops) s ≡ then_run ops (apply op s)
unfolding run
run-cons op ops s = cases (apply op s)
  where
    cases :
        (o : Option Schema)
        → elim o as (λ o. Option Schema) [ none ↦ none | some s' ↦ run ops s' ] ≡ then_run ops o
    cases none = refl
    cases (some s') = refl

run-append :
    (xs : List Operation) (op : Operation) (s s' : Schema)
    → run xs s ≡ some s'
    → run (xs ++ op ∷ []) s ≡ apply op s'
unfolding run
run-append [] op s s' e = cases (apply op s) ∙ ap (apply op) (some_eq e)
  where
    cases :
        (o : Option Schema)
        → elim o as (λ o. Option Schema) [ none ↦ none | some s'' ↦ some s'' ] ≡ o
    cases none = refl
    cases (some s'') = refl
run-append (x ∷ xs) op s s' e =
    run-cons x (xs ++ op ∷ []) s
    ∙ cases (apply x s) (λ s₁. run-append xs op s₁ s') (sym (run-cons x xs s) ∙ e)
  where
    cases :
        (o : Option Schema)
        → ((s₁ : Schema) → run xs s₁ ≡ some s' → run (xs ++ op ∷ []) s₁ ≡ apply op s')
        → then_run xs o ≡ some s'
        → then_run (xs ++ op ∷ []) o ≡ apply op s'
    cases none ih e = cc
    cases (some s₁) ih e = ih s₁ e

abbrev Goes : List Operation → Schema → Type 0
Goes ops s = (s' : Schema) × (run ops s ≡ some s') × (run (undo ops) s' ≡ some s)

abbrev rest_goes : List Operation → Option Schema → Bool
rest_goes ops none = false
rest_goes ops (some s) = goes_through ops s

goes_through-cons :
    (op : Operation) (ops : List Operation) (s : Schema)
    → goes_through (op ∷ ops) s ≡ (expected op s && rest_goes ops (apply op s))
unfolding goes_through
goes_through-cons op ops s = ap (λ b. expected op s && b) (cases (apply op s))
  where
    cases :
        (o : Option Schema)
        → elim o as (λ o. Bool) [ none ↦ false | some s' ↦ goes_through ops s' ] ≡ rest_goes ops o
    cases none = refl
    cases (some s') = refl

undo_lem :
    (ops : List Operation) (s : Schema) → closed s ≡ true → goes_through ops s ≡ true → Goes ops s
unfolding undo run
undo_lem [] s c g = (s, refl, refl)
undo_lem (op ∷ ops) s c g =
    cases (apply op s) refl (sym (goes_through-cons op ops s) ∙ g)
      (λ s₁ c₁ g₁. undo_lem ops s₁ c₁ g₁)
  where
    cases :
        (o : Option Schema)
        → apply op s ≡ o
        → (expected op s && rest_goes ops o) ≡ true
        → ((s₁ : Schema) → closed s₁ ≡ true → goes_through ops s₁ ≡ true → Goes ops s₁)
        → Goes (op ∷ ops) s
    cases none e h ih = absurd (ground arith)
    cases (some s₁) e h ih =
        let (back, closed₁) = apply-Undone op s s₁ c (ground arith) e in
        let (s', up, down) = ih s₁ closed₁ (ground arith) in
        (
          s',
          run-cons op ops s ∙ ap (then_run ops) e ∙ up,
          run-append (undo ops) (inverse op) s' s₁ down ∙ back,
        )

-- In every schema whose foreign keys and indexes are of tables that are there, an upgrade that goes through, with the
-- existing types of the columns that it alters as it says, can be undone: the downgrade of the same revision goes
-- through and gives back the schema, with all its tables, indexes and columns as they were and in their order.
pub downgrade-upgrade :
    (revision : Revision) (s : Schema)
    → closed s ≡ true
    → goes_through (upgrade revision) s ≡ true
    → (s' : Schema) × (run (upgrade revision) s ≡ some s') × (run (downgrade revision) s' ≡ some s)
downgrade-upgrade revision s c g =
    subst (λ ops. (s' : Schema) × (run (upgrade revision) s ≡ some s') × (run ops s' ≡ some s))
      (sym (downgrade_lem revision)) (undo_lem (upgrade revision) s c g)
