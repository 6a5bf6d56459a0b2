-- ===== src/Migrations/Schema.antt =====
-- The schema that the revisions work on, and alembic's operations as PostgreSQL carries them out: an operation that
-- the database refuses gives no schema. Tables and indexes share one space of names; those of constraints are left out.
use pg_monitor.Prelude.{
  ℕ, String, Option, none, some, Bool, true, false, not, ◌&&◌, ◌||◌, List, [], ◌∷◌, ◌++◌, map,
  filter, ◌==◌, if◌then◌else◌,
}
use pg_monitor.Prelude.Eq.{String_eq, ◌=?◌}
use pg_monitor.Prelude.Dict.{has}

pub data ColumnType : Type 0 where
  integer big_integer float datetime_with_timezone : ColumnType
  string : Option ℕ → ColumnType

abbrev pub same_type : ColumnType → ColumnType → Bool
same_type integer integer = true
same_type big_integer big_integer = true
same_type float float = true
same_type datetime_with_timezone datetime_with_timezone = true
same_type (string none) (string none) = true
same_type (string (some m)) (string (some n)) = m == n
same_type _ _ = false

pub record Column : Type 0 where
  pub name : String
  pub type_of : ColumnType
  pub nullable : Bool

pub record ForeignKey : Type 0 where
  pub columns : List String
  pub referred_table : String
  pub referred_columns : List String
  pub on_delete : String

pub record Table : Type 0 where
  pub name : String
  pub columns : List Column
  pub primary_key : List String
  pub unique_constraints : List (String × List String)
  pub foreign_keys : List ForeignKey

pub record Index : Type 0 where
  pub name : String
  pub table_name : String
  pub columns : List String
  pub is_unique : Bool

pub record Schema : Type 0 where
  pub tables : List Table
  pub indexes : List Index

pub data Operation : Type 0 where
  create_table : Table → Operation
  create_index : Index → Operation
  -- by name, with the name of the table
  drop_index : String → String → Operation
  drop_table : String → Operation
  -- of a table and a column, with the existing type and the new one
  alter_column : String → String → ColumnType → ColumnType → Operation

abbrev pub names : Schema → List String
names s = map (λ t. t.name) s.tables

abbrev pub index_names : Schema → List String
index_names s = map (λ i. i.name) s.indexes

abbrev pub all : {A : Type 0} → (A → Bool) → List A → Bool
all p [] = true
all p (x ∷ xs) = p x && all p xs

-- The tables that the foreign keys of a table refer to are known.
abbrev pub refers_to : List String → Table → Bool
refers_to known t = all (λ k. has known k.referred_table) t.foreign_keys

-- Whether a table has a foreign key to the one of that name.
abbrev pub refers : String → Table → Bool
refers name t = not (all (λ k. not (k.referred_table =? name)) t.foreign_keys)

abbrev pub set_type : String → ColumnType → Column → Column
set_type column type c = if c.name =? column then record c { type_of = type } else c

abbrev pub alter : String → String → ColumnType → Table → Table
alter table column type t =
    if t.name =? table then record t { columns = map (set_type column type) t.columns } else t

-- The table of that name has the column.
abbrev pub column_names : Table → List String
column_names t = map (λ c. c.name) t.columns

abbrev pub has_column : String → String → List Table → Bool
has_column table column ts =
    all (λ t. if t.name =? table then has (column_names t) column else true) ts

unfoldable pub apply : Operation → Schema → Option Schema
unfolding has
apply (create_table t) s =
    if not (has (names s) t.name || has (index_names s) t.name) && refers_to (names s) t
    then some (record s { tables = s.tables ++ t ∷ [] })
    else none
apply (create_index i) s =
    if has (names s) i.table_name && not (has (index_names s) i.name || has (names s) i.name)
    then some (record s { indexes = s.indexes ++ i ∷ [] })
    else none
apply (drop_index name table) s =
    if has (index_names s) name
    then some (record s { indexes = filter (λ i. not (i.name =? name)) s.indexes })
    else none
apply (drop_table name) s =
    if has (names s) name && all (λ t. t.name =? name || not (refers name t)) s.tables
    then some (record {
      tables = filter (λ t. not (t.name =? name)) s.tables;
      indexes = filter (λ i. not (i.table_name =? name)) s.indexes;
    })
    else none
apply (alter_column table column existing type) s =
    if has (names s) table && has_column table column s.tables
    then some (record s { tables = map (alter table column type) s.tables })
    else none

unfoldable pub run : List Operation → Schema → Option Schema
unfolding apply
run [] s = some s
run (op ∷ ops) s = elim (apply op s) [ none ↦ none | some s' ↦ run ops s' ]
