-- ===== src/Migrations/Alter.antt =====
-- Columns that are altered, and altered back.
use pg_monitor.Prelude.{
  ◌≡◌, refl, sym, ap, ◌∙◌, inl, inr, String, true, Bool-cases, ◌&&◌, List, [], ◌∷◌, map,
  if◌then◌else◌, arith,
}
use pg_monitor.Prelude.Eq.{String_eq, ◌=?◌}
use pg_monitor.Prelude.Dict.{has}
use pg_monitor.Migrations.Schema.{
  ColumnType, same_type, Column, Table, has_column, column_names, all, refers_to, set_type, alter,
}

pub same_type_eq : (a b : ColumnType) → same_type a b ≡ true → a ≡ b
same_type_eq a b h = ground arith

-- The type of a column is set back.
pub set_type-back :
    (column : String) (existing type : ColumnType) (cs : List Column)
    → all (λ c. if c.name =? column then same_type c.type_of existing else true) cs ≡ true
    → map (set_type column existing) (map (set_type column type) cs) ≡ cs
set_type-back column existing type [] h = refl
set_type-back column existing type (c ∷ cs) h = elim (Bool-cases (c.name =? column)) [
  | inl t ↦
      let was : c.type_of ≡ existing = same_type_eq c.type_of existing (ground arith) in
      let rest = set_type-back column existing type cs (ground arith) in
      let set : set_type column type c ≡ record c { type_of = type } = rw t in
      let back : set_type column existing (record c { type_of = type })
          ≡ record c { type_of = existing } =
        rw t in
      let same =
        ap (set_type column existing) set ∙ back ∙ ap (λ x. record c { type_of = x }) (sym was) in
      ap (λ d. d ∷ map (set_type column existing) (map (set_type column type) cs)) same
      ∙ ap (◌∷◌ c) rest
  | inr f ↦
      let rest = set_type-back column existing type cs (ground arith) in rw (f, f) (ap (◌∷◌ c) rest)
]

pub alter-back :
    (table column : String) (existing type : ColumnType) (ts : List Table)
    → all
        (λ t.
          if t.name =? table
          then all (λ c. if c.name =? column then same_type c.type_of existing else true) t.columns
          else true)
        ts
      ≡ true
    → map (alter table column existing) (map (alter table column type) ts) ≡ ts
alter-back table column existing type [] h = refl
alter-back table column existing type (t ∷ ts) h = elim (Bool-cases (t.name =? table)) [
  | inl here ↦
      let rest = alter-back table column existing type ts (ground arith) in
      let cols : all (λ c. if c.name =? column then same_type c.type_of existing else true)
            t.columns
          ≡ true =
        ground arith in
      let changed = record t { columns = map (set_type column type) t.columns } in
      let set : alter table column type t ≡ changed = rw here in
      let back : alter table column existing changed ≡ record t {
        columns = map (set_type column existing) (map (set_type column type) t.columns);
      } =
        rw here in
      let same =
        ap (alter table column existing) set
        ∙ back
        ∙ ap (λ x. record t { columns = x }) (set_type-back column existing type t.columns cols) in
      ap (λ u. u ∷ map (alter table column existing) (map (alter table column type) ts)) same
      ∙ ap (◌∷◌ t) rest
  | inr f ↦
      let rest = alter-back table column existing type ts (ground arith) in
      rw (f, f) (ap (◌∷◌ t) rest)
]

-- Altering columns keeps the names and the foreign keys of tables.
pub names-alter :
    (table column : String) (type : ColumnType) (ts : List Table)
    → map (λ t. t.name) (map (alter table column type) ts) ≡ map (λ t. t.name) ts
names-alter table column type [] = refl
names-alter table column type (t ∷ ts) = elim (Bool-cases (t.name =? table)) [
  | inl here ↦ let rest = names-alter table column type ts in rw here (ap (◌∷◌ t.name) rest)
  | inr f ↦ let rest = names-alter table column type ts in rw f (ap (◌∷◌ t.name) rest)
]

pub refers_to-alter :
    (known : List String) (table column : String) (type : ColumnType) (ts : List Table)
    → all (refers_to known) (map (alter table column type) ts) ≡ all (refers_to known) ts
refers_to-alter known table column type [] = refl
refers_to-alter known table column type (t ∷ ts) = elim (Bool-cases (t.name =? table)) [
  | inl here ↦
      let rest = refers_to-alter known table column type ts in
      rw here (ap (λ b. refers_to known t && b) rest)
  | inr f ↦
      let rest = refers_to-alter known table column type ts in
      rw f (ap (λ b. refers_to known t && b) rest)
]

pub column_names-alter :
    (column : String) (type : ColumnType) (cs : List Column)
    → map (λ c. c.name) (map (set_type column type) cs) ≡ map (λ c. c.name) cs
column_names-alter column type [] = refl
column_names-alter column type (c ∷ cs) = elim (Bool-cases (c.name =? column)) [
  | inl t ↦ let rest = column_names-alter column type cs in rw t (ap (◌∷◌ c.name) rest)
  | inr f ↦ let rest = column_names-alter column type cs in rw f (ap (◌∷◌ c.name) rest)
]

pub has_column-alter :
    (table column : String) (type : ColumnType) (ts : List Table)
    → has_column table column (map (alter table column type) ts) ≡ has_column table column ts
has_column-alter table column type [] = refl
has_column-alter table column type (t ∷ ts) = elim (Bool-cases (t.name =? table)) [
  | inl here ↦
      let rest = has_column-alter table column type ts in
      rw (here, here, column_names-alter column type t.columns)
        (ap (λ b. has (column_names t) column && b) rest)
  | inr f ↦ let rest = has_column-alter table column type ts in rw (f, f) rest
]
