-- ===== src/Schema.antt =====
-- What a relational schema is made of, for the tables of src/yamazaki/persistence.py and the
-- migration alembic/versions/0001_control_state.py that creates them, and what the statements of a
-- migration do to the tables that there are.
pub mod Tables
use yamazaki_incubator.Base.{
  ℕ, Bool, true, false, not, ◌&&◌, ◌||◌, Option, none, some, List, [], ◌∷◌, ◌++◌, map, String,
  nat_beq, all, ◌==◌, string_eq, if◌then◌else◌, find,
}

pub data ColumnType : Type 0 where
  -- `String(n)`
  varying : (most : ℕ) → ColumnType
  -- `JSON`
  json : ColumnType
  -- `DateTime(timezone=True)`
  timestamp : ColumnType
  -- `Integer`
  integer : ColumnType

abbrev pub same_type : ColumnType → ColumnType → Bool
same_type (ColumnType.varying m) (ColumnType.varying n) = nat_beq m n
same_type ColumnType.json ColumnType.json = true
same_type ColumnType.timestamp ColumnType.timestamp = true
same_type ColumnType.integer ColumnType.integer = true
same_type _ _ = false

pub record Column : Type 0 where
  pub name : String
  pub type_ : ColumnType
  pub nullable : Bool

-- `ForeignKeyConstraint([column], ["table.key"])`
pub record ForeignKey : Type 0 where
  pub column : String
  pub table : String
  pub key : String

-- `UniqueConstraint(*columns, name=name)`, and an index
pub record Named : Type 0 where
  pub name : String
  pub columns : List String

pub record TableSchema : Type 0 where
  pub name : String
  pub columns : List Column
  pub primary_key : List String
  pub foreign_keys : List ForeignKey
  pub uniques : List Named
  pub indexes : List Named

abbrev pub Catalog : Type 0
Catalog = List TableSchema

abbrev pub table_named : String → Catalog → Option TableSchema
table_named name = find (λ t. t.name == name)

abbrev pub type_in : String → List Column → Option ColumnType
type_in name [] = none
type_in name (c ∷ columns) = if c.name == name then some c.type_ else type_in name columns

abbrev pub agree : Option ColumnType → Option ColumnType → Bool
agree (some a) (some b) = same_type a b
agree _ _ = false

abbrev pub is_only : List String → String → Bool
is_only (s ∷ []) name = s == name
is_only _ name = false

-- The key is the primary key of a table that is there, and of the column's type.
abbrev pub is_met : Catalog → List Column → ForeignKey → Bool
is_met catalog columns key = elim (table_named key.table catalog) [
  | none ↦ false
  | some t ↦
      is_only t.primary_key key.key
      && agree (type_in key.column columns) (type_in key.key t.columns)
]

abbrev pub has_index : String → Catalog → Bool
has_index name [] = false
has_index name (t ∷ catalog) =
    not (all (λ (i : Named). not (i.name == name)) t.indexes) || has_index name catalog

abbrev pub has_column : List Column → String → Bool
has_column columns name = not (all (λ (c : Column). not (c.name == name)) columns)

abbrev pub refers_to : String → TableSchema → Bool
refers_to name t = not (all (λ (k : ForeignKey). not (k.table == name)) t.foreign_keys)

abbrev pub without : String → Catalog → Catalog
without name [] = []
without name (t ∷ catalog) =
    let rest = without name catalog in if t.name == name then rest else t ∷ rest

abbrev pub with_index : String → Named → Catalog → Catalog
with_index name index [] = []
with_index name index (t ∷ catalog) =
    let rest = with_index name index catalog in
    if t.name == name then record t { indexes = t.indexes ++ index ∷ [] } ∷ rest else t ∷ rest

-- The statements of a migration.
pub data Operation : Type 0 where
  create_table : TableSchema → Operation
  create_index : Named → (table : String) → Operation
  drop_table : String → Operation

abbrev pub when : Bool → Catalog → Option Catalog
when b catalog = if b then some catalog else none

abbrev is_absent : Option TableSchema → Bool
is_absent none = true
is_absent (some t) = false

-- What a statement makes of the tables, where nothing is in its way.
unfoldable pub apply : Operation → Catalog → Option Catalog
apply (create_table t) catalog =
    when (is_absent (table_named t.name catalog) && all (is_met catalog t.columns) t.foreign_keys)
      (catalog ++ t ∷ [])
apply (create_index index table) catalog = elim (table_named table catalog) [
  | none ↦ none
  | some t ↦
      when (all (has_column t.columns) index.columns && not (has_index index.name catalog))
        (with_index table index catalog)
]
apply (drop_table name) catalog =
    when
      (not (is_absent (table_named name catalog))
        && all (λ t. not (refers_to name t)) (without name catalog))
      (without name catalog)

unfoldable pub apply_all : List Operation → Catalog → Option Catalog
unfolding apply
apply_all [] catalog = some catalog
apply_all (o ∷ os) catalog = elim (apply o catalog) [ none ↦ none | some c ↦ apply_all os c ]
