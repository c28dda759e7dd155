-- ===== src/Schema/Snapshot.antt =====
-- The schema snapshot, crates/vlorql-core/src/schema/snapshot.rs: tables, columns, and the lookup of
-- a table by its name through an index from names to positions.
pub mod Lookup
use vlor_ql.Common.{
  ℕ, zero, suc, ◌+◌, Bool, true, false, Option, none, some, List, [], ◌∷◌, if◌then◌else◌, ◌≡◌,
}
use vlor_ql.Common.Lists.{get_elem?, find}
use vlor_ql.Common.Text.{Text, ◌==◌}
use vlor_ql.Schema.Types.{DataType}

pub record ForeignKey : Type 0 where
  pub foreign_table : Text
  pub foreign_column : Text

pub record ColumnSchema : Type 0 where
  pub name : Text
  pub data_type : DataType
  pub nullable : Bool
  pub description : Option Text
  pub is_primary_key : Bool
  pub foreign_key : Option ForeignKey

pub record TableSchema : Type 0 where
  pub name : Text
  pub columns : List ColumnSchema
  pub description : Option Text
  pub primary_key : Option (List Text)

pub record SchemaMetadata : Type 0 where
  pub version : Option Text
  pub source : Option Text
  pub generated_at : Option Text

-- `HashMap<String, usize>`: an association list, the newest entry of a key in front.
abbrev pub TableIndex : Type 0
TableIndex = List (Text × ℕ)

pub record SchemaSnapshot : Type 0 where
  pub tables : List TableSchema
  pub metadata : SchemaMetadata
  pub table_index : TableIndex

unfoldable pub index_get : TableIndex → Text → Option ℕ
index_get [] name = none
index_get ((key, position) ∷ index) name =
    let rest = index_get index name in if key == name then some position else rest

-- The loop of `build_table_index` from a position on.
unfoldable pub index_tables : List TableSchema → ℕ → TableIndex → TableIndex
index_tables [] position index = index
index_tables (t ∷ tables) position index =
    index_tables tables (suc position) ((t.name, position) ∷ index)

unfoldable pub build_table_index : List TableSchema → TableIndex
unfolding index_tables
build_table_index tables = index_tables tables 0 []

-- `SchemaSnapshot::new`
unfoldable pub new : List TableSchema → SchemaMetadata → SchemaSnapshot
unfolding build_table_index
new tables metadata = record {
  tables = tables;
  metadata = metadata;
  table_index = build_table_index tables;
}

unfoldable pub set_tables : SchemaSnapshot → List TableSchema → SchemaSnapshot
unfolding build_table_index
set_tables schema tables = record schema { tables = tables; table_index = build_table_index tables }

unfoldable pub rebuild_index : SchemaSnapshot → SchemaSnapshot
unfolding build_table_index
rebuild_index schema = record schema { table_index = build_table_index schema.tables }

-- `.and_then(|position| self.tables.get(*position))`
abbrev pub fetch : Option ℕ → List TableSchema → Option TableSchema
fetch none ts = none
fetch (some position) ts = get_elem? ts position

unfoldable pub get_table : SchemaSnapshot → Text → Option TableSchema
unfolding index_get
get_table schema name = fetch (index_get schema.table_index name) schema.tables

unfoldable pub get_column : SchemaSnapshot → Text → Text → Option ColumnSchema
unfolding get_table find
get_column schema table column = elim (get_table schema table) [
  | none ↦ none
  | some t ↦ find (λ c. c.name == column) t.columns
]
