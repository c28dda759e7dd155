-- ===== src/Schema/Snapshot/Lookup.antt =====
-- The index of a snapshot against a search of its tables.
use vlor_ql.Common.{
  suc, Option, none, some, List, [], ◌∷◌, ◌++◌, ◌≡◌, refl, ap, sym, ◌∙◌, arith, if◌then◌else◌,
  Bool-cases, Option-cases, inl, inr,
}
use mathlib.Core.List.{append_assoc}
use vlor_ql.Common.Lists.{get_elem?, length, Member, here, there}
use vlor_ql.Common.Text.{Text, ◌==◌, ==_eq}
use vlor_ql.Schema.Snapshot.{
  TableSchema, TableIndex, SchemaMetadata, SchemaSnapshot, index_get, index_tables,
  build_table_index, fetch, new, set_tables, rebuild_index, get_table,
}

abbrev or_else {ℓ} : {A : Type ℓ} → Option A → Option A → Option A
or_else none o = o
or_else (some a) o = some a

-- The last table of a name.
pub last_named : Text → List TableSchema → Option TableSchema
last_named name [] = none
last_named name (t ∷ ts) = or_else (last_named name ts) (if t.name == name then some t else none)

length-snoc : (pre : List TableSchema) (t : TableSchema) → length (pre ++ t ∷ []) ≡ suc (length pre)
length-snoc [] t = refl
length-snoc (x ∷ pre) t = ap suc (length-snoc pre t)

get_elem?-middle :
    (pre : List TableSchema) (t : TableSchema) (ts : List TableSchema)
    → get_elem? (pre ++ t ∷ ts) (length pre) ≡ some t
get_elem?-middle [] t ts = refl
get_elem?-middle (x ∷ pre) t ts = get_elem?-middle pre t ts

or_else_assoc {ℓ} :
    {A : Type ℓ} (a b c : Option A) → or_else (or_else a b) c ≡ or_else a (or_else b c)
or_else_assoc none b c = refl
or_else_assoc (some a) b c = refl

fetch-index_get :
    (name : Text) (t : TableSchema) (pre ts : List TableSchema) (index : TableIndex)
    → fetch (index_get ((t.name, length pre) ∷ index) name) (pre ++ t ∷ ts)
      ≡ or_else
          (if t.name == name then some t else none)
          (fetch (index_get index name) (pre ++ t ∷ ts))
unfolding index_get
fetch-index_get name t pre ts index = elim (Bool-cases (t.name == name)) [
  | inl e ↦ rw e (get_elem?-middle pre t ts)
  | inr e ↦ rw e
]

-- The loop of `build_table_index`, after the tables `pre`.
index_tables_lem :
    (name : Text) (ts pre : List TableSchema) (index : TableIndex)
    → fetch (index_get (index_tables ts (length pre) index) name) (pre ++ ts)
      ≡ or_else (last_named name ts) (fetch (index_get index name) (pre ++ ts))
unfolding index_tables last_named
index_tables_lem name [] pre index = refl
index_tables_lem name (t ∷ ts) pre index =
    let ih = index_tables_lem name ts (pre ++ t ∷ []) ((t.name, length pre) ∷ index) in
    let shift = rw (length-snoc, append_assoc) at ih in shift ∙ rw (fetch-index_get, or_else_assoc)

or_else_neutral {ℓ} : {A : Type ℓ} (a : Option A) → or_else a none ≡ a
or_else_neutral none = refl
or_else_neutral (some a) = refl

-- On a snapshot that `new` built, a lookup through the index finds the last table of the name, and
-- nothing if no table has it.
pub get_table-new :
    (tables : List TableSchema) (metadata : SchemaMetadata) (name : Text)
    → get_table (new tables metadata) name ≡ last_named name tables
unfolding get_table new index_get
get_table-new tables metadata name =
    index_tables_lem name tables [] [] ∙ or_else_neutral (last_named name tables)

-- The index agrees with the tables.
abbrev pub IsIndexed : SchemaSnapshot → Type 0
IsIndexed schema = schema.table_index ≡ build_table_index schema.tables

pub get_table-IsIndexed :
    (schema : SchemaSnapshot) (name : Text)
    → IsIndexed schema
    → get_table schema name ≡ last_named name schema.tables
unfolding get_table new
get_table-IsIndexed schema name h =
    ap (λ (i : TableIndex). fetch (index_get i name) schema.tables) h
    ∙ get_table-new schema.tables schema.metadata name

last_named-name :
    (name : Text) (ts : List TableSchema) (t : TableSchema)
    → last_named name ts ≡ some t
    → (t.name ≡ name) × Member t ts
unfolding last_named
last_named-name name [] t h = cc
last_named-name name (x ∷ ts) t h = elim (Option-cases (last_named name ts)) [
  | inr (u, e) ↦
      let found : u ≡ t = ground arith in
      let (n, m) = last_named-name name ts t (e ∙ ap some found) in (n, there m)
  | inl e ↦ elim (Bool-cases (x.name == name)) [
    | inl same ↦
        let found : x ≡ t = ground arith in
        (ap (λ (y : TableSchema). y.name) (sym found) ∙ ==_eq x.name name same, here found)
    | inr other ↦ absurd (ground arith)
  ]
]

-- A lookup on an indexed snapshot answers with a table of the snapshot that has the name asked for.
get_table-name :
    (schema : SchemaSnapshot) (name : Text) (t : TableSchema)
    → IsIndexed schema
    → get_table schema name ≡ some t
    → (t.name ≡ name) × Member t schema.tables
get_table-name schema name t h e =
    last_named-name name schema.tables t (sym (get_table-IsIndexed schema name h) ∙ e)

-- Every way to set the tables leaves an indexed snapshot, so that a lookup finds the last table of a
-- name in it: `new`, `set_tables`, and `rebuild_index` after any change of the tables.
pub updates-IsIndexed :
    (schema : SchemaSnapshot) (tables : List TableSchema) (metadata : SchemaMetadata)
    → IsIndexed (new tables metadata)
      × IsIndexed (set_tables schema tables)
      × IsIndexed (rebuild_index (record schema { tables = tables }))
unfolding new set_tables rebuild_index
updates-IsIndexed schema tables metadata = (refl, refl, refl)
