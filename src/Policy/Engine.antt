-- ===== src/Policy/Engine.antt =====
-- The evaluation of a plan against a policy: `PolicyEngine` in
-- crates/vlorql-core/src/policy/engine.rs. A function that pushes errors returns the report
-- afterwards; its state is its last argument.
pub mod Nested
use vlor_ql.Common.{
  Bool, true, false, not, ◌&&◌, Option, none, some, List, [], ◌∷◌, map, if◌then◌else◌,
}
use vlor_ql.Common.Lists.{any, keep, for_each}
use vlor_ql.Common.Text.{Text, ◌==◌, bytes}
use vlor_ql.Errors.{
  VlorQlError, policy, schema, table_denied, column_denied, table_not_found, table_not_in_scope,
  column_not_found, Label, schema_label, policy_label, table_policy_denied, table_reason,
  column_reason, available_tables, available_columns,
}
use vlor_ql.Policy.Config.{PolicyConfig, is_table_denied, column_denial_reason}
use vlor_ql.Policy.Report.{Report, report_table, report_column}
use vlor_ql.Query.References.{ColumnReference, PlanReferences}
use vlor_ql.Query.Scope.{QueryScope, QuerySource, contains, resolve_source}
use vlor_ql.Schema.Snapshot.{SchemaSnapshot, TableSchema, ColumnSchema, get_table}

abbrev table_names : SchemaSnapshot → List Text
table_names snapshot = map (λ (t : TableSchema). t.name) snapshot.tables

abbrev column_names : TableSchema → List Text
column_names t = map (λ (c : ColumnSchema). c.name) t.columns

pub table_not_found_error : Text → SchemaSnapshot → VlorQlError
table_not_found_error name snapshot =
    schema (table_not_found name) (available_tables name (table_names snapshot))

-- The match of `table_not_in_scope_or_not_found` on the lookup.
abbrev not_in_scope_error : Option TableSchema → Text → SchemaSnapshot → VlorQlError
not_in_scope_error (some t) name snapshot =
    schema (table_not_in_scope name) (available_tables name (table_names snapshot))
not_in_scope_error none name snapshot =
    schema (table_not_found name) (available_tables name (table_names snapshot))

pub table_not_in_scope_or_not_found : Text → SchemaSnapshot → VlorQlError
table_not_in_scope_or_not_found name snapshot =
    not_in_scope_error (get_table snapshot name) name snapshot

-- `available_columns` of a snapshot.
abbrev columns_of_lookup : Option TableSchema → List Text
columns_of_lookup none = []
columns_of_lookup (some t) = column_names t

pub snapshot_columns : SchemaSnapshot → Text → List Text
snapshot_columns snapshot name = columns_of_lookup (get_table snapshot name)

-- `available_columns` of a `SchemaView`.
pub view_columns : TableSchema → Text → List Text
view_columns t name = if t.name == name then column_names t else []

unfoldable pub push_missing_column : Text → Text → List Text → Report → Report
push_missing_column name col available r =
    report_column name col schema_label
      (schema (column_not_found name col) (available_columns name col available)) r

unfoldable pub has_column : TableSchema → Text → Bool
has_column t col = any (λ (c : ColumnSchema). c.name == col) t.columns

-- `scope.cte_names.contains(&source.table)`
unfoldable pub is_cte : QueryScope → QuerySource → Bool
is_cte scope source = contains scope.cte_names source.table

-- `validate_column_reference` where it has none: the tables that have the column.
abbrev pub add_candidate : Option TableSchema → Text → List TableSchema → List TableSchema
add_candidate none col rest = rest
add_candidate (some t) col rest = if has_column t col then t ∷ rest else rest

unfoldable pub candidates : SchemaSnapshot → QueryScope → List QuerySource → Text → List TableSchema
candidates snapshot scope [] col = []
candidates snapshot scope (source ∷ sources) col =
    let rest = candidates snapshot scope sources col in
    if is_cte scope source then rest else add_candidate (get_table snapshot source.table) col rest

abbrev pub first_table : List QuerySource → Text
first_table [] = bytes "<unknown>"
first_table (source ∷ sources) = source.table

module _ {Value : Type 0} (config : PolicyConfig Value) where
  unfoldable pub validate_table_access : TableSchema → Report → Report
  validate_table_access t r =
      if is_table_denied config t.name
      then report_table policy_label t.name
          (policy (table_denied t.name) (table_reason t.name table_policy_denied)) r
      else r

  -- The `if let` of `validate_column_policy` on the reason.
  unfoldable pub deny_column : Option Label → Text → Text → Report → Report
  deny_column none name col r = r
  deny_column (some reason) name col r =
      report_column name col reason
        (policy (column_denied name col) (column_reason name col reason)) r

  unfoldable pub validate_column_policy : Text → TableSchema → Report → Report
  validate_column_policy col t r = deny_column (column_denial_reason config t.name col) t.name col r

  unfoldable pub validate_existing_column : TableSchema → Text → Report → Report
  validate_existing_column t col r =
      if has_column t col
      then validate_column_policy col t r
      else push_missing_column t.name col (view_columns t t.name) r

  module _ (snapshot : SchemaSnapshot) (scope : QueryScope) where
    -- The loop body over `scope.sources`, behind its `continue` for CTEs.
    unfoldable pub check_table : Option TableSchema → Text → Report → Report
    check_table none name r = report_table schema_label name (table_not_found_error name snapshot) r
    check_table (some t) name r = validate_table_access t r

    unfoldable pub check_source : QuerySource → Report → Report
    check_source source r =
        if is_cte scope source
        then r
        else check_table (get_table snapshot source.table) source.table r

    -- The loop body of `validate_star`, behind its `continue` for CTEs.
    unfoldable pub check_star_columns : Option TableSchema → Report → Report
    check_star_columns none r = r
    check_star_columns (some t) r =
        for_each (λ (c : ColumnSchema). validate_column_policy c.name t) t.columns r

    unfoldable pub check_star_source : QuerySource → Report → Report
    check_star_source source r =
        if is_cte scope source then r else check_star_columns (get_table snapshot source.table) r

    unfoldable pub check_star_resolved : Option QuerySource → Text → Report → Report
    check_star_resolved none qualifier r =
        report_table schema_label qualifier (table_not_in_scope_or_not_found qualifier snapshot) r
    check_star_resolved (some source) qualifier r = check_star_source source r

    unfoldable pub validate_star : Option Text → Report → Report
    validate_star none r = for_each check_star_source scope.sources r
    validate_star (some qualifier) r =
        check_star_resolved (resolve_source scope qualifier) qualifier r

    -- `validate_column_reference` where the reference has a qualifier.
    unfoldable pub check_existing : Option TableSchema → Text → Report → Report
    check_existing none col r = r
    check_existing (some t) col r = validate_existing_column t col r

    unfoldable pub check_resolved : Option QuerySource → Text → Text → Report → Report
    check_resolved none qualifier col r =
        report_table schema_label qualifier (table_not_in_scope_or_not_found qualifier snapshot) r
    check_resolved (some source) qualifier col r =
        if is_cte scope source then r else check_existing (get_table snapshot source.table) col r

    unfoldable pub check_candidates : List TableSchema → Text → Report → Report
    check_candidates [] col r =
        if any (is_cte scope) scope.sources
        then r
        else (let name = first_table scope.sources in
            push_missing_column name col (snapshot_columns snapshot name) r)
    check_candidates (t ∷ ts) col r = for_each (validate_column_policy col) (t ∷ ts) r

    abbrev pub check_qualified : Option Text → Text → Report → Report
    check_qualified (some qualifier) col r =
        check_resolved (resolve_source scope qualifier) qualifier col r
    check_qualified none col r =
        check_candidates (candidates snapshot scope scope.sources col) col r

    unfoldable pub validate_column_reference : ColumnReference → Report → Report
    validate_column_reference reference r = check_qualified reference.table reference.column r

    -- The loops of `validate_plan_inner` over sources, stars and columns.
    unfoldable pub validate_level : PlanReferences → Report → Report
    validate_level references r =
        for_each validate_column_reference references.columns
          (for_each validate_star references.stars (for_each check_source scope.sources r))
