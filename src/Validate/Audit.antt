-- ===== src/Validate/Audit.antt =====
-- The audit of identifiers: crates/vlorql-core/src/validate/audit.rs. The results of the audits of inner
-- plans (subqueries, CTEs, set operands) are dropped there, and so there are none here.
pub mod Walk
pub mod Clean
use vlor_ql.Validate.Warnings.{
  Severity, AuditWarningKind, AuditWarning, Report, is_blocker, has_blockers, to_error, into_errors,
  suspicious_patterns, has_suspicious_pattern, push_found, check_pattern, warning, error, critical,
  missing_table, missing_column, suspicious_identifier,
}
use vlor_ql.Common.{
  Bool, true, false, not, ◌&&◌, ◌||◌, if◌then◌else◌, Option, none, some, List, [], ◌∷◌, ◌++◌, map,
  is_empty,
}
use vlor_ql.Common.Lists.{any, keep, find}
use vlor_ql.Common.Text.{Text, bytes, ◌==◌}
use vlor_ql.Compile.Dialect.{upper, contains_text}
use vlor_ql.Errors.{VlorQlError, audit, identifier_not_found, suspicious_pattern, no_details}
use vlor_ql.Common.Tests.{is_some, is_some_and}
use vlor_ql.Policy.Engine.Nested.{Verdict, accepted, rejected}
use vlor_ql.Schema.Plan.{
  Expression, Expressions, OptExpression, OptExpressions, WhenThens, WindowSpec, OrderByTerms,
  OptOrderByTerms, InTarget, Predicate, OptPredicate, FromClause, Projection, Projections,
  JoinClauses, OptJoinClauses, Ctes, OptCtes, QueryPlan, literal, column_ref, function_call,
  binary_op, star, sub_query, case_when, window_function, exprs_nil, exprs_cons, no_expr, some_expr,
  no_exprs, some_exprs, when_thens_nil, when_thens_cons, window_spec, terms_nil, terms_cons,
  no_terms, some_terms, values, target_query, comparison, and_pred, or_pred, not_pred, between,
  in_pred, like, is_null, exists, true_pred, false_pred, no_pred, some_pred, expr, star_of,
  select_nil, select_cons, joins_nil, joins_cons, no_joins, some_joins, ctes_nil, ctes_cons,
  no_ctes, some_ctes, query_plan,
}
use vlor_ql.Schema.Snapshot.{SchemaSnapshot, TableSchema, ColumnSchema, get_table, get_column}

module _ (schema : SchemaSnapshot) where
  -- What counts as a known column: a column of its table, or one of a table that the schema lacks; and,
  -- unqualified, a column of some table.
  unfoldable pub column_known : Option Text → Text → Bool
  column_known (some t) column =
      is_some (get_column schema t column) || not (is_some (get_table schema t))
  column_known none column =
      any (λ (t : TableSchema). any (λ (c : ColumnSchema). c.name == column) t.columns)
        schema.tables

  abbrev pub shown_column : Option Text → Text → Text
  shown_column (some t) column = t ++ bytes "." ++ column
  shown_column none column = column

  unfoldable pub check_known : Text → Option Text → Text → Report → Report
  check_known place t column report =
      if column_known t column
      then report
      else report
        ++ (record {
          kind = missing_column;
          identifier = shown_column t column;
          context = place;
          severity = error;
        })
          ∷ []

  unfoldable pub audit_column : Option Text → Text → Report → Report
  audit_column t column report =
      check_known (bytes "expression") t column (check_pattern column report)

  unfoldable mutual
    pub audit_expression : {Value : Type 0} → Expression Value → Report → Report
    audit_expression (literal _ _) report = report
    audit_expression (column_ref t c) report = audit_column t c report
    audit_expression (function_call _ args _) report = audit_expressions args report
    audit_expression (binary_op left _ right) report =
        audit_expression right (audit_expression left report)
    audit_expression star report = report
    audit_expression (sub_query _) report = report
    audit_expression (case_when operand branches otherwise) report =
        audit_opt_expression otherwise
          (audit_when_thens branches (audit_opt_expression operand report))
    audit_expression (window_function _ args _ over) report =
        audit_window over (audit_expressions args report)

    pub audit_expressions : {Value : Type 0} → Expressions Value → Report → Report
    audit_expressions exprs_nil report = report
    audit_expressions (exprs_cons e es) report = audit_expressions es (audit_expression e report)

    pub audit_opt_expression : {Value : Type 0} → OptExpression Value → Report → Report
    audit_opt_expression no_expr report = report
    audit_opt_expression (some_expr e) report = audit_expression e report

    pub audit_opt_expressions : {Value : Type 0} → OptExpressions Value → Report → Report
    audit_opt_expressions no_exprs report = report
    audit_opt_expressions (some_exprs es) report = audit_expressions es report

    pub audit_when_thens : {Value : Type 0} → WhenThens Value → Report → Report
    audit_when_thens when_thens_nil report = report
    audit_when_thens (when_thens_cons w t branches) report =
        audit_when_thens branches (audit_expression t (audit_expression w report))

    pub audit_window : {Value : Type 0} → WindowSpec Value → Report → Report
    audit_window (window_spec partition_by order_by _) report =
        audit_opt_terms order_by (audit_opt_expressions partition_by report)

    pub audit_terms : {Value : Type 0} → OrderByTerms Value → Report → Report
    audit_terms terms_nil report = report
    audit_terms (terms_cons e _ terms) report = audit_terms terms (audit_expression e report)

    pub audit_opt_terms : {Value : Type 0} → OptOrderByTerms Value → Report → Report
    audit_opt_terms no_terms report = report
    audit_opt_terms (some_terms terms) report = audit_terms terms report

  abbrev pub audit_target : {Value : Type 0} → InTarget Value → Report → Report
  audit_target (values es) report = audit_expressions es report
  audit_target (target_query _) report = report

  unfoldable pub audit_predicate : {Value : Type 0} → Predicate Value → Report → Report
  audit_predicate (comparison left _ right) report =
      audit_expression right (audit_expression left report)
  audit_predicate (and_pred left right) report = audit_predicate right (audit_predicate left report)
  audit_predicate (or_pred left right) report = audit_predicate right (audit_predicate left report)
  audit_predicate (not_pred child) report = audit_predicate child report
  audit_predicate (between e low high) report =
      audit_expression high (audit_expression low (audit_expression e report))
  audit_predicate (in_pred e target) report = audit_target target (audit_expression e report)
  audit_predicate (like e _) report = audit_expression e report
  audit_predicate (is_null e) report = audit_expression e report
  audit_predicate (exists _) report = report
  audit_predicate true_pred report = report
  audit_predicate false_pred report = report

  unfoldable pub audit_opt_predicate : {Value : Type 0} → OptPredicate Value → Report → Report
  audit_opt_predicate no_pred report = report
  audit_opt_predicate (some_pred p) report = audit_predicate p report

  -- The schema has the table, or the table has an alias, which skips the check.
  unfoldable pub table_known : Text → Option Text → Bool
  table_known name alias = is_some alias || is_some (get_table schema name)

  unfoldable pub check_table : Text → Option Text → Report → Report
  check_table name alias report =
      if table_known name alias
      then report
      else report
        ++ (record {
          kind = missing_table;
          identifier = name;
          context = bytes "FROM clause";
          severity = error;
        })
          ∷ []

  unfoldable pub audit_from : {Value : Type 0} → FromClause Value → Report → Report
  audit_from (FromClause.table name alias) report =
      check_table name alias (check_pattern name report)
  audit_from (FromClause.subquery _ _) report = report

  unfoldable pub audit_projection : {Value : Type 0} → Projection Value → Report → Report
  audit_projection (Projection.column t c (some alias)) report = check_pattern c report
  audit_projection (Projection.column t c none) report =
      check_known (bytes "SELECT projection") t c (check_pattern c report)
  audit_projection (expr e _) report = audit_expression e report
  audit_projection (star_of (some t)) report = check_pattern t report
  audit_projection (star_of none) report = report

  unfoldable pub audit_select : {Value : Type 0} → Projections Value → Report → Report
  audit_select select_nil report = report
  audit_select (select_cons p ps) report = audit_select ps (audit_projection p report)

  -- The conditions of the joins are not audited.
  unfoldable pub audit_joins : {Value : Type 0} → JoinClauses Value → Report → Report
  audit_joins joins_nil report = report
  audit_joins (joins_cons _ right _ joins) report = audit_joins joins (audit_from right report)

  unfoldable pub audit_opt_joins : {Value : Type 0} → OptJoinClauses Value → Report → Report
  audit_opt_joins no_joins report = report
  audit_opt_joins (some_joins joins) report = audit_joins joins report

  unfoldable pub audit_ctes : {Value : Type 0} → Ctes Value → Report → Report
  audit_ctes ctes_nil report = report
  audit_ctes (ctes_cons name _ _ ctes) report = audit_ctes ctes (check_pattern name report)

  unfoldable pub audit_opt_ctes : {Value : Type 0} → OptCtes Value → Report → Report
  audit_opt_ctes no_ctes report = report
  audit_opt_ctes (some_ctes ctes) report = audit_ctes ctes report

  unfoldable pub audit_report : {Value : Type 0} → QueryPlan Value → Report → Report
  audit_report (query_plan select _ _ from filter group having order _ _ joins ctes _) report =
      audit_opt_terms order (
        audit_opt_expressions group (
          audit_opt_predicate having (
            audit_opt_predicate filter (
              audit_select select
                (audit_opt_ctes ctes (audit_opt_joins joins (audit_from from report)))))))

  -- `AuditStage::audit`
  unfoldable pub audit_plan : {Value : Type 0} → QueryPlan Value → Verdict
  audit_plan plan =
      let report = audit_report plan [] in
      if has_blockers report then rejected (into_errors report) else accepted
