-- ===== src/Validate/Dialect/Walk.antt =====
-- The recursion of the dialect checks: `validate_inner`, `validate_expression` and `validate_predicate` of
-- crates/vlorql-core/src/validate/dialect.rs.
use vlor_ql.Common.{[]}
use vlor_ql.Policy.Engine.Nested.{Verdict, verdict_of}
use vlor_ql.Schema.Dialect.{DialectProfile}
use vlor_ql.Schema.Plan.{
  Expression, Expressions, OptExpression, OptExpressions, WhenThens, WindowSpec, OptWindowFrame,
  OrderByTerms, OptOrderByTerms, InTarget, Predicate, OptPredicate, Projection, Projections,
  JoinClauses, OptJoinClauses, Ctes, OptCtes, QueryPlan, literal, column_ref, function_call,
  binary_op, star, sub_query, case_when, window_function, exprs_nil, exprs_cons, no_expr, some_expr,
  no_exprs, some_exprs, when_thens_nil, when_thens_cons, window_spec, no_frame, some_frame,
  no_bound, some_bound, terms_nil, terms_cons, no_terms, some_terms, values, target_query,
  comparison, and_pred, or_pred, not_pred, between, in_pred, like, is_null, exists, true_pred,
  false_pred, no_pred, some_pred, expr, star_of, select_nil, select_cons, joins_nil, joins_cons,
  no_joins, some_joins, ctes_nil, ctes_cons, no_ctes, some_ctes, query_plan,
}
use vlor_ql.Validate.Dialect.{
  Errors, check_call, check_window, check_join_type, check_head, check_tail, validate_frame_bound,
}

module _ (profile : DialectProfile) where
  unfoldable pub validate_frame : {Value : Type 0} → OptWindowFrame Value → Errors → Errors
  validate_frame no_frame errors = errors
  validate_frame (some_frame _ start no_bound) errors = validate_frame_bound start errors
  validate_frame (some_frame _ start (some_bound end)) errors =
      validate_frame_bound end (validate_frame_bound start errors)

  unfoldable mutual
    pub validate_inner : {Value : Type 0} → QueryPlan Value → Errors → Errors
    validate_inner (query_plan select distinct _ _ filter group having order _ offset joins ctes _)
          errors =
        dialect_opt_ctes ctes (
          dialect_opt_terms order (
            dialect_opt_predicate having (
              dialect_opt_expressions group (
                dialect_opt_predicate filter (
                  dialect_select select (
                    check_tail profile offset group distinct select
                      (dialect_opt_joins joins (check_head profile ctes joins errors))))))))

    pub dialect_opt_joins : {Value : Type 0} → OptJoinClauses Value → Errors → Errors
    dialect_opt_joins no_joins errors = errors
    dialect_opt_joins (some_joins joins) errors = dialect_joins joins errors

    pub dialect_joins : {Value : Type 0} → JoinClauses Value → Errors → Errors
    dialect_joins joins_nil errors = errors
    dialect_joins (joins_cons kind _ on joins) errors =
        dialect_joins joins (validate_predicate on (check_join_type profile kind errors))

    pub dialect_select : {Value : Type 0} → Projections Value → Errors → Errors
    dialect_select select_nil errors = errors
    dialect_select (select_cons p ps) errors = dialect_select ps (dialect_projection p errors)

    pub dialect_projection : {Value : Type 0} → Projection Value → Errors → Errors
    dialect_projection (Projection.column _ _ _) errors = errors
    dialect_projection (expr e _) errors = validate_expression e errors
    dialect_projection (star_of _) errors = errors

    pub dialect_opt_ctes : {Value : Type 0} → OptCtes Value → Errors → Errors
    dialect_opt_ctes no_ctes errors = errors
    dialect_opt_ctes (some_ctes ctes) errors = dialect_ctes ctes errors

    pub dialect_ctes : {Value : Type 0} → Ctes Value → Errors → Errors
    dialect_ctes ctes_nil errors = errors
    dialect_ctes (ctes_cons _ _ query ctes) errors = dialect_ctes ctes (validate_inner query errors)

    pub validate_expression : {Value : Type 0} → Expression Value → Errors → Errors
    validate_expression (literal _ _) errors = errors
    validate_expression (column_ref _ _) errors = errors
    validate_expression (function_call name args distinct) errors =
        dialect_expressions args (check_call profile name distinct errors)
    validate_expression (binary_op left _ right) errors =
        validate_expression right (validate_expression left errors)
    validate_expression star errors = errors
    validate_expression (sub_query query) errors = validate_inner query errors
    validate_expression (case_when operand branches otherwise) errors =
        dialect_opt_expression otherwise
          (dialect_when_thens branches (dialect_opt_expression operand errors))
    validate_expression (window_function name args distinct over) errors =
        dialect_window over (
          dialect_expressions args (check_call profile name distinct (check_window profile errors)))

    pub dialect_window : {Value : Type 0} → WindowSpec Value → Errors → Errors
    dialect_window (window_spec partition_by order_by frame) errors =
        validate_frame frame
          (dialect_opt_terms order_by (dialect_opt_expressions partition_by errors))

    pub dialect_expressions : {Value : Type 0} → Expressions Value → Errors → Errors
    dialect_expressions exprs_nil errors = errors
    dialect_expressions (exprs_cons e es) errors =
        dialect_expressions es (validate_expression e errors)

    pub dialect_opt_expression : {Value : Type 0} → OptExpression Value → Errors → Errors
    dialect_opt_expression no_expr errors = errors
    dialect_opt_expression (some_expr e) errors = validate_expression e errors

    pub dialect_opt_expressions : {Value : Type 0} → OptExpressions Value → Errors → Errors
    dialect_opt_expressions no_exprs errors = errors
    dialect_opt_expressions (some_exprs es) errors = dialect_expressions es errors

    pub dialect_when_thens : {Value : Type 0} → WhenThens Value → Errors → Errors
    dialect_when_thens when_thens_nil errors = errors
    dialect_when_thens (when_thens_cons w t branches) errors =
        dialect_when_thens branches (validate_expression t (validate_expression w errors))

    pub dialect_terms : {Value : Type 0} → OrderByTerms Value → Errors → Errors
    dialect_terms terms_nil errors = errors
    dialect_terms (terms_cons e _ terms) errors = dialect_terms terms (validate_expression e errors)

    pub dialect_opt_terms : {Value : Type 0} → OptOrderByTerms Value → Errors → Errors
    dialect_opt_terms no_terms errors = errors
    dialect_opt_terms (some_terms terms) errors = dialect_terms terms errors

    pub validate_predicate : {Value : Type 0} → Predicate Value → Errors → Errors
    validate_predicate (comparison left _ right) errors =
        validate_expression right (validate_expression left errors)
    validate_predicate (and_pred left right) errors =
        validate_predicate right (validate_predicate left errors)
    validate_predicate (or_pred left right) errors =
        validate_predicate right (validate_predicate left errors)
    validate_predicate (not_pred child) errors = validate_predicate child errors
    validate_predicate (between e low high) errors =
        validate_expression high (validate_expression low (validate_expression e errors))
    validate_predicate (in_pred e target) errors =
        dialect_target target (validate_expression e errors)
    validate_predicate (exists query) errors = validate_inner query errors
    validate_predicate (like e _) errors = validate_expression e errors
    validate_predicate (is_null e) errors = validate_expression e errors
    validate_predicate true_pred errors = errors
    validate_predicate false_pred errors = errors

    pub dialect_target : {Value : Type 0} → InTarget Value → Errors → Errors
    dialect_target (values es) errors = dialect_expressions es errors
    dialect_target (target_query query) errors = validate_inner query errors

    pub dialect_opt_predicate : {Value : Type 0} → OptPredicate Value → Errors → Errors
    dialect_opt_predicate no_pred errors = errors
    dialect_opt_predicate (some_pred p) errors = validate_predicate p errors

  -- `BoundDialectValidator::validate`
  unfoldable pub validate_dialect : {Value : Type 0} → QueryPlan Value → Verdict
  validate_dialect plan = verdict_of (validate_inner plan [])
