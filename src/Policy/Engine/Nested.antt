-- ===== src/Policy/Engine/Nested.antt =====
-- The recursion of `PolicyEngine::validate_plan_inner` through CTEs and subqueries, and the entry
-- point `validate` (crates/vlorql-core/src/policy/engine.rs).
use vlor_ql.Common.{Option, none, some, List, [], ◌∷◌}
use vlor_ql.Errors.{VlorQlError}
use vlor_ql.Policy.Config.{PolicyConfig}
use vlor_ql.Policy.Engine.{validate_level}
use vlor_ql.Policy.Report.{fresh}
use vlor_ql.Query.References.{collect_plan_references}
use vlor_ql.Query.Scope.{QueryScope, from_plan, extend_with_outer}
use vlor_ql.Schema.Snapshot.{SchemaSnapshot}
use vlor_ql.Schema.Plan.{
  Expression, Expressions, OptExpressions, OrderByTerms, OptOrderByTerms, InTarget, Predicate,
  OptPredicate, Projection, Projections, JoinClauses, OptJoinClauses, Ctes, OptCtes, QueryPlan,
  function_call, binary_op, sub_query, exprs_nil, exprs_cons, no_exprs, some_exprs, terms_nil,
  terms_cons, no_terms, some_terms, values, target_query, comparison, and_pred, or_pred, not_pred,
  between, in_pred, like, is_null, exists, true_pred, false_pred, no_pred, some_pred, expr, star_of,
  select_nil, select_cons, joins_nil, joins_cons, no_joins, some_joins, ctes_nil, ctes_cons,
  no_ctes, some_ctes, query_plan,
}

-- The scope of a level: its own sources and CTE names, and the sources of the query around it.
unfoldable pub scope_within : Option QueryScope → QueryScope → QueryScope
unfolding extend_with_outer
scope_within none scope = scope
scope_within (some outer) scope = extend_with_outer scope outer

unfoldable pub level_scope : {Value : Type 0} → Option QueryScope → QueryPlan Value → QueryScope
unfolding scope_within from_plan
level_scope outer plan = scope_within outer (from_plan plan)

-- The checks of one level, started with empty sets: the errors afterwards.
unfoldable pub check_level :
    {Value : Type 0}
    → PolicyConfig Value
    → SchemaSnapshot
    → QueryScope
    → QueryPlan Value
    → List VlorQlError
    → List VlorQlError
unfolding validate_level collect_plan_references
check_level config snapshot scope plan errors =
    (validate_level config snapshot scope (collect_plan_references plan) (fresh errors)).errors

unfoldable mutual
  unfolding level_scope check_level

  -- `validate_subqueries_in_plan` is the chain of calls behind the level's own checks.
  pub validate_plan_inner :
      {Value : Type 0}
      → QueryPlan Value
      → PolicyConfig Value
      → SchemaSnapshot
      → Option QueryScope
      → List VlorQlError
      → List VlorQlError
  validate_plan_inner (query_plan select d on from filter group having order l o joins ctes sets)
        config snapshot outer errors =
      let plan = query_plan select d on from filter group having order l o joins ctes sets in
      let scope = level_scope outer plan in
      subqueries_in_opt_joins joins config snapshot scope (
        subqueries_in_opt_terms order config snapshot scope (
          subqueries_in_opt_predicate having config snapshot scope (
            subqueries_in_opt_expressions group config snapshot scope (
              subqueries_in_opt_predicate filter config snapshot scope (
                subqueries_in_select select config snapshot scope (
                  check_level config snapshot scope plan
                    (validate_opt_ctes ctes config snapshot errors)))))))

  pub validate_opt_ctes :
      {Value : Type 0}
      → OptCtes Value
      → PolicyConfig Value
      → SchemaSnapshot
      → List VlorQlError
      → List VlorQlError
  validate_opt_ctes no_ctes config snapshot errors = errors
  validate_opt_ctes (some_ctes ctes) config snapshot errors =
      validate_ctes ctes config snapshot errors

  pub validate_ctes :
      {Value : Type 0}
      → Ctes Value
      → PolicyConfig Value
      → SchemaSnapshot
      → List VlorQlError
      → List VlorQlError
  validate_ctes ctes_nil config snapshot errors = errors
  validate_ctes (ctes_cons _ _ query ctes) config snapshot errors =
      validate_ctes ctes config snapshot (validate_plan_inner query config snapshot none errors)

  pub subqueries_in_select :
      {Value : Type 0}
      → Projections Value
      → PolicyConfig Value
      → SchemaSnapshot
      → QueryScope
      → List VlorQlError
      → List VlorQlError
  subqueries_in_select select_nil config snapshot scope errors = errors
  subqueries_in_select (select_cons p ps) config snapshot scope errors =
      subqueries_in_select ps config snapshot scope
        (subqueries_in_projection p config snapshot scope errors)

  pub subqueries_in_projection :
      {Value : Type 0}
      → Projection Value
      → PolicyConfig Value
      → SchemaSnapshot
      → QueryScope
      → List VlorQlError
      → List VlorQlError
  subqueries_in_projection (Projection.column _ _ _) config snapshot scope errors = errors
  subqueries_in_projection (expr e _) config snapshot scope errors =
      validate_subqueries_in_expression e config snapshot scope errors
  subqueries_in_projection (star_of _) config snapshot scope errors = errors

  pub validate_subqueries_in_expression :
      {Value : Type 0}
      → Expression Value
      → PolicyConfig Value
      → SchemaSnapshot
      → QueryScope
      → List VlorQlError
      → List VlorQlError
  validate_subqueries_in_expression (sub_query query) config snapshot scope errors =
      validate_plan_inner query config snapshot (some scope) errors
  validate_subqueries_in_expression (function_call _ args _) config snapshot scope errors =
      subqueries_in_expressions args config snapshot scope errors
  validate_subqueries_in_expression (binary_op left _ right) config snapshot scope errors =
      validate_subqueries_in_expression right config snapshot scope
        (validate_subqueries_in_expression left config snapshot scope errors)
  validate_subqueries_in_expression _ config snapshot scope errors = errors

  pub subqueries_in_expressions :
      {Value : Type 0}
      → Expressions Value
      → PolicyConfig Value
      → SchemaSnapshot
      → QueryScope
      → List VlorQlError
      → List VlorQlError
  subqueries_in_expressions exprs_nil config snapshot scope errors = errors
  subqueries_in_expressions (exprs_cons e es) config snapshot scope errors =
      subqueries_in_expressions es config snapshot scope
        (validate_subqueries_in_expression e config snapshot scope errors)

  pub subqueries_in_opt_expressions :
      {Value : Type 0}
      → OptExpressions Value
      → PolicyConfig Value
      → SchemaSnapshot
      → QueryScope
      → List VlorQlError
      → List VlorQlError
  subqueries_in_opt_expressions no_exprs config snapshot scope errors = errors
  subqueries_in_opt_expressions (some_exprs es) config snapshot scope errors =
      subqueries_in_expressions es config snapshot scope errors

  pub subqueries_in_terms :
      {Value : Type 0}
      → OrderByTerms Value
      → PolicyConfig Value
      → SchemaSnapshot
      → QueryScope
      → List VlorQlError
      → List VlorQlError
  subqueries_in_terms terms_nil config snapshot scope errors = errors
  subqueries_in_terms (terms_cons e _ terms) config snapshot scope errors =
      subqueries_in_terms terms config snapshot scope
        (validate_subqueries_in_expression e config snapshot scope errors)

  pub subqueries_in_opt_terms :
      {Value : Type 0}
      → OptOrderByTerms Value
      → PolicyConfig Value
      → SchemaSnapshot
      → QueryScope
      → List VlorQlError
      → List VlorQlError
  subqueries_in_opt_terms no_terms config snapshot scope errors = errors
  subqueries_in_opt_terms (some_terms terms) config snapshot scope errors =
      subqueries_in_terms terms config snapshot scope errors

  pub validate_subqueries_in_predicate :
      {Value : Type 0}
      → Predicate Value
      → PolicyConfig Value
      → SchemaSnapshot
      → QueryScope
      → List VlorQlError
      → List VlorQlError
  validate_subqueries_in_predicate (comparison left _ right) config snapshot scope errors =
      validate_subqueries_in_expression right config snapshot scope
        (validate_subqueries_in_expression left config snapshot scope errors)
  validate_subqueries_in_predicate (and_pred left right) config snapshot scope errors =
      validate_subqueries_in_predicate right config snapshot scope
        (validate_subqueries_in_predicate left config snapshot scope errors)
  validate_subqueries_in_predicate (or_pred left right) config snapshot scope errors =
      validate_subqueries_in_predicate right config snapshot scope
        (validate_subqueries_in_predicate left config snapshot scope errors)
  validate_subqueries_in_predicate (not_pred child) config snapshot scope errors =
      validate_subqueries_in_predicate child config snapshot scope errors
  validate_subqueries_in_predicate (between e low high) config snapshot scope errors =
      validate_subqueries_in_expression high config snapshot scope (
        validate_subqueries_in_expression low config snapshot scope
          (validate_subqueries_in_expression e config snapshot scope errors))
  validate_subqueries_in_predicate (in_pred e target) config snapshot scope errors =
      subqueries_in_target target config snapshot scope
        (validate_subqueries_in_expression e config snapshot scope errors)
  validate_subqueries_in_predicate (exists query) config snapshot scope errors =
      validate_plan_inner query config snapshot (some scope) errors
  validate_subqueries_in_predicate (like e _) config snapshot scope errors =
      validate_subqueries_in_expression e config snapshot scope errors
  validate_subqueries_in_predicate (is_null e) config snapshot scope errors =
      validate_subqueries_in_expression e config snapshot scope errors
  validate_subqueries_in_predicate true_pred config snapshot scope errors = errors
  validate_subqueries_in_predicate false_pred config snapshot scope errors = errors

  pub subqueries_in_target :
      {Value : Type 0}
      → InTarget Value
      → PolicyConfig Value
      → SchemaSnapshot
      → QueryScope
      → List VlorQlError
      → List VlorQlError
  subqueries_in_target (values _) config snapshot scope errors = errors
  subqueries_in_target (target_query query) config snapshot scope errors =
      validate_plan_inner query config snapshot (some scope) errors

  pub subqueries_in_opt_predicate :
      {Value : Type 0}
      → OptPredicate Value
      → PolicyConfig Value
      → SchemaSnapshot
      → QueryScope
      → List VlorQlError
      → List VlorQlError
  subqueries_in_opt_predicate no_pred config snapshot scope errors = errors
  subqueries_in_opt_predicate (some_pred p) config snapshot scope errors =
      validate_subqueries_in_predicate p config snapshot scope errors

  pub subqueries_in_joins :
      {Value : Type 0}
      → JoinClauses Value
      → PolicyConfig Value
      → SchemaSnapshot
      → QueryScope
      → List VlorQlError
      → List VlorQlError
  subqueries_in_joins joins_nil config snapshot scope errors = errors
  subqueries_in_joins (joins_cons _ _ on joins) config snapshot scope errors =
      subqueries_in_joins joins config snapshot scope
        (validate_subqueries_in_predicate on config snapshot scope errors)

  pub subqueries_in_opt_joins :
      {Value : Type 0}
      → OptJoinClauses Value
      → PolicyConfig Value
      → SchemaSnapshot
      → QueryScope
      → List VlorQlError
      → List VlorQlError
  subqueries_in_opt_joins no_joins config snapshot scope errors = errors
  subqueries_in_opt_joins (some_joins joins) config snapshot scope errors =
      subqueries_in_joins joins config snapshot scope errors

-- `Result<(), Vec<VlorQLError>>`
pub data Verdict : Type 0 where
  accepted : Verdict
  rejected : List VlorQlError → Verdict

abbrev pub verdict_of : List VlorQlError → Verdict
verdict_of [] = accepted
verdict_of (e ∷ es) = rejected (e ∷ es)

unfoldable pub validate :
    {Value : Type 0} → PolicyConfig Value → QueryPlan Value → SchemaSnapshot → Verdict
unfolding validate_plan_inner
validate config plan snapshot = verdict_of (validate_plan_inner plan config snapshot none [])
