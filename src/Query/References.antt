-- ===== src/Query/References.antt =====
-- The column references and stars of one query level: `collect_plan_references` and its helpers in
-- crates/vlorql-core/src/query.rs. A `Vec` that a function pushes to is its last argument, and its
-- result is the `Vec` afterwards.
use vlor_ql.Common.{Option, List, [], ◌∷◌, ◌++◌, if◌then◌else◌}
use vlor_ql.Common.Text.{Text}
use vlor_ql.Schema.Types.{is_cross}
use vlor_ql.Schema.Plan.{
  Expression, Expressions, OptExpression, OptExpressions, WhenThens, WindowSpec, OrderByTerms,
  OptOrderByTerms, InTarget, Predicate, OptPredicate, Projection, Projections, JoinClauses,
  OptJoinClauses, QueryPlan, literal, column_ref, function_call, binary_op, star, sub_query,
  case_when, window_function, exprs_nil, exprs_cons, no_expr, some_expr, no_exprs, some_exprs,
  when_thens_nil, when_thens_cons, window_spec, terms_nil, terms_cons, no_terms, some_terms, values,
  target_query, comparison, and_pred, or_pred, not_pred, between, in_pred, like, is_null, exists,
  true_pred, false_pred, no_pred, some_pred, expr, star_of, select_nil, select_cons, joins_nil,
  joins_cons, no_joins, some_joins, query_plan,
}

pub record ColumnReference : Type 0 where
  pub table : Option Text
  pub column : Text

pub record PlanReferences : Type 0 where
  pub columns : List ColumnReference
  pub stars : List (Option Text)

-- `references.push(reference)`
abbrev pub push {ℓ} : {A : Type ℓ} → List A → A → List A
push xs x = xs ++ x ∷ []

unfoldable mutual
  pub collect_expression_references :
      {Value : Type 0} → Expression Value → List ColumnReference → List ColumnReference
  collect_expression_references (literal _ _) refs = refs
  collect_expression_references (column_ref t c) refs = push refs (record { table = t; column = c })
  collect_expression_references (function_call _ args _) refs = collect_expressions args refs
  collect_expression_references (binary_op left _ right) refs =
      collect_expression_references right (collect_expression_references left refs)
  collect_expression_references star refs = refs
  collect_expression_references (sub_query _) refs = refs
  collect_expression_references (case_when operand branches otherwise) refs =
      collect_opt_expression otherwise
        (collect_when_thens branches (collect_opt_expression operand refs))
  collect_expression_references (window_function _ args _ over) refs =
      collect_window_spec over (collect_expressions args refs)

  pub collect_expressions :
      {Value : Type 0} → Expressions Value → List ColumnReference → List ColumnReference
  collect_expressions exprs_nil refs = refs
  collect_expressions (exprs_cons e es) refs =
      collect_expressions es (collect_expression_references e refs)

  pub collect_opt_expression :
      {Value : Type 0} → OptExpression Value → List ColumnReference → List ColumnReference
  collect_opt_expression no_expr refs = refs
  collect_opt_expression (some_expr e) refs = collect_expression_references e refs

  pub collect_opt_expressions :
      {Value : Type 0} → OptExpressions Value → List ColumnReference → List ColumnReference
  collect_opt_expressions no_exprs refs = refs
  collect_opt_expressions (some_exprs es) refs = collect_expressions es refs

  pub collect_when_thens :
      {Value : Type 0} → WhenThens Value → List ColumnReference → List ColumnReference
  collect_when_thens when_thens_nil refs = refs
  collect_when_thens (when_thens_cons w t branches) refs =
      collect_when_thens branches
        (collect_expression_references t (collect_expression_references w refs))

  -- The partition and the order of a window, and not its frame.
  pub collect_window_spec :
      {Value : Type 0} → WindowSpec Value → List ColumnReference → List ColumnReference
  collect_window_spec (window_spec partition_by order_by _) refs =
      collect_opt_terms order_by (collect_opt_expressions partition_by refs)

  pub collect_terms :
      {Value : Type 0} → OrderByTerms Value → List ColumnReference → List ColumnReference
  collect_terms terms_nil refs = refs
  collect_terms (terms_cons e _ terms) refs =
      collect_terms terms (collect_expression_references e refs)

  pub collect_opt_terms :
      {Value : Type 0} → OptOrderByTerms Value → List ColumnReference → List ColumnReference
  collect_opt_terms no_terms refs = refs
  collect_opt_terms (some_terms terms) refs = collect_terms terms refs

abbrev pub collect_in_target :
    {Value : Type 0} → InTarget Value → List ColumnReference → List ColumnReference
collect_in_target (values es) refs = collect_expressions es refs
collect_in_target (target_query _) refs = refs

unfoldable pub collect_predicate_references :
    {Value : Type 0} → Predicate Value → List ColumnReference → List ColumnReference
collect_predicate_references (comparison left _ right) refs =
    collect_expression_references right (collect_expression_references left refs)
collect_predicate_references (and_pred left right) refs =
    collect_predicate_references right (collect_predicate_references left refs)
collect_predicate_references (or_pred left right) refs =
    collect_predicate_references right (collect_predicate_references left refs)
collect_predicate_references (not_pred child) refs = collect_predicate_references child refs
collect_predicate_references (between e low high) refs =
    collect_expression_references high
      (collect_expression_references low (collect_expression_references e refs))
collect_predicate_references (in_pred e target) refs =
    collect_in_target target (collect_expression_references e refs)
collect_predicate_references (like e _) refs = collect_expression_references e refs
collect_predicate_references (is_null e) refs = collect_expression_references e refs
collect_predicate_references (exists _) refs = refs
collect_predicate_references true_pred refs = refs
collect_predicate_references false_pred refs = refs

unfoldable pub collect_opt_predicate :
    {Value : Type 0} → OptPredicate Value → List ColumnReference → List ColumnReference
collect_opt_predicate no_pred refs = refs
collect_opt_predicate (some_pred p) refs = collect_predicate_references p refs

-- The match of `collect_plan_references` on one projection.
unfoldable pub collect_projection :
    {Value : Type 0} → Projection Value → PlanReferences → PlanReferences
collect_projection (Projection.column t c _) refs = record refs {
  columns = push refs.columns (record { table = t; column = c });
}
collect_projection (expr e _) refs = record refs {
  columns = collect_expression_references e refs.columns;
}
collect_projection (star_of t) refs = record refs { stars = push refs.stars t }

unfoldable pub collect_select :
    {Value : Type 0} → Projections Value → PlanReferences → PlanReferences
unfolding collect_projection
collect_select select_nil refs = refs
collect_select (select_cons p ps) refs = collect_select ps (collect_projection p refs)

unfoldable pub collect_joins :
    {Value : Type 0} → JoinClauses Value → List ColumnReference → List ColumnReference
collect_joins joins_nil refs = refs
collect_joins (joins_cons join_type _ on joins) refs =
    collect_joins joins (if is_cross join_type then refs else collect_predicate_references on refs)

unfoldable pub collect_opt_joins :
    {Value : Type 0} → OptJoinClauses Value → List ColumnReference → List ColumnReference
unfolding collect_joins
collect_opt_joins no_joins refs = refs
collect_opt_joins (some_joins joins) refs = collect_joins joins refs

unfoldable pub collect_plan_references : {Value : Type 0} → QueryPlan Value → PlanReferences
unfolding collect_select collect_opt_predicate collect_opt_joins
collect_plan_references (query_plan select _ _ _ filter group_by having order_by _ _ joins _ _) =
    let refs = collect_select select (record { columns = []; stars = [] }) in
    record refs {
      columns = collect_opt_joins joins (
          collect_opt_terms order_by (
            collect_opt_predicate having
              (collect_opt_expressions group_by (collect_opt_predicate filter refs.columns))));
    }
