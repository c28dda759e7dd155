-- ===== src/Compile/Builder/Placeholders.antt =====
-- The whole of a query (crates/vlorql-core/src/compile/builder/mod.rs, clause.rs and expr.rs) keeps the
-- parameters and the placeholders in step.
pub mod Scopes
pub mod Clauses
use vlor_ql.Common.{
  ℕ, zero, suc, ◌≤◌, ◌<◌, Bool, true, false, ◌||◌, Option, none, some, List, [], ◌∷◌, ◌++◌, ◌≡◌,
  refl, sym, ap, ◌∙◌, ◌↔◌, ◌⊎◌, inl, inr, arith, length, get_elem?, All, Member, here, there,
}
use vlor_ql.Common.Text.{Text}
use vlor_ql.Compile.Builder.{Json, Context, push_alias_scope}
use vlor_ql.Compile.Builder.Clauses.{is_some_exprs, is_some_terms, any_recursive}
use vlor_ql.Compile.Builder.Parameters.{IsCached, Extends, InRange, ⊕-done, subst_done}
use vlor_ql.Compile.Builder.Placeholders.Clauses.{
  Keeps-distinct_word, Keeps-space_if, Keeps-direction, Keeps-with_words, Keeps-on_clause,
  Keeps-unless_operand, Keeps-require_postgres, Keeps-render_column, Keeps-render_alias,
  Keeps-render_star, Keeps-enclose_cte, Keeps-add_parameter, Keeps-render_literal,
  Keeps-build_limit_offset,
}
use vlor_ql.Compile.Builder.Placeholders.Scopes.{
  Keeps, ◌▷◌, ◌▶◌, Closes-pop_alias_scope, Keeps-nothing, Keeps-fail, Keeps-push_code,
  Keeps-push_str, Keeps-push_outcome, Keeps-scope,
}
use vlor_ql.Compile.Builder.Queries.{
  render_expression, render_list, render_more, render_after, render_when_thens, render_terms,
  render_more_terms, render_window_spec, render_partition, render_window_order, render_window_frame,
  render_frame_end, render_window_frame_bound, render_predicate, render_target, build_filter,
  build_group_by, build_order_by, build_distinct, render_projection, render_more_projections,
  build_select, render_from_clause, build_joins, build_opt_joins, build_with, build_more_ctes,
  render_set_operation, build_query_impl, build_query, build, empty_builder,
}
use vlor_ql.Compile.Dialect.{is_indexed, dialect_from_name}
use vlor_ql.Compile.Sql.{Render, Builder, Sql, done, placeholder, failed}
use Prim.Native.String.{String}
use vlor_ql.Schema.Types.{JoinType, is_cross, SqlDialect}
use vlor_ql.Schema.Plan.{
  Expression, Expressions, OptExpression, OptExpressions, WhenThens, WindowSpec, OptWindowFrame,
  WindowFrameBound, OptWindowFrameBound, OrderByTerms, OptOrderByTerms, InTarget, Predicate,
  OptPredicate, Projection, Projections, FromClause, JoinClauses, OptJoinClauses, Ctes, OptCtes,
  OptSetOperation, QueryPlan, literal, column_ref, function_call, binary_op, star, sub_query,
  case_when, window_function, exprs_nil, exprs_cons, no_expr, some_expr, no_exprs, some_exprs,
  when_thens_nil, when_thens_cons, window_spec, no_frame, some_frame, unbounded_preceding,
  preceding, current_row, following, unbounded_following, no_bound, some_bound, terms_nil,
  terms_cons, no_terms, some_terms, values, target_query, comparison, and_pred, or_pred, not_pred,
  between, in_pred, like, is_null, exists, true_pred, false_pred, no_pred, some_pred, expr, star_of,
  select_nil, select_cons, joins_nil, joins_cons, no_joins, some_joins, ctes_nil, ctes_cons,
  no_ctes, some_ctes, no_set_operation, some_set_operation, query_plan,
}

module _ {Value : Type 0} (context : Context Value)
    (indexed : is_indexed context.config ≡ true) where
  mutual
    unfolding render_expression

    render_expression-Keeps : (x : Expression Value) → Keeps context (render_expression context x)
    render_expression-Keeps (literal v type) = Keeps-render_literal context indexed v type
    render_expression-Keeps (column_ref qualifier name) = Keeps-render_column qualifier name
    render_expression-Keeps (function_call name args distinct) =
        Keeps-push_outcome _
        ▷ Keeps-push_str _
        ▷ Keeps-distinct_word distinct
        ▷ render_list-Keeps args
        ▷ Keeps-push_str _
    render_expression-Keeps (binary_op left op right) =
        Keeps-push_str _
        ▷ render_expression-Keeps left
        ▷ Keeps-push_str _
        ▷ Keeps-push_code _
        ▷ Keeps-push_str _
        ▷ render_expression-Keeps right
        ▷ Keeps-push_str _
    render_expression-Keeps star = Keeps-push_str _
    render_expression-Keeps (sub_query query) =
        Keeps-push_str _ ▷ build_query_impl-Keeps query false ▷ Keeps-push_str _
    render_expression-Keeps (case_when operand when_thens else_result) =
        Keeps-push_str _
        ▷ render_after-Keeps " " operand
        ▷ render_when_thens-Keeps when_thens
        ▷ render_after-Keeps " ELSE " else_result
        ▷ Keeps-push_str _
    render_expression-Keeps (window_function name args distinct over) =
        Keeps-push_outcome _
        ▷ Keeps-push_str _
        ▷ Keeps-distinct_word distinct
        ▷ render_list-Keeps args
        ▷ Keeps-push_str _
        ▷ render_window_spec-Keeps over

    render_list-Keeps : (x : Expressions Value) → Keeps context (render_list context x)
    render_list-Keeps exprs_nil = Keeps-nothing
    render_list-Keeps (exprs_cons e es) = render_expression-Keeps e ▷ render_more-Keeps es

    render_more-Keeps : (x : Expressions Value) → Keeps context (render_more context x)
    render_more-Keeps exprs_nil = Keeps-nothing
    render_more-Keeps (exprs_cons e es) =
        Keeps-push_str _ ▷ render_expression-Keeps e ▷ render_more-Keeps es

    render_after-Keeps :
        (x : String) (y : OptExpression Value) → Keeps context (render_after context x y)
    render_after-Keeps word no_expr = Keeps-nothing
    render_after-Keeps word (some_expr e) = Keeps-push_str _ ▷ render_expression-Keeps e

    render_when_thens-Keeps : (x : WhenThens Value) → Keeps context (render_when_thens context x)
    render_when_thens-Keeps when_thens_nil = Keeps-nothing
    render_when_thens-Keeps (when_thens_cons when_e then_e rest) =
        Keeps-push_str _
        ▷ render_expression-Keeps when_e
        ▷ Keeps-push_str _
        ▷ render_expression-Keeps then_e
        ▷ render_when_thens-Keeps rest

    render_terms-Keeps : (x : OrderByTerms Value) → Keeps context (render_terms context x)
    render_terms-Keeps terms_nil = Keeps-nothing
    render_terms-Keeps (terms_cons e descending terms) =
        render_expression-Keeps e ▷ Keeps-direction descending ▷ render_more_terms-Keeps terms

    render_more_terms-Keeps : (x : OrderByTerms Value) → Keeps context (render_more_terms context x)
    render_more_terms-Keeps terms_nil = Keeps-nothing
    render_more_terms-Keeps (terms_cons e descending terms) =
        Keeps-push_str _
        ▷ render_expression-Keeps e
        ▷ Keeps-direction descending
        ▷ render_more_terms-Keeps terms

    render_window_spec-Keeps : (x : WindowSpec Value) → Keeps context (render_window_spec context x)
    render_window_spec-Keeps (window_spec partition_by order_by frame) =
        Keeps-push_str _
        ▷ render_partition-Keeps partition_by
        ▷ render_window_order-Keeps (is_some_exprs partition_by) order_by
        ▷ render_window_frame-Keeps (is_some_exprs partition_by || is_some_terms order_by) frame
        ▷ Keeps-push_str _

    render_partition-Keeps : (x : OptExpressions Value) → Keeps context (render_partition context x)
    render_partition-Keeps no_exprs = Keeps-nothing
    render_partition-Keeps (some_exprs es) = Keeps-push_str _ ▷ render_list-Keeps es

    render_window_order-Keeps :
        (x : Bool) (y : OptOrderByTerms Value) → Keeps context (render_window_order context x y)
    render_window_order-Keeps clause_added no_terms = Keeps-nothing
    render_window_order-Keeps clause_added (some_terms terms) =
        Keeps-space_if clause_added ▷ Keeps-push_str _ ▷ render_terms-Keeps terms

    render_window_frame-Keeps :
        (x : Bool) (y : OptWindowFrame Value) → Keeps context (render_window_frame context x y)
    render_window_frame-Keeps clause_added no_frame = Keeps-nothing
    render_window_frame-Keeps clause_added (some_frame kind start end_bound) =
        Keeps-space_if clause_added
        ▷ Keeps-push_code _
        ▷ Keeps-push_str _
        ▷ render_window_frame_bound-Keeps start
        ▷ Keeps-push_str _
        ▷ render_frame_end-Keeps end_bound

    render_frame_end-Keeps :
        (x : OptWindowFrameBound Value) → Keeps context (render_frame_end context x)
    render_frame_end-Keeps no_bound = Keeps-push_str _
    render_frame_end-Keeps (some_bound bound) = render_window_frame_bound-Keeps bound

    render_window_frame_bound-Keeps :
        (x : WindowFrameBound Value) → Keeps context (render_window_frame_bound context x)
    render_window_frame_bound-Keeps unbounded_preceding = Keeps-push_str _
    render_window_frame_bound-Keeps (preceding e) = render_expression-Keeps e ▷ Keeps-push_str _
    render_window_frame_bound-Keeps current_row = Keeps-push_str _
    render_window_frame_bound-Keeps (following e) = render_expression-Keeps e ▷ Keeps-push_str _
    render_window_frame_bound-Keeps unbounded_following = Keeps-push_str _

    render_predicate-Keeps : (x : Predicate Value) → Keeps context (render_predicate context x)
    render_predicate-Keeps (comparison left op right) =
        render_expression-Keeps left
        ▷ Keeps-push_str _
        ▷ Keeps-push_outcome _
        ▷ Keeps-push_str _
        ▷ render_expression-Keeps right
    render_predicate-Keeps (and_pred left right) =
        Keeps-push_str _
        ▷ render_predicate-Keeps left
        ▷ Keeps-push_str _
        ▷ render_predicate-Keeps right
        ▷ Keeps-push_str _
    render_predicate-Keeps (or_pred left right) =
        Keeps-push_str _
        ▷ render_predicate-Keeps left
        ▷ Keeps-push_str _
        ▷ render_predicate-Keeps right
        ▷ Keeps-push_str _
    render_predicate-Keeps (not_pred child) =
        Keeps-push_str _ ▷ render_predicate-Keeps child ▷ Keeps-push_str _
    render_predicate-Keeps (between e low high) =
        render_expression-Keeps e
        ▷ Keeps-push_str _
        ▷ render_expression-Keeps low
        ▷ Keeps-push_str _
        ▷ render_expression-Keeps high
    render_predicate-Keeps (in_pred e target) =
        render_expression-Keeps e ▷ render_target-Keeps target
    render_predicate-Keeps (like e pattern) =
        render_expression-Keeps e ▷ Keeps-push_str _ ▷ Keeps-add_parameter context indexed _ _
    render_predicate-Keeps (is_null e) = render_expression-Keeps e ▷ Keeps-push_str _
    render_predicate-Keeps (exists query) =
        Keeps-push_str _ ▷ build_query_impl-Keeps query false ▷ Keeps-push_str _
    render_predicate-Keeps true_pred = Keeps-push_str _
    render_predicate-Keeps false_pred = Keeps-push_str _

    render_target-Keeps : (x : InTarget Value) → Keeps context (render_target context x)
    render_target-Keeps (values exprs_nil) = Keeps-fail _
    render_target-Keeps (values (exprs_cons e es)) =
        Keeps-push_str _ ▷ render_expression-Keeps e ▷ render_more-Keeps es ▷ Keeps-push_str _
    render_target-Keeps (target_query query) =
        Keeps-push_str _ ▷ build_query_impl-Keeps query false ▷ Keeps-push_str _

    build_filter-Keeps :
        (x : String) (y : OptPredicate Value) → Keeps context (build_filter context x y)
    build_filter-Keeps word no_pred = Keeps-nothing
    build_filter-Keeps word (some_pred p) = Keeps-push_str _ ▷ render_predicate-Keeps p

    build_group_by-Keeps : (x : OptExpressions Value) → Keeps context (build_group_by context x)
    build_group_by-Keeps no_exprs = Keeps-nothing
    build_group_by-Keeps (some_exprs exprs_nil) = Keeps-nothing
    build_group_by-Keeps (some_exprs (exprs_cons e es)) =
        Keeps-push_str _ ▷ render_expression-Keeps e ▷ render_more-Keeps es

    build_order_by-Keeps : (x : OptOrderByTerms Value) → Keeps context (build_order_by context x)
    build_order_by-Keeps no_terms = Keeps-nothing
    build_order_by-Keeps (some_terms terms_nil) = Keeps-nothing
    build_order_by-Keeps (some_terms (terms_cons e descending terms)) =
        Keeps-push_str _
        ▷ render_expression-Keeps e
        ▷ Keeps-direction descending
        ▷ render_more_terms-Keeps terms

    build_distinct-Keeps :
        (x : Bool) (y : OptExpressions Value) → Keeps context (build_distinct context x y)
    build_distinct-Keeps false on = Keeps-nothing
    build_distinct-Keeps true no_exprs = Keeps-push_str _
    build_distinct-Keeps true (some_exprs es) =
        Keeps-push_str _
        ▷ Keeps-require_postgres
        ▷ Keeps-push_str _
        ▷ render_list-Keeps es
        ▷ Keeps-push_str _

    render_projection-Keeps : (x : Projection Value) → Keeps context (render_projection context x)
    render_projection-Keeps (star_of name) = Keeps-render_star name
    render_projection-Keeps (Projection.column qualifier name alias) =
        Keeps-render_column qualifier name ▷ Keeps-render_alias alias
    render_projection-Keeps (expr e alias) = render_expression-Keeps e ▷ Keeps-render_alias alias

    render_more_projections-Keeps :
        (x : Projections Value) → Keeps context (render_more_projections context x)
    render_more_projections-Keeps select_nil = Keeps-nothing
    render_more_projections-Keeps (select_cons p ps) =
        Keeps-push_str _ ▷ render_projection-Keeps p ▷ render_more_projections-Keeps ps

    build_select-Keeps :
        (x : Projections Value) {y : Render Value}
        → Keeps context y
        → Keeps context (build_select context x y)
    build_select-Keeps select_nil distinct = Keeps-fail _
    build_select-Keeps (select_cons p ps) distinct =
        Keeps-push_str _ ▷ distinct ▷ render_projection-Keeps p ▷ render_more_projections-Keeps ps

    render_from_clause-Keeps : (x : FromClause Value) → Keeps context (render_from_clause context x)
    render_from_clause-Keeps (FromClause.table name alias) =
        Keeps-push_outcome _ ▷ Keeps-render_alias alias
    render_from_clause-Keeps (FromClause.subquery query alias) =
        Keeps-push_str _
        ▷ build_query_impl-Keeps query false
        ▷ Keeps-push_str _
        ▷ Keeps-render_alias alias

    build_joins-Keeps : (x : JoinClauses Value) → Keeps context (build_joins context x)
    build_joins-Keeps joins_nil = Keeps-nothing
    build_joins-Keeps (joins_cons type right on joins) =
        Keeps-push_str _
        ▷ Keeps-push_outcome _
        ▷ Keeps-push_str _
        ▷ render_from_clause-Keeps right
        ▷ Keeps-on_clause (is_cross type) (render_predicate-Keeps on)
        ▷ build_joins-Keeps joins

    build_opt_joins-Keeps : (x : OptJoinClauses Value) → Keeps context (build_opt_joins context x)
    build_opt_joins-Keeps no_joins = Keeps-nothing
    build_opt_joins-Keeps (some_joins joins) = build_joins-Keeps joins

    build_with-Keeps : (x : OptCtes Value) → Keeps context (build_with context x)
    build_with-Keeps no_ctes = Keeps-nothing
    build_with-Keeps (some_ctes ctes_nil) = Keeps-nothing
    build_with-Keeps (some_ctes (ctes_cons name recursive query ctes)) =
        Keeps-with_words (recursive || any_recursive ctes)
        ▷ Keeps-enclose_cte name (build_query_impl-Keeps query false)
        ▷ build_more_ctes-Keeps ctes
        ▷ Keeps-push_str _

    build_more_ctes-Keeps : (x : Ctes Value) → Keeps context (build_more_ctes context x)
    build_more_ctes-Keeps ctes_nil = Keeps-nothing
    build_more_ctes-Keeps (ctes_cons name _ query ctes) =
        Keeps-push_str _
        ▷ Keeps-enclose_cte name (build_query_impl-Keeps query false)
        ▷ build_more_ctes-Keeps ctes

    render_set_operation-Keeps :
        (x : OptSetOperation Value) → Keeps context (render_set_operation context x)
    render_set_operation-Keeps no_set_operation = Keeps-nothing
    render_set_operation-Keeps (some_set_operation operation right) =
        Keeps-push_code _ ▷ build_query_impl-Keeps right true

    pub build_query_impl-Keeps :
        (x : QueryPlan Value) (y : Bool) → Keeps context (build_query_impl context x y)
    build_query_impl-Keeps
          (query_plan select d on from filter group having order l o joins ctes sets)
          is_set_operand =
        Keeps-scope _ (
          build_with-Keeps ctes
          ▶ build_select-Keeps select (build_distinct-Keeps d on)
          ▶ Keeps-push_str _
          ▶ render_from_clause-Keeps from
          ▶ build_opt_joins-Keeps joins
          ▶ build_filter-Keeps " WHERE " filter
          ▶ build_group_by-Keeps group
          ▶ build_filter-Keeps " HAVING " having
          ▶ render_set_operation-Keeps sets
          ▶ Keeps-unless_operand is_set_operand (
              build_order_by-Keeps order
              ▷ Keeps-build_limit_offset context indexed context.dialect l o)
          ▶ Closes-pop_alias_scope context)
