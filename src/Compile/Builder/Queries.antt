-- ===== src/Compile/Builder/Queries.antt =====
-- The rendering of expressions, predicates and queries: `build_query` and the functions around it in
-- crates/vlorql-core/src/compile/builder/clause.rs and expr.rs, and `build` of mod.rs.
use vlor_ql.Common.{Bool, true, false, ◌||◌, Option, none, some, [], ◌++◌}
use vlor_ql.Common.Text.{bytes}
use vlor_ql.Compile.Builder.{
  Json, Context, add_parameter, push_alias_scope, pop_alias_scope, render_identifier,
}
use vlor_ql.Compile.Builder.Keywords.{
  render_binary_operator, render_comparison_operator, render_join_type, set_operation_keyword,
  frame_keyword,
}
use vlor_ql.Compile.Dialect.{DialectConfig, dialect_from_name}
use vlor_ql.Compile.Sql.{
  Render, Rendered, failed, Builder, ◌⊕◌, nothing, compilation_error, push_code, push_str, fail,
  push_outcome,
}
use vlor_ql.Errors.{compilation, unsupported_dialect_feature, no_details}
use Prim.Native.String.{String}
use vlor_ql.Schema.Types.{DataType, SqlDialect, is_cross}
use vlor_ql.Compile.Builder.Clauses.{
  render_literal, render_column, render_alias, render_star, build_limit_offset, distinct_word,
  space_if, direction, require_postgres, function_name, is_some_exprs, is_some_terms, any_recursive,
  with_words, enclose_cte, on_clause, unless_operand,
}
use vlor_ql.Schema.Plan.{
  Expression, Expressions, OptExpression, OptExpressions, WhenThens, WindowSpec, OptWindowFrame,
  WindowFrameBound, OptWindowFrameBound, OrderByTerms, OptOrderByTerms, InTarget, Predicate,
  OptPredicate, Projection, Projections, FromClause, JoinClauses, OptJoinClauses, Ctes, OptCtes,
  OptSetOperation, QueryPlan, literal, column_ref, function_call, binary_op, star, sub_query,
  case_when, window_function, exprs_nil, exprs_cons, no_expr, some_expr, no_exprs, some_exprs,
  when_thens_nil, when_thens_cons, window_spec, no_frame, some_frame, unbounded_preceding,
  preceding, current_row, following, unbounded_following, no_bound, some_bound, terms_nil,
  terms_cons, no_terms, some_terms, values, target_query, comparison, and_pred, or_pred, not_pred,
  between, in_pred, like, is_null, exists, true_pred, false_pred, no_pred, some_pred, expr, star_of,
  select_nil, select_cons, joins_nil, joins_cons, no_joins, some_joins, ctes_nil, ctes_cons,
  no_ctes, some_ctes, no_set_operation, some_set_operation, query_plan,
}

module _ {Value : Type 0} (context : Context Value) where
  unfoldable mutual
    pub render_expression : Expression Value → Render Value
    render_expression (literal v type) = render_literal context v type
    render_expression (column_ref qualifier name) = render_column context qualifier name
    render_expression (function_call name args distinct) =
        function_name name ⊕ push_str "(" ⊕ distinct_word distinct ⊕ render_list args ⊕ push_str ")"
    render_expression (binary_op left op right) =
        push_str "("
        ⊕ render_expression left
        ⊕ push_str " "
        ⊕ push_code (render_binary_operator context.config context.dialect op)
        ⊕ push_str " "
        ⊕ render_expression right
        ⊕ push_str ")"
    render_expression star = push_str "*"
    render_expression (sub_query query) = push_str "(" ⊕ build_query_impl query false ⊕ push_str ")"
    render_expression (case_when operand when_thens else_result) =
        push_str "CASE"
        ⊕ render_after " " operand
        ⊕ render_when_thens when_thens
        ⊕ render_after " ELSE " else_result
        ⊕ push_str " END"
    render_expression (window_function name args distinct over) =
        function_name name
        ⊕ push_str "("
        ⊕ distinct_word distinct
        ⊕ render_list args
        ⊕ push_str ")"
        ⊕ render_window_spec over

    -- Expressions with ", " between them.
    pub render_list : Expressions Value → Render Value
    render_list exprs_nil = nothing
    render_list (exprs_cons e es) = render_expression e ⊕ render_more es

    pub render_more : Expressions Value → Render Value
    render_more exprs_nil = nothing
    render_more (exprs_cons e es) = push_str ", " ⊕ render_expression e ⊕ render_more es

    pub render_after : String → OptExpression Value → Render Value
    render_after word no_expr = nothing
    render_after word (some_expr e) = push_str word ⊕ render_expression e

    pub render_when_thens : WhenThens Value → Render Value
    render_when_thens when_thens_nil = nothing
    render_when_thens (when_thens_cons when_e then_e rest) =
        push_str " WHEN "
        ⊕ render_expression when_e
        ⊕ push_str " THEN "
        ⊕ render_expression then_e
        ⊕ render_when_thens rest

    pub render_terms : OrderByTerms Value → Render Value
    render_terms terms_nil = nothing
    render_terms (terms_cons e descending terms) =
        render_expression e ⊕ direction descending ⊕ render_more_terms terms

    pub render_more_terms : OrderByTerms Value → Render Value
    render_more_terms terms_nil = nothing
    render_more_terms (terms_cons e descending terms) =
        push_str ", " ⊕ render_expression e ⊕ direction descending ⊕ render_more_terms terms

    pub render_window_spec : WindowSpec Value → Render Value
    render_window_spec (window_spec partition_by order_by frame) =
        push_str " OVER ("
        ⊕ render_partition partition_by
        ⊕ render_window_order (is_some_exprs partition_by) order_by
        ⊕ render_window_frame (is_some_exprs partition_by || is_some_terms order_by) frame
        ⊕ push_str ")"

    pub render_partition : OptExpressions Value → Render Value
    render_partition no_exprs = nothing
    render_partition (some_exprs es) = push_str "PARTITION BY " ⊕ render_list es

    pub render_window_order : Bool → OptOrderByTerms Value → Render Value
    render_window_order clause_added no_terms = nothing
    render_window_order clause_added (some_terms terms) =
        space_if clause_added ⊕ push_str "ORDER BY " ⊕ render_terms terms

    pub render_window_frame : Bool → OptWindowFrame Value → Render Value
    render_window_frame clause_added no_frame = nothing
    render_window_frame clause_added (some_frame kind start end_bound) =
        space_if clause_added
        ⊕ push_code (frame_keyword kind)
        ⊕ push_str " BETWEEN "
        ⊕ render_window_frame_bound start
        ⊕ push_str " AND "
        ⊕ render_frame_end end_bound

    pub render_frame_end : OptWindowFrameBound Value → Render Value
    render_frame_end no_bound = push_str "CURRENT ROW"
    render_frame_end (some_bound bound) = render_window_frame_bound bound

    pub render_window_frame_bound : WindowFrameBound Value → Render Value
    render_window_frame_bound unbounded_preceding = push_str "UNBOUNDED PRECEDING"
    render_window_frame_bound (preceding e) = render_expression e ⊕ push_str " PRECEDING"
    render_window_frame_bound current_row = push_str "CURRENT ROW"
    render_window_frame_bound (following e) = render_expression e ⊕ push_str " FOLLOWING"
    render_window_frame_bound unbounded_following = push_str "UNBOUNDED FOLLOWING"

    pub render_predicate : Predicate Value → Render Value
    render_predicate (comparison left op right) =
        render_expression left
        ⊕ push_str " "
        ⊕ push_outcome (render_comparison_operator context.config context.dialect op)
        ⊕ push_str " "
        ⊕ render_expression right
    render_predicate (and_pred left right) =
        push_str "("
        ⊕ render_predicate left
        ⊕ push_str ") AND ("
        ⊕ render_predicate right
        ⊕ push_str ")"
    render_predicate (or_pred left right) =
        push_str "("
        ⊕ render_predicate left
        ⊕ push_str ") OR ("
        ⊕ render_predicate right
        ⊕ push_str ")"
    render_predicate (not_pred child) = push_str "NOT (" ⊕ render_predicate child ⊕ push_str ")"
    render_predicate (between e low high) =
        render_expression e
        ⊕ push_str " BETWEEN "
        ⊕ render_expression low
        ⊕ push_str " AND "
        ⊕ render_expression high
    render_predicate (in_pred e target) = render_expression e ⊕ render_target target
    render_predicate (like e pattern) =
        render_expression e
        ⊕ push_str " LIKE "
        ⊕ add_parameter context (context.json.from_string pattern) DataType.string
    render_predicate (is_null e) = render_expression e ⊕ push_str " IS NULL"
    render_predicate (exists query) =
        push_str "EXISTS (" ⊕ build_query_impl query false ⊕ push_str ")"
    render_predicate true_pred = push_str "TRUE"
    render_predicate false_pred = push_str "FALSE"

    pub render_target : InTarget Value → Render Value
    render_target (values exprs_nil) = fail (compilation_error "empty_in_list")
    render_target (values (exprs_cons e es)) =
        push_str " IN (" ⊕ render_expression e ⊕ render_more es ⊕ push_str ")"
    render_target (target_query query) =
        push_str " IN (" ⊕ build_query_impl query false ⊕ push_str ")"

    -- WHERE and HAVING
    pub build_filter : String → OptPredicate Value → Render Value
    build_filter word no_pred = nothing
    build_filter word (some_pred p) = push_str word ⊕ render_predicate p

    pub build_group_by : OptExpressions Value → Render Value
    build_group_by no_exprs = nothing
    build_group_by (some_exprs exprs_nil) = nothing
    build_group_by (some_exprs (exprs_cons e es)) =
        push_str " GROUP BY " ⊕ render_expression e ⊕ render_more es

    pub build_order_by : OptOrderByTerms Value → Render Value
    build_order_by no_terms = nothing
    build_order_by (some_terms terms_nil) = nothing
    build_order_by (some_terms (terms_cons e descending terms)) =
        push_str " ORDER BY " ⊕ render_expression e ⊕ direction descending ⊕ render_more_terms terms

    pub build_distinct : Bool → OptExpressions Value → Render Value
    build_distinct false on = nothing
    build_distinct true no_exprs = push_str "DISTINCT "
    build_distinct true (some_exprs es) =
        push_str "DISTINCT "
        ⊕ require_postgres context
        ⊕ push_str "ON ("
        ⊕ render_list es
        ⊕ push_str ") "

    pub render_projection : Projection Value → Render Value
    render_projection (star_of name) = render_star context name
    render_projection (Projection.column qualifier name alias) =
        render_column context qualifier name ⊕ render_alias context alias
    render_projection (expr e alias) = render_expression e ⊕ render_alias context alias

    pub render_more_projections : Projections Value → Render Value
    render_more_projections select_nil = nothing
    render_more_projections (select_cons p ps) =
        push_str ", " ⊕ render_projection p ⊕ render_more_projections ps

    -- Its second argument is what DISTINCT writes.
    pub build_select : Projections Value → Render Value → Render Value
    build_select select_nil distinct = fail (compilation_error "empty_select_list")
    build_select (select_cons p ps) distinct =
        push_str "SELECT " ⊕ distinct ⊕ render_projection p ⊕ render_more_projections ps

    pub render_from_clause : FromClause Value → Render Value
    render_from_clause (FromClause.table name alias) =
        push_outcome (render_identifier context name) ⊕ render_alias context alias
    render_from_clause (FromClause.subquery query alias) =
        push_str "(" ⊕ build_query_impl query false ⊕ push_str ")" ⊕ render_alias context alias

    pub build_joins : JoinClauses Value → Render Value
    build_joins joins_nil = nothing
    build_joins (joins_cons type right on joins) =
        push_str " "
        ⊕ push_outcome (render_join_type context.config context.dialect type)
        ⊕ push_str " "
        ⊕ render_from_clause right
        ⊕ on_clause (is_cross type) (render_predicate on)
        ⊕ build_joins joins

    pub build_opt_joins : OptJoinClauses Value → Render Value
    build_opt_joins no_joins = nothing
    build_opt_joins (some_joins joins) = build_joins joins

    pub build_with : OptCtes Value → Render Value
    build_with no_ctes = nothing
    build_with (some_ctes ctes_nil) = nothing
    build_with (some_ctes (ctes_cons name recursive query ctes)) =
        with_words (recursive || any_recursive ctes)
        ⊕ enclose_cte context name (build_query_impl query false)
        ⊕ build_more_ctes ctes
        ⊕ push_str " "

    pub build_more_ctes : Ctes Value → Render Value
    build_more_ctes ctes_nil = nothing
    build_more_ctes (ctes_cons name _ query ctes) =
        push_str ", "
        ⊕ enclose_cte context name (build_query_impl query false)
        ⊕ build_more_ctes ctes

    pub render_set_operation : OptSetOperation Value → Render Value
    render_set_operation no_set_operation = nothing
    render_set_operation (some_set_operation operation right) =
        push_code (set_operation_keyword operation) ⊕ build_query_impl right true

    pub build_query_impl : QueryPlan Value → Bool → Render Value
    build_query_impl (query_plan select d on from filter group having order l o joins ctes sets)
          is_set_operand =
        push_alias_scope (query_plan select d on from filter group having order l o joins ctes sets)
        ⊕ build_with ctes
        ⊕ build_select select (build_distinct d on)
        ⊕ push_str " FROM "
        ⊕ render_from_clause from
        ⊕ build_opt_joins joins
        ⊕ build_filter " WHERE " filter
        ⊕ build_group_by group
        ⊕ build_filter " HAVING " having
        ⊕ render_set_operation sets
        ⊕ unless_operand is_set_operand
            (build_order_by order ⊕ build_limit_offset context context.dialect l o)
        ⊕ pop_alias_scope

  unfoldable pub build_query : QueryPlan Value → Render Value
  build_query plan = build_query_impl plan false

unfoldable pub empty_builder : {Value : Type 0} → Builder Value
empty_builder = record { parameters = []; alias_stack = []; param_cache = []; in_cte = false }

-- `QueryBuilder::new`, then `build`: the alias scope of the plan is pushed by both.
abbrev start :
    {Value : Type 0}
    → Option SqlDialect
    → Json Value
    → DialectConfig
    → QueryPlan Value
    → Rendered Value
start none json config plan = failed (
    compilation
      (unsupported_dialect_feature (bytes "unknown dialect '" ++ config.name ++ bytes "'"))
      no_details)
start {Value} (some dialect) json config plan =
    let context : Context Value = record { json = json; config = config; dialect = dialect } in
    (push_alias_scope plan ⊕ build_query context plan) empty_builder

unfoldable pub build :
    {Value : Type 0} → Json Value → DialectConfig → QueryPlan Value → Rendered Value
build json config plan = start (dialect_from_name config.name) json config plan
