-- ===== src/Schema/Plan.antt =====
-- Query plans, expressions and predicates: crates/vlorql-core/src/schema/expressions.rs and
-- query_plan.rs. `Value` stands for `serde_json::Value`. The types hold one another, so they are one
-- block, in which each `Vec` and each `Option` of the source is a type of its own.
use vlor_ql.Common.{ℕ, Bool, Option}
use vlor_ql.Common.Text.{Text}
use vlor_ql.Schema.Types.{
  DataType, BinaryOperator, ComparisonOperator, JoinType, SetOperation, WindowFrameKind,
}

mutual
  pub data Expression (Value : Type 0) : Type 0 where
    literal : Value → DataType → Expression Value
    column_ref : Option Text → Text → Expression Value
    function_call : Text → Expressions Value → Bool → Expression Value
    binary_op : Expression Value → BinaryOperator → Expression Value → Expression Value
    star : Expression Value
    sub_query : QueryPlan Value → Expression Value
    case_when : OptExpression Value → WhenThens Value → OptExpression Value → Expression Value
    window_function : Text → Expressions Value → Bool → WindowSpec Value → Expression Value

  -- `Vec<Expression>`
  pub data Expressions (Value : Type 0) : Type 0 where
    exprs_nil : Expressions Value
    exprs_cons : Expression Value → Expressions Value → Expressions Value

  -- `Option<Box<Expression>>`
  pub data OptExpression (Value : Type 0) : Type 0 where
    no_expr : OptExpression Value
    some_expr : Expression Value → OptExpression Value

  -- `Option<Vec<Expression>>`
  pub data OptExpressions (Value : Type 0) : Type 0 where
    no_exprs : OptExpressions Value
    some_exprs : Expressions Value → OptExpressions Value

  -- `Vec<WhenThen>`, each with its `when` and its `then`
  pub data WhenThens (Value : Type 0) : Type 0 where
    when_thens_nil : WhenThens Value
    when_thens_cons : Expression Value → Expression Value → WhenThens Value → WhenThens Value

  -- `partition_by`, `order_by`, `frame`
  pub data WindowSpec (Value : Type 0) : Type 0 where
    window_spec :
        OptExpressions Value → OptOrderByTerms Value → OptWindowFrame Value → WindowSpec Value

  -- `Option<WindowFrame>`: kind, start and end
  pub data OptWindowFrame (Value : Type 0) : Type 0 where
    no_frame : OptWindowFrame Value
    some_frame :
        WindowFrameKind → WindowFrameBound Value → OptWindowFrameBound Value → OptWindowFrame Value

  pub data WindowFrameBound (Value : Type 0) : Type 0 where
    unbounded_preceding : WindowFrameBound Value
    preceding : Expression Value → WindowFrameBound Value
    current_row : WindowFrameBound Value
    following : Expression Value → WindowFrameBound Value
    unbounded_following : WindowFrameBound Value

  pub data OptWindowFrameBound (Value : Type 0) : Type 0 where
    no_bound : OptWindowFrameBound Value
    some_bound : WindowFrameBound Value → OptWindowFrameBound Value

  -- `Vec<OrderByTerm>`, each with its `expr` and its `descending`
  pub data OrderByTerms (Value : Type 0) : Type 0 where
    terms_nil : OrderByTerms Value
    terms_cons : Expression Value → Bool → OrderByTerms Value → OrderByTerms Value

  pub data OptOrderByTerms (Value : Type 0) : Type 0 where
    no_terms : OptOrderByTerms Value
    some_terms : OrderByTerms Value → OptOrderByTerms Value

  pub data InTarget (Value : Type 0) : Type 0 where
    values : Expressions Value → InTarget Value
    target_query : QueryPlan Value → InTarget Value

  pub data Predicate (Value : Type 0) : Type 0 where
    comparison : Expression Value → ComparisonOperator → Expression Value → Predicate Value
    and_pred : Predicate Value → Predicate Value → Predicate Value
    or_pred : Predicate Value → Predicate Value → Predicate Value
    not_pred : Predicate Value → Predicate Value
    between : Expression Value → Expression Value → Expression Value → Predicate Value
    in_pred : Expression Value → InTarget Value → Predicate Value
    like : Expression Value → Text → Predicate Value
    is_null : Expression Value → Predicate Value
    exists : QueryPlan Value → Predicate Value
    true_pred : Predicate Value
    false_pred : Predicate Value

  pub data OptPredicate (Value : Type 0) : Type 0 where
    no_pred : OptPredicate Value
    some_pred : Predicate Value → OptPredicate Value

  pub data Projection (Value : Type 0) : Type 0 where
    column : Option Text → Text → Option Text → Projection Value
    expr : Expression Value → Option Text → Projection Value
    star_of : Option Text → Projection Value

  -- `Vec<Projection>`
  pub data Projections (Value : Type 0) : Type 0 where
    select_nil : Projections Value
    select_cons : Projection Value → Projections Value → Projections Value

  pub data FromClause (Value : Type 0) : Type 0 where
    table : Text → Option Text → FromClause Value
    subquery : QueryPlan Value → Option Text → FromClause Value

  -- `Vec<JoinClause>`, each with `join_type`, `right_table` and `on`
  pub data JoinClauses (Value : Type 0) : Type 0 where
    joins_nil : JoinClauses Value
    joins_cons :
        JoinType → FromClause Value → Predicate Value → JoinClauses Value → JoinClauses Value

  pub data OptJoinClauses (Value : Type 0) : Type 0 where
    no_joins : OptJoinClauses Value
    some_joins : JoinClauses Value → OptJoinClauses Value

  -- `Vec<CommonTableExpression>`, each with `name`, `recursive` and `query`
  pub data Ctes (Value : Type 0) : Type 0 where
    ctes_nil : Ctes Value
    ctes_cons : Text → Bool → QueryPlan Value → Ctes Value → Ctes Value

  pub data OptCtes (Value : Type 0) : Type 0 where
    no_ctes : OptCtes Value
    some_ctes : Ctes Value → OptCtes Value

  -- `Option<SetOperationClause>`
  pub data OptSetOperation (Value : Type 0) : Type 0 where
    no_set_operation : OptSetOperation Value
    some_set_operation : SetOperation → QueryPlan Value → OptSetOperation Value

  -- `select`, `distinct`, `distinct_on`, `from`, `where`, `group_by`, `having`, `order_by`, `limit`,
  -- `offset`, `joins`, `ctes`, `set_operation`
  pub data QueryPlan (Value : Type 0) : Type 0 where
    query_plan :
        Projections Value
        → Bool
        → OptExpressions Value
        → FromClause Value
        → OptPredicate Value
        → OptExpressions Value
        → OptPredicate Value
        → OptOrderByTerms Value
        → Option ℕ
        → Option ℕ
        → OptJoinClauses Value
        → OptCtes Value
        → OptSetOperation Value
        → QueryPlan Value
