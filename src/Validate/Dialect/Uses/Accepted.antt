-- ===== src/Validate/Dialect/Uses/Accepted.antt =====
-- Which plans the dialect checks of crates/vlorql-core/src/validate/dialect.rs accept, and what they do
-- not look at.
use vlor_ql.Common.{ℕ, ◌≡◌, refl, ◌↔◌, Bool, Option, List, [], ◌∷◌, ◌++◌}
use vlor_ql.Common.Checks.{Checks-none, Checks-then, Checks-iff}
use vlor_ql.Common.Lists.{All, All-append}
use vlor_ql.Policy.Engine.Nested.{accepted}
use vlor_ql.Policy.Permitted.Plan.{verdict_of-accepted}
use vlor_ql.Schema.Dialect.{DialectProfile}
use vlor_ql.Schema.Plan.{
  Expression, Expressions, OptExpression, OptExpressions, WhenThens, WindowSpec, OptWindowFrame,
  OrderByTerms, OptOrderByTerms, InTarget, Predicate, OptPredicate, FromClause, Projection,
  Projections, JoinClauses, OptJoinClauses, Ctes, OptCtes, OptSetOperation, QueryPlan, literal,
  column_ref, function_call, binary_op, star, sub_query, case_when, window_function, exprs_nil,
  exprs_cons, no_expr, some_expr, no_exprs, some_exprs, when_thens_nil, when_thens_cons,
  window_spec, no_frame, some_frame, no_bound, some_bound, terms_nil, terms_cons, no_terms,
  some_terms, values, target_query, comparison, and_pred, or_pred, not_pred, between, in_pred, like,
  is_null, exists, true_pred, false_pred, no_pred, some_pred, expr, star_of, select_nil,
  select_cons, joins_nil, joins_cons, no_joins, some_joins, ctes_nil, ctes_cons, no_ctes, some_ctes,
  query_plan,
}
use vlor_ql.Validate.Dialect.{Errors}
use vlor_ql.Validate.Dialect.Uses.Leaves.{check_use, use-Leaves}
use vlor_ql.Validate.Dialect.Uses.Pushes.{errors_of, Always, Leaves}
use vlor_ql.Validate.Dialect.Walk.{
  validate_frame, validate_inner, dialect_opt_joins, dialect_joins, dialect_select,
  dialect_projection, dialect_opt_ctes, dialect_ctes, validate_expression, dialect_window,
  dialect_expressions, dialect_opt_expression, dialect_opt_expressions, dialect_when_thens,
  dialect_terms, dialect_opt_terms, validate_predicate, dialect_target, dialect_opt_predicate,
  validate_dialect,
}
use vlor_ql.Validate.Dialect.Uses.{
  Use, level_head, level_tail, join_of, call, window, bound, uses_of_frame, uses_of,
  uses_of_opt_joins, uses_of_joins, uses_of_select, uses_of_projection, uses_of_opt_ctes,
  uses_of_ctes, uses_of_expression, uses_of_window, uses_of_expressions, uses_of_opt_expression,
  uses_of_opt_expressions, uses_of_when_thens, uses_of_terms, uses_of_opt_terms, uses_of_predicate,
  uses_of_target, uses_of_opt_predicate, Allowed,
}

module _ {Value : Type 0} (profile : DialectProfile) where
  -- The pass `f` checks these uses.
  record Finds (f : Errors → Errors) (uses : List (Use Value)) : Type 0 where
    checks : Leaves f (All (Allowed profile) uses)

  Finds-none : Finds (λ es. es) []
  Finds-none = record { checks = Checks-none errors_of Always }

  infixr 25 ◌before◌
  ◌before◌ :
      {f g : Errors → Errors} {uses more : List (Use Value)}
      → Finds f uses
      → Finds g more
      → Finds (λ es. g (f es)) (uses ++ more)
  ◌before◌ {f} {g} {uses} {more} a b =
      let e = All-append (Allowed profile) uses more in
      record {
        checks =
            Checks-iff errors_of Always (λ es. g (f es)) (e.1, e.0)
              (Checks-then errors_of Always f g a.checks b.checks);
      }

  use-Finds : (u : Use Value) → Finds (check_use profile u) (u ∷ [])
  use-Finds u = record {
    checks =
        Checks-iff errors_of Always (check_use profile u) (λ h. (h, tt), λ h. h.0)
          (use-Leaves profile u);
  }

  frame-Finds : (x : OptWindowFrame Value) → Finds (validate_frame profile x) (uses_of_frame x)
  unfolding validate_frame
  frame-Finds no_frame = Finds-none
  frame-Finds (some_frame _ start no_bound) = use-Finds (bound start)
  frame-Finds (some_frame _ start (some_bound end)) =
      (use-Finds (bound start)) before (use-Finds (bound end))

  mutual
    unfolding validate_inner uses_of

    plan-Finds : (x : QueryPlan Value) → Finds (validate_inner profile x) (uses_of x)
    plan-Finds (query_plan select distinct _ _ filter group having order _ offset joins ctes _) =
        (use-Finds (level_head ctes joins))
        before ((opt_joins-Finds joins)
            before ((use-Finds (level_tail offset group distinct select))
                before ((select-Finds select)
                    before ((opt_predicate-Finds filter)
                        before ((opt_expressions-Finds group)
                            before ((opt_predicate-Finds having)
                                before ((opt_terms-Finds order) before (opt_ctes-Finds ctes))))))))

    opt_joins-Finds :
        (x : OptJoinClauses Value) → Finds (dialect_opt_joins profile x) (uses_of_opt_joins x)
    opt_joins-Finds no_joins = Finds-none
    opt_joins-Finds (some_joins joins) = joins-Finds joins

    joins-Finds : (x : JoinClauses Value) → Finds (dialect_joins profile x) (uses_of_joins x)
    joins-Finds joins_nil = Finds-none
    joins-Finds (joins_cons kind _ on joins) =
        (use-Finds (join_of kind)) before ((predicate-Finds on) before (joins-Finds joins))

    select-Finds : (x : Projections Value) → Finds (dialect_select profile x) (uses_of_select x)
    select-Finds select_nil = Finds-none
    select-Finds (select_cons p ps) = (projection-Finds p) before (select-Finds ps)

    projection-Finds :
        (x : Projection Value) → Finds (dialect_projection profile x) (uses_of_projection x)
    projection-Finds (Projection.column _ _ _) = Finds-none
    projection-Finds (expr e _) = expression-Finds e
    projection-Finds (star_of _) = Finds-none

    opt_ctes-Finds : (x : OptCtes Value) → Finds (dialect_opt_ctes profile x) (uses_of_opt_ctes x)
    opt_ctes-Finds no_ctes = Finds-none
    opt_ctes-Finds (some_ctes ctes) = ctes-Finds ctes

    ctes-Finds : (x : Ctes Value) → Finds (dialect_ctes profile x) (uses_of_ctes x)
    ctes-Finds ctes_nil = Finds-none
    ctes-Finds (ctes_cons _ _ query ctes) = (plan-Finds query) before (ctes-Finds ctes)

    expression-Finds :
        (x : Expression Value) → Finds (validate_expression profile x) (uses_of_expression x)
    expression-Finds (literal _ _) = Finds-none
    expression-Finds (column_ref _ _) = Finds-none
    expression-Finds (function_call name args distinct) =
        (use-Finds (call name distinct)) before (expressions-Finds args)
    expression-Finds (binary_op left _ right) =
        (expression-Finds left) before (expression-Finds right)
    expression-Finds star = Finds-none
    expression-Finds (sub_query query) = plan-Finds query
    expression-Finds (case_when operand branches otherwise) =
        (opt_expression-Finds operand)
        before ((when_thens-Finds branches) before (opt_expression-Finds otherwise))
    expression-Finds (window_function name args distinct over) =
        (use-Finds window)
        before ((use-Finds (call name distinct))
            before ((expressions-Finds args) before (window-Finds over)))

    window-Finds : (x : WindowSpec Value) → Finds (dialect_window profile x) (uses_of_window x)
    window-Finds (window_spec partition_by order_by frame) =
        (opt_expressions-Finds partition_by)
        before ((opt_terms-Finds order_by) before (frame-Finds frame))

    expressions-Finds :
        (x : Expressions Value) → Finds (dialect_expressions profile x) (uses_of_expressions x)
    expressions-Finds exprs_nil = Finds-none
    expressions-Finds (exprs_cons e es) = (expression-Finds e) before (expressions-Finds es)

    opt_expression-Finds :
        (x : OptExpression Value)
        → Finds (dialect_opt_expression profile x) (uses_of_opt_expression x)
    opt_expression-Finds no_expr = Finds-none
    opt_expression-Finds (some_expr e) = expression-Finds e

    opt_expressions-Finds :
        (x : OptExpressions Value)
        → Finds (dialect_opt_expressions profile x) (uses_of_opt_expressions x)
    opt_expressions-Finds no_exprs = Finds-none
    opt_expressions-Finds (some_exprs es) = expressions-Finds es

    when_thens-Finds :
        (x : WhenThens Value) → Finds (dialect_when_thens profile x) (uses_of_when_thens x)
    when_thens-Finds when_thens_nil = Finds-none
    when_thens-Finds (when_thens_cons w t branches) =
        (expression-Finds w) before ((expression-Finds t) before (when_thens-Finds branches))

    terms-Finds : (x : OrderByTerms Value) → Finds (dialect_terms profile x) (uses_of_terms x)
    terms-Finds terms_nil = Finds-none
    terms-Finds (terms_cons e _ terms) = (expression-Finds e) before (terms-Finds terms)

    opt_terms-Finds :
        (x : OptOrderByTerms Value) → Finds (dialect_opt_terms profile x) (uses_of_opt_terms x)
    opt_terms-Finds no_terms = Finds-none
    opt_terms-Finds (some_terms terms) = terms-Finds terms

    predicate-Finds :
        (x : Predicate Value) → Finds (validate_predicate profile x) (uses_of_predicate x)
    predicate-Finds (comparison left _ right) =
        (expression-Finds left) before (expression-Finds right)
    predicate-Finds (and_pred left right) = (predicate-Finds left) before (predicate-Finds right)
    predicate-Finds (or_pred left right) = (predicate-Finds left) before (predicate-Finds right)
    predicate-Finds (not_pred child) = predicate-Finds child
    predicate-Finds (between e low high) =
        (expression-Finds e) before ((expression-Finds low) before (expression-Finds high))
    predicate-Finds (in_pred e target) = (expression-Finds e) before (target-Finds target)
    predicate-Finds (exists query) = plan-Finds query
    predicate-Finds (like e _) = expression-Finds e
    predicate-Finds (is_null e) = expression-Finds e
    predicate-Finds true_pred = Finds-none
    predicate-Finds false_pred = Finds-none

    target-Finds : (x : InTarget Value) → Finds (dialect_target profile x) (uses_of_target x)
    target-Finds (values es) = expressions-Finds es
    target-Finds (target_query query) = plan-Finds query

    opt_predicate-Finds :
        (x : OptPredicate Value) → Finds (dialect_opt_predicate profile x) (uses_of_opt_predicate x)
    opt_predicate-Finds no_pred = Finds-none
    opt_predicate-Finds (some_pred p) = predicate-Finds p

  -- The dialect checks accept a plan exactly if the dialect allows every feature that is used where the checks
  -- look: in the plan, in its CTEs and in the subqueries of its expressions and predicates. The features of
  -- such a level are its CTEs, the number and the kinds of its joins, `OFFSET`, the size of the grouping and
  -- the columns selected under it, `DISTINCT`, and in its expressions each function, each window and the
  -- bounds of its frame. The checks do not look into subqueries under `FROM` or on the right of a join, operands of
  -- set operations, `DISTINCT ON`, and the expressions inside frames.
  pub validate_dialect_iff :
      (plan : QueryPlan Value)
      → (validate_dialect profile plan ≡ accepted) ↔ All (Allowed profile) (uses_of plan)
  unfolding validate_dialect
  validate_dialect_iff plan =
      let c = (plan-Finds plan).checks in
      let v = verdict_of-accepted (validate_inner profile plan []) in
      (λ h. (c.sound [] tt (v.0 h)).1, λ p. v.1 (c.complete [] tt refl p))

  -- Two plans that differ only in their source, their set operation and their `DISTINCT ON` list get the
  -- same verdict from the dialect checks.
  pub validate_dialect_ignores_source :
      (select : Projections Value) (distinct : Bool) (on1 on2 : OptExpressions Value)
      (from1 from2 : FromClause Value) (filter : OptPredicate Value) (group : OptExpressions Value)
      (having : OptPredicate Value) (order : OptOrderByTerms Value) (limit offset : Option ℕ)
      (joins : OptJoinClauses Value) (ctes : OptCtes Value) (sets1 sets2 : OptSetOperation Value)
      → validate_dialect profile (
          query_plan select distinct on1 from1 filter group having order limit offset joins ctes
            sets1)
        ≡ validate_dialect profile (
            query_plan select distinct on2 from2 filter group having order limit offset joins ctes
              sets2)
  unfolding validate_dialect validate_inner
  validate_dialect_ignores_source select distinct on1 on2 from1 from2 filter group having order
        limit offset joins ctes sets1 sets2 =
      refl
