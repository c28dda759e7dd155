-- ===== src/Policy/BlindSpots.antt =====
-- Parts of a plan that `PolicyEngine::validate` does not look at: the right-hand side of a set operation,
-- `DISTINCT ON`, and subqueries under `CASE`.
use vlor_ql.Common.{ℕ, Bool, Option, List, [], ◌≡◌, refl, ap, ◌∙◌, none}
use vlor_ql.Errors.{VlorQlError}
use vlor_ql.Common.Text.{Text}
use vlor_ql.Policy.Config.{PolicyConfig}
use vlor_ql.Policy.Engine.Nested.{
  validate, check_level, level_scope, validate_plan_inner, subqueries_in_select,
  subqueries_in_opt_joins, subqueries_in_opt_terms, subqueries_in_opt_predicate,
  subqueries_in_opt_expressions, validate_opt_ctes, verdict_of,
}
use vlor_ql.Query.References.{
  ColumnReference, PlanReferences, collect_expression_references, collect_opt_expression,
  collect_when_thens, collect_projection, collect_select, collect_plan_references,
  collect_opt_joins, collect_opt_terms, collect_opt_predicate, collect_opt_expressions,
}
use vlor_ql.Policy.Engine.{validate_level}
use vlor_ql.Policy.Report.{fresh}
use vlor_ql.Query.Scope.{QueryScope, from_plan}
use vlor_ql.Schema.Snapshot.{SchemaSnapshot}
use vlor_ql.Schema.Plan.{
  Expression, OptExpression, OptExpressions, WhenThens, OptOrderByTerms, OptPredicate, Projections,
  FromClause, OptJoinClauses, OptCtes, OptSetOperation, QueryPlan, sub_query, case_when,
  when_thens_nil, when_thens_cons, expr, select_nil, select_cons, query_plan,
}

-- The verdict does not depend on the set operation, nor on `DISTINCT ON`: whatever plan stands behind a
-- `UNION`, the engine answers as if it were not there.
pub validate_ignores_set_operation :
    {Value : Type 0} (config : PolicyConfig Value) (snapshot : SchemaSnapshot)
    (select : Projections Value) (d : Bool) (on on' : OptExpressions Value)
    (from : FromClause Value) (filter : OptPredicate Value) (group : OptExpressions Value)
    (having : OptPredicate Value) (order : OptOrderByTerms Value) (l o : Option ℕ)
    (joins : OptJoinClauses Value) (ctes : OptCtes Value) (sets sets' : OptSetOperation Value)
    → validate config
        (query_plan select d on from filter group having order l o joins ctes sets)
        snapshot
      ≡ validate config
          (query_plan select d on' from filter group having order l o joins ctes sets')
          snapshot
unfolding validate check_level from_plan level_scope
validate_ignores_set_operation config snapshot select d on on' from filter group having order l o
      joins ctes sets sets' =
    refl

module _ {Value : Type 0} where
  -- The projections of a list, and then those of another one; and so for the branches of a `CASE`.
  abbrev pub append_select : Projections Value → Projections Value → Projections Value
  append_select select_nil after = after
  append_select (select_cons p ps) after = select_cons p (append_select ps after)

  abbrev pub append_branches : WhenThens Value → WhenThens Value → WhenThens Value
  append_branches when_thens_nil after = after
  append_branches (when_thens_cons w t branches) after =
      when_thens_cons w t (append_branches branches after)

  collect_when_thens-append :
      (earlier xs ys : WhenThens Value)
      → ((refs : List ColumnReference) → collect_when_thens xs refs ≡ collect_when_thens ys refs)
      → (refs : List ColumnReference)
      → collect_when_thens (append_branches earlier xs) refs
        ≡ collect_when_thens (append_branches earlier ys) refs
  unfolding collect_when_thens
  collect_when_thens-append when_thens_nil xs ys same refs = same refs
  collect_when_thens-append (when_thens_cons w t branches) xs ys same refs =
      collect_when_thens-append branches xs ys same _

  collect_select-append :
      (before xs ys : Projections Value)
      → ((refs : PlanReferences) → collect_select xs refs ≡ collect_select ys refs)
      → (refs : PlanReferences)
      → collect_select (append_select before xs) refs
        ≡ collect_select (append_select before ys) refs
  unfolding collect_select
  collect_select-append select_nil xs ys same refs = same refs
  collect_select-append (select_cons p ps) xs ys same refs = collect_select-append ps xs ys same _

  subqueries_in_select-append :
      (config : PolicyConfig Value) (snapshot : SchemaSnapshot) (scope : QueryScope)
      (before xs ys : Projections Value)
      → ((errors : List VlorQlError)
          → subqueries_in_select xs config snapshot scope errors
            ≡ subqueries_in_select ys config snapshot scope errors)
      → (errors : List VlorQlError)
      → subqueries_in_select (append_select before xs) config snapshot scope errors
        ≡ subqueries_in_select (append_select before ys) config snapshot scope errors
  unfolding subqueries_in_select
  subqueries_in_select-append config snapshot scope select_nil xs ys same errors = same errors
  subqueries_in_select-append config snapshot scope (select_cons p ps) xs ys same errors =
      subqueries_in_select-append config snapshot scope ps xs ys same _

  -- A selected `CASE`, with the projections behind it.
  abbrev pub case_first :
      OptExpression Value
      → WhenThens Value
      → OptExpression Value
      → Option Text
      → Projections Value
      → Projections Value
  case_first operand branches otherwise alias select =
      select_cons (expr (case_when operand branches otherwise) alias) select

  case_first-collected :
      (operand otherwise : OptExpression Value) (earlier xs ys : WhenThens Value)
      (alias : Option Text) (select : Projections Value)
      → ((refs : List ColumnReference) → collect_when_thens xs refs ≡ collect_when_thens ys refs)
      → (refs : PlanReferences)
      → collect_select (case_first operand (append_branches earlier xs) otherwise alias select) refs
        ≡ collect_select
            (case_first operand (append_branches earlier ys) otherwise alias select)
            refs
  unfolding collect_select collect_projection collect_expression_references
  case_first-collected operand otherwise earlier xs ys alias select same refs =
      ap
        (λ cs.
          collect_select select (record refs { columns = collect_opt_expression otherwise cs }))
        (collect_when_thens-append earlier xs ys same (collect_opt_expression operand refs.columns))

  subquery_branch-collected :
      (when : Expression Value) (query query' : QueryPlan Value) (branches : WhenThens Value)
      (refs : List ColumnReference)
      → collect_when_thens (when_thens_cons when (sub_query query) branches) refs
        ≡ collect_when_thens (when_thens_cons when (sub_query query') branches) refs
  unfolding collect_when_thens
  subquery_branch-collected when query query' branches refs = refl

-- The engine sees a select list by its references and its subqueries.
verdict_by :
    {Value : Type 0} (config : PolicyConfig Value) (snapshot : SchemaSnapshot)
    (xs ys : Projections Value) (d : Bool) (on : OptExpressions Value) (from : FromClause Value)
    (filter : OptPredicate Value) (group : OptExpressions Value) (having : OptPredicate Value)
    (order : OptOrderByTerms Value) (l o : Option ℕ) (joins : OptJoinClauses Value)
    (ctes : OptCtes Value) (sets : OptSetOperation Value)
    → collect_select xs (record { columns = []; stars = [] })
      ≡ collect_select ys (record { columns = []; stars = [] })
    → ((scope : QueryScope) (errors : List VlorQlError)
        → subqueries_in_select xs config snapshot scope errors
          ≡ subqueries_in_select ys config snapshot scope errors)
    → validate config
        (query_plan xs d on from filter group having order l o joins ctes sets)
        snapshot
      ≡ validate config
          (query_plan ys d on from filter group having order l o joins ctes sets)
          snapshot
unfolding validate check_level from_plan level_scope collect_plan_references validate_plan_inner
verdict_by config snapshot xs ys d on from filter group having order l o joins ctes sets collected
      descends =
    let scope =
      level_scope none (query_plan xs d on from filter group having order l o joins ctes sets) in
    let references = λ (refs : PlanReferences). record refs {
      columns = collect_opt_joins joins (
          collect_opt_terms order (
            collect_opt_predicate having
              (collect_opt_expressions group (collect_opt_predicate filter refs.columns))));
    } in
    let checked = λ (refs : PlanReferences).
      (validate_level config snapshot scope (references refs)
        (fresh (validate_opt_ctes ctes config snapshot []))).errors in
    let verdict = λ (errors : List VlorQlError). verdict_of (
      subqueries_in_opt_joins joins config snapshot scope (
        subqueries_in_opt_terms order config snapshot scope (
          subqueries_in_opt_predicate having config snapshot scope (
            subqueries_in_opt_expressions group config snapshot scope
              (subqueries_in_opt_predicate filter config snapshot scope errors))))) in
    ap (λ refs. verdict (subqueries_in_select xs config snapshot scope (checked refs))) collected
    ∙ ap verdict (descends scope _)

-- Two plans that differ only in the subquery that is the result of a branch of a selected `CASE`, wherever
-- the `CASE` stands in the select list and the branch in the `CASE`, get the same verdict.
pub validate_ignores_case_subquery :
    {Value : Type 0} (config : PolicyConfig Value) (snapshot : SchemaSnapshot)
    (before : Projections Value) (earlier : WhenThens Value)
    (operand otherwise : OptExpression Value) (when : Expression Value) (branches : WhenThens Value)
    (query query' : QueryPlan Value) (alias : Option Text) (select : Projections Value) (d : Bool)
    (on : OptExpressions Value) (from : FromClause Value) (filter : OptPredicate Value)
    (group : OptExpressions Value) (having : OptPredicate Value) (order : OptOrderByTerms Value)
    (l o : Option ℕ) (joins : OptJoinClauses Value) (ctes : OptCtes Value)
    (sets : OptSetOperation Value)
    → let selects = λ (q : QueryPlan Value). append_select before (
        case_first operand
          (append_branches earlier (when_thens_cons when (sub_query q) branches))
          otherwise
          alias
          select) in
      validate config
        (query_plan (selects query) d on from filter group having order l o joins ctes sets)
        snapshot
      ≡ validate config
          (query_plan (selects query') d on from filter group having order l o joins ctes sets)
          snapshot
unfolding subqueries_in_select
validate_ignores_case_subquery config snapshot before earlier operand otherwise when branches query
      query' alias select d on from filter group having order l o joins ctes sets =
    let left =
      case_first operand (append_branches earlier (when_thens_cons when (sub_query query) branches))
        otherwise alias select in
    let right =
      case_first operand
        (append_branches earlier (when_thens_cons when (sub_query query') branches)) otherwise alias
        select in
    let collected =
      collect_select-append before left right
        (case_first-collected operand otherwise earlier _ _ alias select
          (subquery_branch-collected when query query' branches))
        (record { columns = []; stars = [] }) in
    verdict_by config snapshot (append_select before left) (append_select before right) d on from
      filter group having order l o joins ctes sets collected
      (λ scope errors.
        subqueries_in_select-append config snapshot scope before left right (λ e. refl) errors)
