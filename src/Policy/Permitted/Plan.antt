-- ===== src/Policy/Permitted/Plan.antt =====
-- The engine accepts exactly the permitted plans.
use vlor_ql.Common.{Option, none, some, List, [], ◌∷◌, ◌++◌, ◌≡◌, refl, ◌↔◌}
use vlor_ql.Common.Checks.{Checks, Checks-none, Checks-then, Checks-iff}
use vlor_ql.Common.Lists.{All, All-append}
use vlor_ql.Errors.{VlorQlError}
use vlor_ql.Policy.Config.{PolicyConfig}
use vlor_ql.Policy.Engine.Nested.{
  level_scope, check_level, validate_plan_inner, validate_opt_ctes, validate_ctes,
  subqueries_in_select, subqueries_in_projection, validate_subqueries_in_expression,
  subqueries_in_expressions, subqueries_in_opt_expressions, subqueries_in_terms,
  subqueries_in_opt_terms, validate_subqueries_in_predicate, subqueries_in_target,
  subqueries_in_opt_predicate, subqueries_in_joins, subqueries_in_opt_joins, accepted, verdict_of,
  validate,
}
use vlor_ql.Policy.Permitted.{
  LevelPermitted, QueryLevel, levels, levels_of_opt_ctes, levels_of_ctes, levels_of_select,
  levels_of_projection, levels_of_expression, levels_of_expressions, levels_of_opt_expressions,
  levels_of_terms, levels_of_opt_terms, levels_of_predicate, levels_of_target,
  levels_of_opt_predicate, levels_of_joins, levels_of_opt_joins, PlanPermitted,
}
use vlor_ql.Policy.Permitted.Level.{validate_level-Checks}
use vlor_ql.Policy.Report.{fresh}
use vlor_ql.Query.References.{collect_plan_references}
use vlor_ql.Query.Scope.{QueryScope}
use vlor_ql.Schema.Snapshot.{SchemaSnapshot}
use vlor_ql.Schema.Plan.{
  Expression, Expressions, OptExpressions, OrderByTerms, OptOrderByTerms, InTarget, Predicate,
  OptPredicate, Projection, Projections, JoinClauses, OptJoinClauses, Ctes, OptCtes, QueryPlan,
  function_call, binary_op, sub_query, exprs_nil, exprs_cons, no_exprs, some_exprs, terms_nil,
  terms_cons, no_terms, some_terms, values, target_query, comparison, and_pred, or_pred, not_pred,
  between, in_pred, like, is_null, exists, true_pred, false_pred, no_pred, some_pred, expr, star_of,
  select_nil, select_cons, joins_nil, joins_cons, no_joins, some_joins, ctes_nil, ctes_cons,
  no_ctes, some_ctes, query_plan,
}

abbrev errors_of : List VlorQlError → List VlorQlError
errors_of es = es

abbrev Always : List VlorQlError → Type 0
Always es = Unit

module _ {Value : Type 0} (config : PolicyConfig Value) (snapshot : SchemaSnapshot) where
  abbrev IsPermitted : QueryLevel Value → Type 0
  IsPermitted l = LevelPermitted config snapshot l.scope (collect_plan_references l.plan)

  -- The pass `f` checks the levels `ls`.
  abbrev Visits : (List VlorQlError → List VlorQlError) → List (QueryLevel Value) → Type 0
  Visits f ls = Checks errors_of Always f (All IsPermitted ls)

  Visits-none : Visits (λ es. es) []
  Visits-none = Checks-none errors_of Always

  Visits-then :
      (f g : List VlorQlError → List VlorQlError) (ls ms : List (QueryLevel Value))
      → Visits f ls
      → Visits g ms
      → Visits (λ es. g (f es)) (ls ++ ms)
  Visits-then f g ls ms cf cg =
      let e = All-append IsPermitted ls ms in
      Checks-iff errors_of Always (λ es. g (f es)) ((λ h. e.1 h), (λ h. e.0 h))
        (Checks-then errors_of Always f g cf cg)

  check_level-Visits :
      (scope : QueryScope) (plan : QueryPlan Value)
      → Visits (check_level config snapshot scope plan) (record { scope = scope; plan = plan } ∷ [])
  unfolding check_level
  check_level-Visits scope plan =
      let c = validate_level-Checks config snapshot scope (collect_plan_references plan) in
      record {
        keeps = λ es h. tt;
        sound = λ es h e. let r = c.sound (fresh es) (λ _. (refl, refl)) e in (r.0, (r.1, tt));
        complete = λ es h e p. c.complete (fresh es) (λ _. (refl, refl)) e p.0;
      }

  mutual
    unfolding validate_plan_inner levels

    plan-Visits :
        (plan : QueryPlan Value) (outer : Option QueryScope)
        → Visits (validate_plan_inner plan config snapshot outer) (levels plan outer)
    plan-Visits (query_plan select d on from filter group having order l o joins ctes sets) outer =
        let plan = query_plan select d on from filter group having order l o joins ctes sets in
        let scope = level_scope outer plan in
        Visits-then _ _ _ _
          (Visits-then _ _ _ _
            (Visits-then _ _ _ _
              (Visits-then _ _ _ _
                (Visits-then _ _ _ _
                  (Visits-then _ _ _ _
                    (Visits-then _ _ _ _ (opt_ctes-Visits ctes) (check_level-Visits scope plan))
                    (select-Visits select scope))
                  (opt_predicate-Visits filter scope))
                (opt_expressions-Visits group scope))
              (opt_predicate-Visits having scope))
            (opt_terms-Visits order scope))
          (opt_joins-Visits joins scope)

    opt_ctes-Visits :
        (x : OptCtes Value) → Visits (validate_opt_ctes x config snapshot) (levels_of_opt_ctes x)
    opt_ctes-Visits no_ctes = Visits-none
    opt_ctes-Visits (some_ctes ctes) = ctes-Visits ctes

    ctes-Visits : (x : Ctes Value) → Visits (validate_ctes x config snapshot) (levels_of_ctes x)
    ctes-Visits ctes_nil = Visits-none
    ctes-Visits (ctes_cons _ _ query ctes) =
        Visits-then _ _ _ _ (plan-Visits query none) (ctes-Visits ctes)

    select-Visits :
        (x : Projections Value) (scope : QueryScope)
        → Visits (subqueries_in_select x config snapshot scope) (levels_of_select x scope)
    select-Visits select_nil scope = Visits-none
    select-Visits (select_cons p ps) scope =
        Visits-then _ _ _ _ (projection-Visits p scope) (select-Visits ps scope)

    projection-Visits :
        (x : Projection Value) (scope : QueryScope)
        → Visits (subqueries_in_projection x config snapshot scope) (levels_of_projection x scope)
    projection-Visits (Projection.column _ _ _) scope = Visits-none
    projection-Visits (expr e _) scope = expression-Visits e scope
    projection-Visits (star_of _) scope = Visits-none

    expression-Visits :
        (x : Expression Value) (scope : QueryScope)
        → Visits
            (validate_subqueries_in_expression x config snapshot scope)
            (levels_of_expression x scope)
    expression-Visits (sub_query query) scope = plan-Visits query (some scope)
    expression-Visits (function_call _ args _) scope = expressions-Visits args scope
    expression-Visits (binary_op left _ right) scope =
        Visits-then _ _ _ _ (expression-Visits left scope) (expression-Visits right scope)
    expression-Visits _ scope = Visits-none

    expressions-Visits :
        (x : Expressions Value) (scope : QueryScope)
        → Visits (subqueries_in_expressions x config snapshot scope) (levels_of_expressions x scope)
    expressions-Visits exprs_nil scope = Visits-none
    expressions-Visits (exprs_cons e es) scope =
        Visits-then _ _ _ _ (expression-Visits e scope) (expressions-Visits es scope)

    opt_expressions-Visits :
        (x : OptExpressions Value) (scope : QueryScope)
        → Visits
            (subqueries_in_opt_expressions x config snapshot scope)
            (levels_of_opt_expressions x scope)
    opt_expressions-Visits no_exprs scope = Visits-none
    opt_expressions-Visits (some_exprs es) scope = expressions-Visits es scope

    terms-Visits :
        (x : OrderByTerms Value) (scope : QueryScope)
        → Visits (subqueries_in_terms x config snapshot scope) (levels_of_terms x scope)
    terms-Visits terms_nil scope = Visits-none
    terms-Visits (terms_cons e _ terms) scope =
        Visits-then _ _ _ _ (expression-Visits e scope) (terms-Visits terms scope)

    opt_terms-Visits :
        (x : OptOrderByTerms Value) (scope : QueryScope)
        → Visits (subqueries_in_opt_terms x config snapshot scope) (levels_of_opt_terms x scope)
    opt_terms-Visits no_terms scope = Visits-none
    opt_terms-Visits (some_terms terms) scope = terms-Visits terms scope

    predicate-Visits :
        (x : Predicate Value) (scope : QueryScope)
        → Visits
            (validate_subqueries_in_predicate x config snapshot scope)
            (levels_of_predicate x scope)
    predicate-Visits (comparison left _ right) scope =
        Visits-then _ _ _ _ (expression-Visits left scope) (expression-Visits right scope)
    predicate-Visits (and_pred left right) scope =
        Visits-then _ _ _ _ (predicate-Visits left scope) (predicate-Visits right scope)
    predicate-Visits (or_pred left right) scope =
        Visits-then _ _ _ _ (predicate-Visits left scope) (predicate-Visits right scope)
    predicate-Visits (not_pred child) scope = predicate-Visits child scope
    predicate-Visits (between e low high) scope =
        Visits-then _ _ _ _
          (Visits-then _ _ _ _ (expression-Visits e scope) (expression-Visits low scope))
          (expression-Visits high scope)
    predicate-Visits (in_pred e target) scope =
        Visits-then _ _ _ _ (expression-Visits e scope) (target-Visits target scope)
    predicate-Visits (exists query) scope = plan-Visits query (some scope)
    predicate-Visits (like e _) scope = expression-Visits e scope
    predicate-Visits (is_null e) scope = expression-Visits e scope
    predicate-Visits true_pred scope = Visits-none
    predicate-Visits false_pred scope = Visits-none

    target-Visits :
        (x : InTarget Value) (scope : QueryScope)
        → Visits (subqueries_in_target x config snapshot scope) (levels_of_target x scope)
    target-Visits (values _) scope = Visits-none
    target-Visits (target_query query) scope = plan-Visits query (some scope)

    opt_predicate-Visits :
        (x : OptPredicate Value) (scope : QueryScope)
        → Visits
            (subqueries_in_opt_predicate x config snapshot scope)
            (levels_of_opt_predicate x scope)
    opt_predicate-Visits no_pred scope = Visits-none
    opt_predicate-Visits (some_pred p) scope = predicate-Visits p scope

    joins-Visits :
        (x : JoinClauses Value) (scope : QueryScope)
        → Visits (subqueries_in_joins x config snapshot scope) (levels_of_joins x scope)
    joins-Visits joins_nil scope = Visits-none
    joins-Visits (joins_cons _ _ on joins) scope =
        Visits-then _ _ _ _ (predicate-Visits on scope) (joins-Visits joins scope)

    opt_joins-Visits :
        (x : OptJoinClauses Value) (scope : QueryScope)
        → Visits (subqueries_in_opt_joins x config snapshot scope) (levels_of_opt_joins x scope)
    opt_joins-Visits no_joins scope = Visits-none
    opt_joins-Visits (some_joins joins) scope = joins-Visits joins scope

pub verdict_of-accepted : (es : List VlorQlError) → (verdict_of es ≡ accepted) ↔ (es ≡ [])
verdict_of-accepted [] = ((λ _. refl), (λ _. refl))
verdict_of-accepted (e ∷ es) = ((λ h. cc), (λ h. cc))

-- The engine accepts a plan exactly if each of its levels is permitted, in whatever order and however
-- often the violations would be reported: the plan itself, its CTEs, and the subqueries that the
-- engine descends into, every one in its own scope.
pub validate_iff :
    {Value : Type 0} (config : PolicyConfig Value) (snapshot : SchemaSnapshot)
    (plan : QueryPlan Value)
    → (validate config plan snapshot ≡ accepted) ↔ PlanPermitted config snapshot plan
unfolding validate
validate_iff config snapshot plan =
    let c = plan-Visits config snapshot plan none in
    let v = verdict_of-accepted (validate_plan_inner plan config snapshot none []) in
    ((λ h. (c.sound [] tt (v.0 h)).1), (λ p. v.1 (c.complete [] tt refl p)))
