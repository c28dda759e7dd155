-- ===== src/Policy/Permitted.antt =====
-- What the policy engine promises, without its reports: when one query level is permitted, which levels
-- a plan has, and when the whole plan is permitted.
pub mod Level
pub mod Plan
pub mod Access
use vlor_ql.Common.{Bool, true, false, Option, none, some, List, [], ◌∷◌, ◌++◌, ◌≡◌}
use vlor_ql.Common.Lists.{All, any}
use vlor_ql.Common.Checks.{Unless}
use vlor_ql.Common.Text.{Text}
use vlor_ql.Policy.Config.{PolicyConfig, is_table_denied, column_denial_reason}
use vlor_ql.Policy.Engine.{is_cte, has_column, candidates}
use vlor_ql.Policy.Engine.Nested.{level_scope}
use vlor_ql.Query.References.{ColumnReference, PlanReferences, collect_plan_references}
use vlor_ql.Query.Scope.{QueryScope, QuerySource, resolve_source}
use vlor_ql.Schema.Snapshot.{SchemaSnapshot, TableSchema, ColumnSchema, get_table}
use vlor_ql.Schema.Plan.{
  Expression, Expressions, OptExpressions, OrderByTerms, OptOrderByTerms, InTarget, Predicate,
  OptPredicate, Projection, Projections, JoinClauses, OptJoinClauses, Ctes, OptCtes, QueryPlan,
  function_call, binary_op, sub_query, exprs_nil, exprs_cons, no_exprs, some_exprs, terms_nil,
  terms_cons, no_terms, some_terms, values, target_query, comparison, and_pred, or_pred, not_pred,
  between, in_pred, like, is_null, exists, true_pred, false_pred, no_pred, some_pred, expr, star_of,
  select_nil, select_cons, joins_nil, joins_cons, no_joins, some_joins, ctes_nil, ctes_cons,
  no_ctes, some_ctes, query_plan,
}

module _ {Value : Type 0} (config : PolicyConfig Value) where
  abbrev pub TablePermitted : TableSchema → Type 0
  TablePermitted t = is_table_denied config t.name ≡ false

  abbrev pub ColumnPermitted : Text → TableSchema → Type 0
  ColumnPermitted col t = column_denial_reason config t.name col ≡ none

  -- A source that is no CTE is a table of the schema.
  abbrev pub FoundPermitted : Option TableSchema → Type 0
  FoundPermitted none = ⊥
  FoundPermitted (some t) = TablePermitted t

  -- A star reads every column of the table.
  abbrev pub AllColumnsPermitted : Option TableSchema → Type 0
  AllColumnsPermitted none = Unit
  AllColumnsPermitted (some t) = All (λ (c : ColumnSchema). ColumnPermitted c.name t) t.columns

  abbrev pub ExistingPermitted : Option TableSchema → Text → Type 0
  ExistingPermitted none col = Unit
  ExistingPermitted (some t) col = (has_column t col ≡ true) × ColumnPermitted col t

  module _ (snapshot : SchemaSnapshot) (scope : QueryScope) where
    abbrev pub SourcePermitted : QuerySource → Type 0
    SourcePermitted s = Unless (is_cte scope s) (FoundPermitted (get_table snapshot s.table))

    abbrev pub StarSourcePermitted : QuerySource → Type 0
    StarSourcePermitted s =
        Unless (is_cte scope s) (AllColumnsPermitted (get_table snapshot s.table))

    abbrev pub StarResolvedPermitted : Option QuerySource → Type 0
    StarResolvedPermitted none = ⊥
    StarResolvedPermitted (some s) = StarSourcePermitted s

    abbrev pub StarPermitted : Option Text → Type 0
    StarPermitted none = All StarSourcePermitted scope.sources
    StarPermitted (some qualifier) = StarResolvedPermitted (resolve_source scope qualifier)

    abbrev pub ResolvedPermitted : Option QuerySource → Text → Type 0
    ResolvedPermitted none col = ⊥
    ResolvedPermitted (some s) col =
        Unless (is_cte scope s) (ExistingPermitted (get_table snapshot s.table) col)

    -- An unqualified column may be missing only where a CTE could provide it.
    abbrev pub CandidatesPermitted : List TableSchema → Text → Type 0
    CandidatesPermitted [] col = any (is_cte scope) scope.sources ≡ true
    CandidatesPermitted (t ∷ ts) col = All (ColumnPermitted col) (t ∷ ts)

    abbrev pub QualifiedPermitted : Option Text → Text → Type 0
    QualifiedPermitted (some qualifier) col = ResolvedPermitted (resolve_source scope qualifier) col
    QualifiedPermitted none col =
        CandidatesPermitted (candidates snapshot scope scope.sources col) col

    abbrev pub ReferencePermitted : ColumnReference → Type 0
    ReferencePermitted r = QualifiedPermitted r.table r.column

    abbrev pub LevelPermitted : PlanReferences → Type 0
    LevelPermitted references =
        (All SourcePermitted scope.sources × All StarPermitted references.stars)
        × All ReferencePermitted references.columns

-- A query level: its scope, and what it references there.
pub record QueryLevel (Value : Type 0) : Type 0 where
  pub scope : QueryScope
  pub plan : QueryPlan Value

unfoldable mutual
  unfolding level_scope

  -- The levels that the engine visits, in its order: CTEs, the plan, its subqueries.
  pub levels : {Value : Type 0} → QueryPlan Value → Option QueryScope → List (QueryLevel Value)
  levels (query_plan select d on from filter group having order l o joins ctes sets) outer =
      let plan = query_plan select d on from filter group having order l o joins ctes sets in
      let scope = level_scope outer plan in
      ((((((levels_of_opt_ctes ctes ++ record { scope = scope; plan = plan } ∷ [])
                ++ levels_of_select select scope)
              ++ levels_of_opt_predicate filter scope)
            ++ levels_of_opt_expressions group scope)
          ++ levels_of_opt_predicate having scope)
        ++ levels_of_opt_terms order scope)
      ++ levels_of_opt_joins joins scope

  pub levels_of_opt_ctes : {Value : Type 0} → OptCtes Value → List (QueryLevel Value)
  levels_of_opt_ctes no_ctes = []
  levels_of_opt_ctes (some_ctes ctes) = levels_of_ctes ctes

  pub levels_of_ctes : {Value : Type 0} → Ctes Value → List (QueryLevel Value)
  levels_of_ctes ctes_nil = []
  levels_of_ctes (ctes_cons _ _ query ctes) = levels query none ++ levels_of_ctes ctes

  pub levels_of_select : {Value : Type 0} → Projections Value → QueryScope → List (QueryLevel Value)
  levels_of_select select_nil scope = []
  levels_of_select (select_cons p ps) scope =
      levels_of_projection p scope ++ levels_of_select ps scope

  pub levels_of_projection :
      {Value : Type 0} → Projection Value → QueryScope → List (QueryLevel Value)
  levels_of_projection (Projection.column _ _ _) scope = []
  levels_of_projection (expr e _) scope = levels_of_expression e scope
  levels_of_projection (star_of _) scope = []

  pub levels_of_expression :
      {Value : Type 0} → Expression Value → QueryScope → List (QueryLevel Value)
  levels_of_expression (sub_query query) scope = levels query (some scope)
  levels_of_expression (function_call _ args _) scope = levels_of_expressions args scope
  levels_of_expression (binary_op left _ right) scope =
      levels_of_expression left scope ++ levels_of_expression right scope
  levels_of_expression _ scope = []

  pub levels_of_expressions :
      {Value : Type 0} → Expressions Value → QueryScope → List (QueryLevel Value)
  levels_of_expressions exprs_nil scope = []
  levels_of_expressions (exprs_cons e es) scope =
      levels_of_expression e scope ++ levels_of_expressions es scope

  pub levels_of_opt_expressions :
      {Value : Type 0} → OptExpressions Value → QueryScope → List (QueryLevel Value)
  levels_of_opt_expressions no_exprs scope = []
  levels_of_opt_expressions (some_exprs es) scope = levels_of_expressions es scope

  pub levels_of_terms : {Value : Type 0} → OrderByTerms Value → QueryScope → List (QueryLevel Value)
  levels_of_terms terms_nil scope = []
  levels_of_terms (terms_cons e _ terms) scope =
      levels_of_expression e scope ++ levels_of_terms terms scope

  pub levels_of_opt_terms :
      {Value : Type 0} → OptOrderByTerms Value → QueryScope → List (QueryLevel Value)
  levels_of_opt_terms no_terms scope = []
  levels_of_opt_terms (some_terms terms) scope = levels_of_terms terms scope

  pub levels_of_predicate :
      {Value : Type 0} → Predicate Value → QueryScope → List (QueryLevel Value)
  levels_of_predicate (comparison left _ right) scope =
      levels_of_expression left scope ++ levels_of_expression right scope
  levels_of_predicate (and_pred left right) scope =
      levels_of_predicate left scope ++ levels_of_predicate right scope
  levels_of_predicate (or_pred left right) scope =
      levels_of_predicate left scope ++ levels_of_predicate right scope
  levels_of_predicate (not_pred child) scope = levels_of_predicate child scope
  levels_of_predicate (between e low high) scope =
      (levels_of_expression e scope ++ levels_of_expression low scope)
      ++ levels_of_expression high scope
  levels_of_predicate (in_pred e target) scope =
      levels_of_expression e scope ++ levels_of_target target scope
  levels_of_predicate (exists query) scope = levels query (some scope)
  levels_of_predicate (like e _) scope = levels_of_expression e scope
  levels_of_predicate (is_null e) scope = levels_of_expression e scope
  levels_of_predicate true_pred scope = []
  levels_of_predicate false_pred scope = []

  pub levels_of_target : {Value : Type 0} → InTarget Value → QueryScope → List (QueryLevel Value)
  levels_of_target (values _) scope = []
  levels_of_target (target_query query) scope = levels query (some scope)

  pub levels_of_opt_predicate :
      {Value : Type 0} → OptPredicate Value → QueryScope → List (QueryLevel Value)
  levels_of_opt_predicate no_pred scope = []
  levels_of_opt_predicate (some_pred p) scope = levels_of_predicate p scope

  pub levels_of_joins : {Value : Type 0} → JoinClauses Value → QueryScope → List (QueryLevel Value)
  levels_of_joins joins_nil scope = []
  levels_of_joins (joins_cons _ _ on joins) scope =
      levels_of_predicate on scope ++ levels_of_joins joins scope

  pub levels_of_opt_joins :
      {Value : Type 0} → OptJoinClauses Value → QueryScope → List (QueryLevel Value)
  levels_of_opt_joins no_joins scope = []
  levels_of_opt_joins (some_joins joins) scope = levels_of_joins joins scope

-- Every level of the plan is permitted.
abbrev pub PlanPermitted :
    {Value : Type 0} → PolicyConfig Value → SchemaSnapshot → QueryPlan Value → Type 0
PlanPermitted {Value = Value} config snapshot plan =
    All
      (λ (l : QueryLevel Value).
        LevelPermitted config snapshot l.scope (collect_plan_references l.plan))
      (levels plan none)
