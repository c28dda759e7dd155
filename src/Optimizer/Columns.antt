-- ===== src/Optimizer/Columns.antt =====
-- The columns and tables that a predicate refers to: `columns_in_predicate` and `referenced_tables` of
-- crates/vlorql-core/src/optimizer/analyze.rs, over the traversal of visitor.rs beside it. The collector of
-- the source overrides `visit_expression` and does not go on below the expression. A `HashSet` is a list
-- without duplicates.
use vlor_ql.Common.{
  Bool, true, false, ◌&&◌, Option, none, some, List, [], ◌∷◌, ◌++◌, if◌then◌else◌, for_each,
}
use vlor_ql.Common.Lists.{any}
use vlor_ql.Common.Text.{Text, ◌==◌}
use vlor_ql.Schema.Plan.{
  Expression, Expressions, OptExpressions, OrderByTerms, OptOrderByTerms, InTarget, Predicate,
  OptPredicate, Projection, Projections, JoinClauses, OptJoinClauses, Ctes, OptCtes, QueryPlan,
  column_ref, exprs_nil, exprs_cons, no_exprs, some_exprs, terms_nil, terms_cons, no_terms,
  some_terms, values, target_query, comparison, and_pred, or_pred, not_pred, between, in_pred, like,
  is_null, exists, true_pred, false_pred, no_pred, some_pred, expr, star_of, select_nil,
  select_cons, joins_nil, joins_cons, no_joins, some_joins, ctes_nil, ctes_cons, no_ctes, some_ctes,
  query_plan,
}

abbrev pub ColumnRef : Type 0
ColumnRef = Option Text × Text

unfoldable pub same_table : Option Text → Option Text → Bool
same_table none none = true
same_table (some a) (some b) = a == b
same_table none (some _) = false
same_table (some _) none = false

unfoldable pub insert_column : ColumnRef → List ColumnRef → List ColumnRef
insert_column (t, c) set =
    if any (λ (x : ColumnRef). same_table x.0 t && x.1 == c) set then set else set ++ (t, c) ∷ []

unfoldable pub insert_table : Option Text → List (Option Text) → List (Option Text)
insert_table t set = if any (λ x. same_table x t) set then set else set ++ t ∷ []

module _ {Value : Type 0} where
  -- `ColumnCollector`
  unfoldable pub visit_expression : Expression Value → List ColumnRef → List ColumnRef
  visit_expression (column_ref t c) set = insert_column (t, c) set
  visit_expression _ set = set

  unfoldable pub visit_expressions : Expressions Value → List ColumnRef → List ColumnRef
  visit_expressions exprs_nil set = set
  visit_expressions (exprs_cons e es) set = visit_expressions es (visit_expression e set)

  unfoldable pub visit_opt_expressions : OptExpressions Value → List ColumnRef → List ColumnRef
  visit_opt_expressions no_exprs set = set
  visit_opt_expressions (some_exprs es) set = visit_expressions es set

  unfoldable pub visit_terms : OrderByTerms Value → List ColumnRef → List ColumnRef
  visit_terms terms_nil set = set
  visit_terms (terms_cons e _ terms) set = visit_terms terms (visit_expression e set)

  unfoldable pub visit_opt_terms : OptOrderByTerms Value → List ColumnRef → List ColumnRef
  visit_opt_terms no_terms set = set
  visit_opt_terms (some_terms terms) set = visit_terms terms set

  unfoldable pub visit_select : Projections Value → List ColumnRef → List ColumnRef
  visit_select select_nil set = set
  visit_select (select_cons (expr e _) ps) set = visit_select ps (visit_expression e set)
  visit_select (select_cons (Projection.column _ _ _) ps) set = visit_select ps set
  visit_select (select_cons (star_of _) ps) set = visit_select ps set

  unfoldable mutual
    pub visit_predicate : Predicate Value → List ColumnRef → List ColumnRef
    visit_predicate (comparison left _ right) set =
        visit_expression right (visit_expression left set)
    visit_predicate (and_pred left right) set = visit_predicate right (visit_predicate left set)
    visit_predicate (or_pred left right) set = visit_predicate right (visit_predicate left set)
    visit_predicate (not_pred child) set = visit_predicate child set
    visit_predicate (between e low high) set =
        visit_expression high (visit_expression low (visit_expression e set))
    visit_predicate (in_pred e target) set = visit_target target (visit_expression e set)
    visit_predicate (exists query) set = visit_plan query set
    visit_predicate (like e _) set = visit_expression e set
    visit_predicate (is_null e) set = visit_expression e set
    visit_predicate true_pred set = set
    visit_predicate false_pred set = set

    pub visit_target : InTarget Value → List ColumnRef → List ColumnRef
    visit_target (values es) set = visit_expressions es set
    visit_target (target_query query) set = visit_plan query set

    pub visit_opt_predicate : OptPredicate Value → List ColumnRef → List ColumnRef
    visit_opt_predicate no_pred set = set
    visit_opt_predicate (some_pred p) set = visit_predicate p set

    pub visit_joins : JoinClauses Value → List ColumnRef → List ColumnRef
    visit_joins joins_nil set = set
    visit_joins (joins_cons _ _ on joins) set = visit_joins joins (visit_predicate on set)

    pub visit_opt_joins : OptJoinClauses Value → List ColumnRef → List ColumnRef
    visit_opt_joins no_joins set = set
    visit_opt_joins (some_joins joins) set = visit_joins joins set

    pub visit_ctes : Ctes Value → List ColumnRef → List ColumnRef
    visit_ctes ctes_nil set = set
    visit_ctes (ctes_cons _ _ query ctes) set = visit_ctes ctes (visit_plan query set)

    pub visit_opt_ctes : OptCtes Value → List ColumnRef → List ColumnRef
    visit_opt_ctes no_ctes set = set
    visit_opt_ctes (some_ctes ctes) set = visit_ctes ctes set

    -- `default_visit_plan`
    pub visit_plan : QueryPlan Value → List ColumnRef → List ColumnRef
    visit_plan (query_plan select _ _ _ filter group having order _ _ joins ctes _) set =
        visit_opt_ctes ctes (
          visit_opt_joins joins (
            visit_opt_terms order (
              visit_opt_predicate having (
                visit_opt_expressions group
                  (visit_opt_predicate filter (visit_select select set))))))

  unfoldable pub columns_in_predicate : Predicate Value → List ColumnRef
  columns_in_predicate p = visit_predicate p []

  unfoldable pub columns_in_expression : Expression Value → List ColumnRef
  columns_in_expression e = visit_expression e []

  unfoldable pub referenced_tables : Predicate Value → List (Option Text)
  referenced_tables p = for_each (λ (c : ColumnRef). insert_table c.0) (columns_in_predicate p) []
