-- ===== src/Validate/Dialect/Uses.antt =====
-- The features that a plan uses, where the checks of crates/vlorql-core/src/validate/dialect.rs look for
-- them, and when a dialect allows a feature.
pub mod Pushes
pub mod Leaves
pub mod Accepted
use vlor_ql.Common.{
  ℕ, ◌≤◌, ◌≡◌, ◌⊎◌, Bool, true, false, Option, none, some, List, [], ◌∷◌, ◌++◌, is_empty,
}
use vlor_ql.Common.Lists.{Member, All}
use vlor_ql.Common.Tests.{is_some}
use vlor_ql.Common.Text.{Text}
use vlor_ql.Schema.Dialect.{DialectProfile}
use vlor_ql.Schema.Types.{JoinType}
use vlor_ql.Schema.Plan.{
  Expression, Expressions, OptExpression, OptExpressions, WhenThens, WindowSpec, OptWindowFrame,
  WindowFrameBound, OptWindowFrameBound, OrderByTerms, OptOrderByTerms, InTarget, Predicate,
  OptPredicate, Projection, Projections, JoinClauses, OptJoinClauses, Ctes, OptCtes, QueryPlan,
  literal, column_ref, function_call, binary_op, star, sub_query, case_when, window_function,
  exprs_nil, exprs_cons, no_expr, some_expr, no_exprs, some_exprs, when_thens_nil, when_thens_cons,
  window_spec, no_frame, some_frame, no_bound, some_bound, preceding, following, terms_nil,
  terms_cons, no_terms, some_terms, values, target_query, comparison, and_pred, or_pred, not_pred,
  between, in_pred, like, is_null, exists, true_pred, false_pred, no_pred, some_pred, expr, star_of,
  select_nil, select_cons, joins_nil, joins_cons, no_joins, some_joins, ctes_nil, ctes_cons,
  no_ctes, some_ctes, query_plan,
}
use vlor_ql.Validate.Dialect.{
  is_column_in_group_by, has_ctes, count_opt_joins, count_opt_exprs, is_denied, is_allowed,
  join_index,
}

-- What a level has before and behind its joins, a kind of join, a call with its `DISTINCT`, a window, and
-- a bound of a frame.
pub data Use (Value : Type 0) : Type 0 where
  level_head : OptCtes Value → OptJoinClauses Value → Use Value
  level_tail : Option ℕ → OptExpressions Value → Bool → Projections Value → Use Value
  join_of : JoinType → Use Value
  call : Text → Bool → Use Value
  window : Use Value
  bound : WindowFrameBound Value → Use Value

abbrev pub WithinLimit : Option ℕ → ℕ → Type 0
WithinLimit none n = Unit
WithinLimit (some max) n = n ≤ max

module _ {Value : Type 0} where
  abbrev pub uses_of_frame : OptWindowFrame Value → List (Use Value)
  uses_of_frame no_frame = []
  uses_of_frame (some_frame _ start no_bound) = bound start ∷ []
  uses_of_frame (some_frame _ start (some_bound end)) = bound start ∷ bound end ∷ []

  unfoldable mutual
    pub uses_of : QueryPlan Value → List (Use Value)
    uses_of (query_plan select distinct _ _ filter group having order _ offset joins ctes _) =
        level_head ctes joins
        ∷ (uses_of_opt_joins joins
            ++ level_tail offset group distinct select
              ∷ (uses_of_select select
                  ++ (uses_of_opt_predicate filter
                      ++ (uses_of_opt_expressions group
                          ++ (uses_of_opt_predicate having
                              ++ (uses_of_opt_terms order ++ uses_of_opt_ctes ctes))))))

    pub uses_of_opt_joins : OptJoinClauses Value → List (Use Value)
    uses_of_opt_joins no_joins = []
    uses_of_opt_joins (some_joins joins) = uses_of_joins joins

    pub uses_of_joins : JoinClauses Value → List (Use Value)
    uses_of_joins joins_nil = []
    uses_of_joins (joins_cons kind _ on joins) =
        join_of kind ∷ (uses_of_predicate on ++ uses_of_joins joins)

    pub uses_of_select : Projections Value → List (Use Value)
    uses_of_select select_nil = []
    uses_of_select (select_cons p ps) = uses_of_projection p ++ uses_of_select ps

    pub uses_of_projection : Projection Value → List (Use Value)
    uses_of_projection (Projection.column _ _ _) = []
    uses_of_projection (expr e _) = uses_of_expression e
    uses_of_projection (star_of _) = []

    pub uses_of_opt_ctes : OptCtes Value → List (Use Value)
    uses_of_opt_ctes no_ctes = []
    uses_of_opt_ctes (some_ctes ctes) = uses_of_ctes ctes

    pub uses_of_ctes : Ctes Value → List (Use Value)
    uses_of_ctes ctes_nil = []
    uses_of_ctes (ctes_cons _ _ query ctes) = uses_of query ++ uses_of_ctes ctes

    pub uses_of_expression : Expression Value → List (Use Value)
    uses_of_expression (literal _ _) = []
    uses_of_expression (column_ref _ _) = []
    uses_of_expression (function_call name args distinct) =
        call name distinct ∷ uses_of_expressions args
    uses_of_expression (binary_op left _ right) =
        uses_of_expression left ++ uses_of_expression right
    uses_of_expression star = []
    uses_of_expression (sub_query query) = uses_of query
    uses_of_expression (case_when operand branches otherwise) =
        uses_of_opt_expression operand
        ++ (uses_of_when_thens branches ++ uses_of_opt_expression otherwise)
    uses_of_expression (window_function name args distinct over) =
        window ∷ call name distinct ∷ (uses_of_expressions args ++ uses_of_window over)

    pub uses_of_window : WindowSpec Value → List (Use Value)
    uses_of_window (window_spec partition_by order_by frame) =
        uses_of_opt_expressions partition_by ++ (uses_of_opt_terms order_by ++ uses_of_frame frame)

    pub uses_of_expressions : Expressions Value → List (Use Value)
    uses_of_expressions exprs_nil = []
    uses_of_expressions (exprs_cons e es) = uses_of_expression e ++ uses_of_expressions es

    pub uses_of_opt_expression : OptExpression Value → List (Use Value)
    uses_of_opt_expression no_expr = []
    uses_of_opt_expression (some_expr e) = uses_of_expression e

    pub uses_of_opt_expressions : OptExpressions Value → List (Use Value)
    uses_of_opt_expressions no_exprs = []
    uses_of_opt_expressions (some_exprs es) = uses_of_expressions es

    pub uses_of_when_thens : WhenThens Value → List (Use Value)
    uses_of_when_thens when_thens_nil = []
    uses_of_when_thens (when_thens_cons w t branches) =
        uses_of_expression w ++ (uses_of_expression t ++ uses_of_when_thens branches)

    pub uses_of_terms : OrderByTerms Value → List (Use Value)
    uses_of_terms terms_nil = []
    uses_of_terms (terms_cons e _ terms) = uses_of_expression e ++ uses_of_terms terms

    pub uses_of_opt_terms : OptOrderByTerms Value → List (Use Value)
    uses_of_opt_terms no_terms = []
    uses_of_opt_terms (some_terms terms) = uses_of_terms terms

    pub uses_of_predicate : Predicate Value → List (Use Value)
    uses_of_predicate (comparison left _ right) =
        uses_of_expression left ++ uses_of_expression right
    uses_of_predicate (and_pred left right) = uses_of_predicate left ++ uses_of_predicate right
    uses_of_predicate (or_pred left right) = uses_of_predicate left ++ uses_of_predicate right
    uses_of_predicate (not_pred child) = uses_of_predicate child
    uses_of_predicate (between e low high) =
        uses_of_expression e ++ (uses_of_expression low ++ uses_of_expression high)
    uses_of_predicate (in_pred e target) = uses_of_expression e ++ uses_of_target target
    uses_of_predicate (exists query) = uses_of query
    uses_of_predicate (like e _) = uses_of_expression e
    uses_of_predicate (is_null e) = uses_of_expression e
    uses_of_predicate true_pred = []
    uses_of_predicate false_pred = []

    pub uses_of_target : InTarget Value → List (Use Value)
    uses_of_target (values es) = uses_of_expressions es
    uses_of_target (target_query query) = uses_of query

    pub uses_of_opt_predicate : OptPredicate Value → List (Use Value)
    uses_of_opt_predicate no_pred = []
    uses_of_opt_predicate (some_pred p) = uses_of_predicate p

  -- A selected item under a grouping: a column is grouped by, and there is no star.
  abbrev pub Grouped : Expressions Value → Projection Value → Type 0
  Grouped group (star_of _) = ⊥
  Grouped group (Projection.column table column _) = is_column_in_group_by group table column ≡ true
  Grouped group (expr (column_ref table column) _) = is_column_in_group_by group table column ≡ true
  Grouped group (expr star _) = ⊥
  Grouped group (expr _ _) = Unit

  abbrev pub AllGrouped : Expressions Value → Projections Value → Type 0
  AllGrouped group select_nil = Unit
  AllGrouped group (select_cons p ps) = Grouped group p × AllGrouped group ps

  abbrev pub GroupedSelect : OptExpressions Value → Projections Value → Type 0
  GroupedSelect no_exprs select = Unit
  GroupedSelect (some_exprs exprs_nil) select = Unit
  GroupedSelect (some_exprs (exprs_cons e es)) select = AllGrouped (exprs_cons e es) select

  abbrev pub PlainBound : WindowFrameBound Value → Type 0
  PlainBound (preceding (sub_query _)) = ⊥
  PlainBound (following (sub_query _)) = ⊥
  PlainBound _ = Unit

  module _ (profile : DialectProfile) where
    abbrev pub Allowed : Use Value → Type 0
    Allowed (level_head ctes joins) =
        ((has_ctes ctes ≡ false) ⊎ (profile.supports_cte ≡ true))
        × WithinLimit profile.max_joins (count_opt_joins joins)
    Allowed (level_tail offset group distinct select) =
        ((is_some offset ≡ false) ⊎ (profile.supports_offset ≡ true))
        × WithinLimit profile.max_group_by_columns (count_opt_exprs group)
        × ((distinct ≡ false) ⊎ (profile.allow_select_distinct ≡ true))
        × GroupedSelect group select
    Allowed (join_of kind) =
        (profile.allowed_join_types ≡ []) ⊎ Member kind profile.allowed_join_types
    Allowed (call name distinct) =
        (is_denied profile name ≡ false)
        × (is_allowed profile name ≡ true)
        × ((distinct ≡ false) ⊎ (profile.allow_distinct ≡ true))
    Allowed window = profile.supports_window_functions ≡ true
    Allowed (bound b) = PlainBound b
