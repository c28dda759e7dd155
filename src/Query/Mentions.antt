-- ===== src/Query/Mentions.antt =====
-- Which columns and stars a query names, by the parts of the plan language: what `collect_plan_references` of
-- crates/vlorql-core/src/query.rs is judged by. Subqueries, the frames of windows, `DISTINCT ON` and the
-- conditions of cross joins are not part of it.
pub mod Collected
use vlor_ql.Common.{Option, ◌≡◌, ◌⊎◌, false}
use vlor_ql.Common.Text.{Text}
use vlor_ql.Query.References.{ColumnReference}
use vlor_ql.Schema.Types.{is_cross}
use vlor_ql.Schema.Plan.{
  Expression, Expressions, OptExpression, OptExpressions, WhenThens, WindowSpec, OrderByTerms,
  OptOrderByTerms, InTarget, Predicate, OptPredicate, Projection, Projections, JoinClauses,
  OptJoinClauses, QueryPlan, literal, column_ref, function_call, binary_op, star, sub_query,
  case_when, window_function, exprs_nil, exprs_cons, no_expr, some_expr, no_exprs, some_exprs,
  when_thens_nil, when_thens_cons, window_spec, terms_nil, terms_cons, no_terms, some_terms, values,
  target_query, comparison, and_pred, or_pred, not_pred, between, in_pred, like, is_null, exists,
  true_pred, false_pred, no_pred, some_pred, expr, star_of, select_nil, select_cons, joins_nil,
  joins_cons, no_joins, some_joins, query_plan,
}

module _ {Value : Type 0} (r : ColumnReference) where
  -- An expression names the column, itself or in one of its parts.
  unfoldable mutual
    pub Mentions : Expression Value → Type 0
    Mentions (literal _ _) = ⊥
    Mentions (column_ref t c) = record { table = t; column = c } ≡ r
    Mentions (function_call _ args _) = MentionsAny args
    Mentions (binary_op left _ right) = Mentions left ⊎ Mentions right
    Mentions star = ⊥
    Mentions (sub_query _) = ⊥
    Mentions (case_when operand branches otherwise) =
        (MentionsOpt operand ⊎ MentionsBranch branches) ⊎ MentionsOpt otherwise
    Mentions (window_function _ args _ over) = MentionsAny args ⊎ MentionsWindow over

    pub MentionsAny : Expressions Value → Type 0
    MentionsAny exprs_nil = ⊥
    MentionsAny (exprs_cons e es) = Mentions e ⊎ MentionsAny es

    pub MentionsOpt : OptExpression Value → Type 0
    MentionsOpt no_expr = ⊥
    MentionsOpt (some_expr e) = Mentions e

    pub MentionsOptAny : OptExpressions Value → Type 0
    MentionsOptAny no_exprs = ⊥
    MentionsOptAny (some_exprs es) = MentionsAny es

    pub MentionsBranch : WhenThens Value → Type 0
    MentionsBranch when_thens_nil = ⊥
    MentionsBranch (when_thens_cons w t branches) =
        (Mentions w ⊎ Mentions t) ⊎ MentionsBranch branches

    pub MentionsWindow : WindowSpec Value → Type 0
    MentionsWindow (window_spec partition_by order_by _) =
        MentionsOptAny partition_by ⊎ MentionsOptTerm order_by

    pub MentionsTerm : OrderByTerms Value → Type 0
    MentionsTerm terms_nil = ⊥
    MentionsTerm (terms_cons e _ terms) = Mentions e ⊎ MentionsTerm terms

    pub MentionsOptTerm : OptOrderByTerms Value → Type 0
    MentionsOptTerm no_terms = ⊥
    MentionsOptTerm (some_terms terms) = MentionsTerm terms

  unfoldable pub MentionsTarget : InTarget Value → Type 0
  unfolding Mentions
  MentionsTarget (values es) = MentionsAny es
  MentionsTarget (target_query _) = ⊥

  unfoldable pub MentionsPredicate : Predicate Value → Type 0
  unfolding Mentions MentionsTarget
  MentionsPredicate (comparison left _ right) = Mentions left ⊎ Mentions right
  MentionsPredicate (and_pred left right) = MentionsPredicate left ⊎ MentionsPredicate right
  MentionsPredicate (or_pred left right) = MentionsPredicate left ⊎ MentionsPredicate right
  MentionsPredicate (not_pred child) = MentionsPredicate child
  MentionsPredicate (between e low high) = (Mentions e ⊎ Mentions low) ⊎ Mentions high
  MentionsPredicate (in_pred e target) = Mentions e ⊎ MentionsTarget target
  MentionsPredicate (like e _) = Mentions e
  MentionsPredicate (is_null e) = Mentions e
  MentionsPredicate (exists _) = ⊥
  MentionsPredicate true_pred = ⊥
  MentionsPredicate false_pred = ⊥

  unfoldable pub MentionsOptPredicate : OptPredicate Value → Type 0
  unfolding MentionsPredicate
  MentionsOptPredicate no_pred = ⊥
  MentionsOptPredicate (some_pred p) = MentionsPredicate p

  unfoldable pub MentionsProjection : Projection Value → Type 0
  unfolding Mentions
  MentionsProjection (Projection.column t c _) = record { table = t; column = c } ≡ r
  MentionsProjection (expr e _) = Mentions e
  MentionsProjection (star_of _) = ⊥

  unfoldable pub MentionsSelect : Projections Value → Type 0
  unfolding MentionsProjection
  MentionsSelect select_nil = ⊥
  MentionsSelect (select_cons p ps) = MentionsProjection p ⊎ MentionsSelect ps

  unfoldable pub MentionsJoin : JoinClauses Value → Type 0
  unfolding MentionsPredicate
  MentionsJoin joins_nil = ⊥
  MentionsJoin (joins_cons join_type _ on joins) =
      ((is_cross join_type ≡ false) × MentionsPredicate on) ⊎ MentionsJoin joins

  unfoldable pub MentionsOptJoin : OptJoinClauses Value → Type 0
  unfolding MentionsJoin
  MentionsOptJoin no_joins = ⊥
  MentionsOptJoin (some_joins joins) = MentionsJoin joins

  -- The select list, `WHERE`, `GROUP BY`, `HAVING`, `ORDER BY` or a join condition of the query names the
  -- column.
  unfoldable pub MentionsColumn : QueryPlan Value → Type 0
  unfolding MentionsSelect MentionsOptPredicate MentionsOptJoin
  MentionsColumn (query_plan select _ _ _ filter group_by having order_by _ _ joins _ _) =
      ((((MentionsSelect select ⊎ MentionsOptPredicate filter) ⊎ MentionsOptAny group_by)
          ⊎ MentionsOptPredicate having)
        ⊎ MentionsOptTerm order_by)
      ⊎ MentionsOptJoin joins

module _ {Value : Type 0} (t : Option Text) where
  unfoldable pub SelectsStarOf : Projections Value → Type 0
  SelectsStarOf select_nil = ⊥
  SelectsStarOf (select_cons (Projection.column _ _ _) ps) = SelectsStarOf ps
  SelectsStarOf (select_cons (expr _ _) ps) = SelectsStarOf ps
  SelectsStarOf (select_cons (star_of t') ps) = (t' ≡ t) ⊎ SelectsStarOf ps

  -- The select list has the star `*`, or the star of the qualifier.
  unfoldable pub SelectsStar : QueryPlan Value → Type 0
  unfolding SelectsStarOf
  SelectsStar (query_plan select _ _ _ _ _ _ _ _ _ _ _ _) = SelectsStarOf select
