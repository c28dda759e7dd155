-- ===== src/Tests/OptimizerRuns.antt =====
-- The optimizer at the sample inputs.
use vlor_ql.Common.{ℕ, Bool, true, false, ◌&&◌, Option, none, some, [], ◌∷◌, ◌≡◌, refl, sym, ◌∙◌}
use vlor_ql.Common.Lists.{any}
use vlor_ql.Common.Text.{Text, ◌==◌}
use vlor_ql.Optimizer.Columns.{
  same_table, insert_column, insert_table, visit_expression, visit_predicate, columns_in_predicate,
  referenced_tables,
}
use vlor_ql.Optimizer.Conjuncts.{collect_conjuncts, split_conjuncts, fold_and, combine_conjuncts}
use vlor_ql.Optimizer.Conjuncts.Laws
use vlor_ql.Optimizer.Rules.{
  rewritten, PlanRewriter, push, empty_pipeline, rewrite_with, rewrite, repeat_until_stable,
}
use vlor_ql.Optimizer.Rules.Stable
use vlor_ql.Optimizer.Targets.{
  cte_of, holds_name, single_cte_target, relation_key, protect_join, protect_joins,
  outer_join_protected_aliases,
}
use vlor_ql.Optimizer.Targets.Hidden
use vlor_ql.Optimizer.Targets.Named.{Names}
use vlor_ql.Optimizer.Targets.Protected
use vlor_ql.Optimizer.Targets.Protected.{IsNullSupplied}
use vlor_ql.Schema.Types.{DataType, ComparisonOperator, BinaryOperator, JoinType}
use vlor_ql.Tests.Samples.{column_of, equals, users, accounts, id}
use vlor_ql.Schema.Plan.{
  Predicate, FromClause, JoinClauses, QueryPlan, literal, binary_op, comparison, and_pred,
  true_pred, false_pred, no_pred, joins_nil, joins_cons, query_plan,
}

optimizer : Unit {0}
unfolding any ◌==◌ same_table insert_column insert_table visit_expression visit_predicate
    columns_in_predicate referenced_tables cte_of holds_name single_cte_target relation_key
    protect_join protect_joins outer_join_protected_aliases collect_conjuncts split_conjuncts
    fold_and combine_conjuncts push empty_pipeline rewrite_with rewrite repeat_until_stable
optimizer = tt

-- A reading in which only FALSE fails.
reads : Predicate ℕ → Bool
reads (and_pred l r) = reads l && reads r
reads false_pred = false
reads _ = true

abbrev three : Predicate ℕ
three =
    and_pred (equals (column_of users.name id) 7)
      (and_pred false_pred (equals (column_of users.name id) 8))

combine_conjuncts-split_conjuncts_example :
    (q : Predicate ℕ) × (combine_conjuncts (split_conjuncts three) ≡ some q)
    × (split_conjuncts q ≡ split_conjuncts three)
    × (reads q ≡ reads three)
unfolding reads
combine_conjuncts-split_conjuncts_example =
    Laws.combine_conjuncts-split_conjuncts reads (λ l r. refl) three

-- A rule that drops the WHERE of a plan.
drop_where : PlanRewriter ℕ
drop_where (query_plan s d on from _ group having order l o joins ctes sets) =
    rewritten (query_plan s d on from no_pred group having order l o joins ctes sets)

abbrev limit_of : QueryPlan ℕ → Option ℕ
limit_of (query_plan _ _ _ _ _ _ _ _ l _ _ _ _) = l

drop_where-limit : Stable.Preserves (λ p. limit_of p ≡ none) drop_where
unfolding drop_where
drop_where-limit (query_plan s d on from w group having order l o joins ctes sets)
      (query_plan s' d' on' from' w' group' having' order' l' o' joins' ctes' sets') h e =
    let same : l ≡ l' = cc in sym same ∙ h

-- `users.id = accounts.id + 1`
abbrev across : Predicate ℕ
across =
    comparison (column_of users.name id) ComparisonOperator.eq
      (binary_op (column_of accounts.name id) BinaryOperator.add (literal 1 DataType.int))

-- It is taken for a conjunct about `users` alone.
across_target : single_cte_target across ((users.name, users.name) ∷ []) [] ≡ some users.name
unfolding optimizer
across_target = refl

single_cte_target_ignores_operation_example :
    single_cte_target across ((users.name, users.name) ∷ []) []
    ≡ single_cte_target (equals (column_of users.name id) 7) ((users.name, users.name) ∷ []) []
single_cte_target_ignores_operation_example =
    Hidden.single_cte_target_ignores_operation (column_of users.name id)
      (column_of accounts.name id) (literal 1 DataType.int) ComparisonOperator.eq BinaryOperator.add
      7 DataType.int ((users.name, users.name) ∷ []) []

-- `FROM users LEFT JOIN accounts`
abbrev left_join : JoinClauses ℕ
left_join = joins_cons JoinType.left (FromClause.table accounts.name none) true_pred joins_nil

single_cte_target-safe_example :
    (alias : Text) × ((t : Option Text)
      → Names t (equals (column_of users.name id) 7)
      → t ≡ some alias)
    × (cte_of ((users.name, users.name) ∷ []) alias ≡ some users.name)
    × (¬ IsNullSupplied users.name alias [] left_join)
unfolding optimizer
single_cte_target-safe_example =
    Protected.single_cte_target-safe (equals (column_of users.name id) 7)
      ((users.name, users.name) ∷ []) (FromClause.table users.name none) left_join users.name refl
