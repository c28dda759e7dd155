-- ===== src/Optimizer/Targets/Hidden.antt =====
-- What `single_cte_target` does not see (crates/vlorql-core/src/optimizer/pushdown.rs).
use vlor_ql.Common.{◌≡◌, refl, List}
use vlor_ql.Common.Text.{Text}
use vlor_ql.Optimizer.Columns.{
  referenced_tables, columns_in_predicate, visit_predicate, visit_expression,
}
use vlor_ql.Optimizer.Targets.{AliasToCte, single_cte_target}
use vlor_ql.Schema.Plan.{Expression, comparison, binary_op, literal}
use vlor_ql.Schema.Types.{BinaryOperator, ComparisonOperator, DataType}

-- Where a comparison has an arithmetic or logical operation on its right, the CTE that is chosen for it is
-- the one chosen with a literal in place of the operation: the columns in the operation, of whatever
-- tables, are not looked at.
pub single_cte_target_ignores_operation :
    {Value : Type 0} (e left right : Expression Value) (op : ComparisonOperator)
    (o : BinaryOperator) (v : Value) (type : DataType) (alias_to_cte : AliasToCte)
    (protected : List Text)
    → single_cte_target (comparison e op (binary_op left o right)) alias_to_cte protected
      ≡ single_cte_target (comparison e op (literal v type)) alias_to_cte protected
unfolding single_cte_target referenced_tables columns_in_predicate visit_predicate visit_expression
single_cte_target_ignores_operation e left right op o v type alias_to_cte protected = refl
