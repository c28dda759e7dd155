-- ===== src/Optimizer/Conjuncts.antt =====
-- The conjuncts of a predicate: `split_conjuncts` and `combine_conjuncts` of
-- crates/vlorql-core/src/optimizer/analyze.rs.
pub mod Laws
use vlor_ql.Common.{Option, none, some, List, [], ◌∷◌, ◌++◌}
use vlor_ql.Schema.Plan.{Predicate, and_pred}

module _ {Value : Type 0} where
  unfoldable pub collect_conjuncts :
      Predicate Value → List (Predicate Value) → List (Predicate Value)
  collect_conjuncts (and_pred left right) out = collect_conjuncts right (collect_conjuncts left out)
  collect_conjuncts other out = out ++ other ∷ []

  unfoldable pub split_conjuncts : Predicate Value → List (Predicate Value)
  split_conjuncts p = collect_conjuncts p []

  -- `fold(first, |acc, next| And { acc, next })`
  unfoldable pub fold_and : Predicate Value → List (Predicate Value) → Predicate Value
  fold_and acc [] = acc
  fold_and acc (next ∷ rest) = fold_and (and_pred acc next) rest

  unfoldable pub combine_conjuncts : List (Predicate Value) → Option (Predicate Value)
  combine_conjuncts [] = none
  combine_conjuncts (first ∷ rest) = some (fold_and first rest)
