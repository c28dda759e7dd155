-- ===== src/Validate/Repairing.antt =====
-- Validation on the execution path and with an optimizer: `validate_repairing` and
-- `validate_and_optimize` of crates/vlorql-core/src/validate/pipeline.rs, and `drop_hallucinated_joins` of
-- crates/vlorql-core/src/fix/joins.rs.
pub mod Joins
use vlor_ql.Common.{
  Bool, true, false, not, Option, none, some, List, [], ◌∷◌, if◌then◌else◌, is_empty, ◌>>=◌,
}
use vlor_ql.Common.Lists.{keep}
use vlor_ql.Common.Text.{Text}
use vlor_ql.Errors.{VlorQlError, is_retryable}
use vlor_ql.Policy.Engine.Nested.{Verdict, accepted, rejected}
use vlor_ql.Policy.Engine.Nested
use vlor_ql.Schema.Plan.{
  FromClause, JoinClauses, OptJoinClauses, QueryPlan, joins_nil, joins_cons, no_joins, some_joins,
  query_plan,
}
use vlor_ql.Schema.Snapshot.{SchemaSnapshot, get_table}
use vlor_ql.Validate.Pipeline.{Stage, ValidationPipeline, Validated, valid, invalid}
use vlor_ql.Validate.Pipeline

-- What the optimizer answers.
pub data Optimized (Value : Type 0) : Type 0 where
  optimized : QueryPlan Value → Optimized Value
  optimize_failed : VlorQlError → Optimized Value

abbrev critical : VlorQlError → Bool
critical e = not (is_retryable e)

module _ {Value : Type 0} where
  -- `FromClause::table_name`
  unfoldable pub table_name : FromClause Value → Option Text
  table_name (FromClause.table name alias) = some name
  table_name (FromClause.subquery plan alias) = none

  -- `joins.retain(..)`. A join without a table name ends in a panic, which is `none`.
  unfoldable pub retain_known : SchemaSnapshot → JoinClauses Value → Option (JoinClauses Value)
  retain_known schema joins_nil = some joins_nil
  retain_known schema (joins_cons kind right on rest) = table_name right >>= λ name.
      retain_known schema rest >>= λ kept. elim (get_table schema name) [
        | some _ ↦ some (joins_cons kind right on kept)
        | none ↦ some kept
      ]

  unfoldable pub joins_or_none : JoinClauses Value → OptJoinClauses Value
  joins_or_none joins_nil = no_joins
  joins_or_none (joins_cons kind right on rest) = some_joins (joins_cons kind right on rest)

  unfoldable pub drop_hallucinated_joins :
      SchemaSnapshot → QueryPlan Value → Option (QueryPlan Value)
  drop_hallucinated_joins schema
        (query_plan select d on from filter group having order l o no_joins ctes sets) =
      some (query_plan select d on from filter group having order l o no_joins ctes sets)
  drop_hallucinated_joins schema
        (query_plan select d on from filter group having order l o (some_joins joins) ctes sets) =
      retain_known schema joins >>= λ kept.
      some
        (query_plan select d on from filter group having order l o (joins_or_none kept) ctes sets)

  -- The audit of the repaired plan: what cannot be retried comes first, then the rest.
  unfoldable pub audit_errors : Option (Stage Value) → QueryPlan Value → List VlorQlError
  audit_errors none plan = []
  audit_errors (some audit) plan = elim (audit plan) [
    | accepted ↦ []
    | rejected es ↦ if is_empty (keep critical es) then keep is_retryable es else keep critical es
  ]

  unfoldable pub unless_errors :
      List VlorQlError → Option (Validated Value) → Option (Validated Value)
  unless_errors [] result = result
  unless_errors (e ∷ es) result = some (invalid (e ∷ es))

  -- `none` is a panic, of `drop_hallucinated_joins` or of the repair in `validate`.
  unfoldable pub validate_repairing :
      ValidationPipeline Value → QueryPlan Value → Option (Validated Value)
  validate_repairing pipeline plan = drop_hallucinated_joins pipeline.snapshot plan >>= λ repaired.
      unless_errors (audit_errors pipeline.stages.audit_stage repaired)
        (Pipeline.validate pipeline repaired)

  -- The check of the policy on an optimized plan.
  unfoldable pub recheck : ValidationPipeline Value → Optimized Value → Validated Value
  recheck pipeline (optimize_failed e) = invalid (e ∷ [])
  recheck pipeline (optimized plan) =
      elim (Nested.validate pipeline.policy plan pipeline.snapshot) [
        | accepted ↦ valid plan
        | rejected es ↦ invalid es
      ]

  unfoldable pub validate_and_optimize :
      ValidationPipeline Value
      → Option (QueryPlan Value → Optimized Value)
      → QueryPlan Value
      → Option (Validated Value)
  validate_and_optimize pipeline optimizer plan = Pipeline.validate pipeline plan >>= λ v. elim v [
    | invalid es ↦ some (invalid es)
    | valid q ↦ elim optimizer [
      | none ↦ some (valid q)
      | some optimize ↦ some (recheck pipeline (optimize q))
    ]
  ]
