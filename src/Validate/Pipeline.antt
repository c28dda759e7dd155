-- ===== src/Validate/Pipeline.antt =====
-- The validation pipeline: `ValidationPipeline::validate` in crates/vlorql-core/src/validate/pipeline.rs.
-- The policy stage is the engine of `Policy`; the repair of plans and the other stages are an interface.
pub mod Accepted
pub mod Outcome
use vlor_ql.Common.{
  Bool, true, false, not, Option, none, some, List, [], ◌∷◌, ◌++◌, if◌then◌else◌, is_empty, ◌>>=◌,
}
use vlor_ql.Common.Lists.{any, keep}
use vlor_ql.Errors.{VlorQlError, is_retryable}
use vlor_ql.Policy.Config.{PolicyConfig}
use vlor_ql.Policy.Engine.Nested.{Verdict, accepted, rejected}
use vlor_ql.Policy.Engine.Nested
use vlor_ql.Policy.Filters.{inject_row_filters}
use vlor_ql.Schema.Plan.{QueryPlan}
use vlor_ql.Schema.Snapshot.{SchemaSnapshot}

-- A stage: `Result<(), Vec<VlorQLError>>`
abbrev pub Stage : Type 0 → Type 0
Stage Value = QueryPlan Value → Verdict

-- `fix::schema_aware_fix`, the stages beside the policy engine, and the derived `==` of errors. The repair
-- of plans can panic, which is `none`: `scope_tables` in crates/vlorql-core/src/fix/joins.rs expects a table
-- under FROM and on the right of every join, also in CTEs.
pub record Stages (Value : Type 0) : Type 0 where
  pub schema_aware_fix : QueryPlan Value → Option (QueryPlan Value)
  pub validate_schema : Stage Value
  pub validate_operands : Stage Value
  pub validate_dialect : Stage Value
  pub audit_stage : Option (Stage Value)
  pub same_error : VlorQlError → VlorQlError → Bool

pub record ValidationPipeline (Value : Type 0) : Type 0 where
  pub stages : Stages Value
  pub policy : PolicyConfig Value
  pub snapshot : SchemaSnapshot

-- `Result<ValidatedPlan, ValidationErrors>`
pub data Validated (Value : Type 0) : Type 0 where
  valid : QueryPlan Value → Validated Value
  invalid : List VlorQlError → Validated Value

unfoldable pub extend_unique :
    (VlorQlError → VlorQlError → Bool) → List VlorQlError → List VlorQlError → List VlorQlError
extend_unique same errors [] = errors
extend_unique same errors (e ∷ es) =
    extend_unique same (if any (same e) errors then errors else errors ++ e ∷ []) es

-- What the errors of a stage add.
unfoldable pub absorb :
    (VlorQlError → VlorQlError → Bool) → List VlorQlError → Verdict → List VlorQlError
absorb same errors accepted = errors
absorb same errors (rejected es) = extend_unique same errors es

module _ {Value : Type 0} (pipeline : ValidationPipeline Value) where
  -- The four stages, in their order.
  unfoldable pub stage_errors : QueryPlan Value → List VlorQlError
  stage_errors plan =
      let stages = pipeline.stages in
      let same = stages.same_error in
      absorb same
        (absorb same
          (absorb same (absorb same [] (stages.validate_schema plan))
            (Nested.validate pipeline.policy plan pipeline.snapshot))
          (stages.validate_operands plan))
        (stages.validate_dialect plan)

  abbrev pub revalidated : Verdict → QueryPlan Value → Validated Value
  revalidated accepted plan = valid plan
  revalidated (rejected es) plan = invalid es

  -- From `if !errors.is_empty()` on.
  unfoldable pub conclude : List VlorQlError → QueryPlan Value → Validated Value
  conclude (e ∷ es) plan = invalid (e ∷ es)
  conclude [] plan =
      let filtered = inject_row_filters pipeline.policy plan in
      revalidated (pipeline.stages.validate_schema filtered) filtered

  abbrev pub is_critical : VlorQlError → Bool
  is_critical e = not (is_retryable e)

  -- The errors of the audit: those that cannot be retried end the validation.
  unfoldable pub judge : Verdict → List VlorQlError → QueryPlan Value → Validated Value
  judge accepted errors plan = conclude errors plan
  judge (rejected es) errors plan =
      if is_empty (keep is_critical es)
      then conclude (extend_unique pipeline.stages.same_error errors (keep is_retryable es)) plan
      else invalid (keep is_critical es)

  abbrev pub audited : Option (Stage Value) → List VlorQlError → QueryPlan Value → Validated Value
  audited none errors plan = conclude errors plan
  audited (some audit) errors plan = judge (audit plan) errors plan

  -- What follows the repair.
  unfoldable pub validate_fixed : QueryPlan Value → Validated Value
  validate_fixed plan = audited pipeline.stages.audit_stage (stage_errors plan) plan

  -- `none` is a panic of the repair.
  unfoldable pub validate : QueryPlan Value → Option (Validated Value)
  validate plan = pipeline.stages.schema_aware_fix plan >>= λ fixed. some (validate_fixed fixed)
