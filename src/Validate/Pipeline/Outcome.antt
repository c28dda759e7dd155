-- ===== src/Validate/Pipeline/Outcome.antt =====
-- What the result of the validation pipeline guarantees (crates/vlorql-core/src/validate/pipeline.rs).
use vlor_ql.Common.{Bool, true, ◌&&◌, some, ◌≡◌, sym, some-injective, ap, ◌∙◌}
use vlor_ql.Policy.Config.{RowFilter}
use vlor_ql.Policy.Filters.{where_of, inject_row_filters}
use vlor_ql.Policy.Filters.Enforced.{Applies, holds_where, inject_row_filters-enforced}
use vlor_ql.Query.Scope.{from_plan}
use vlor_ql.Schema.Plan.{Predicate, QueryPlan, and_pred}
use vlor_ql.Validate.Pipeline.{ValidationPipeline, valid, validate}
use vlor_ql.Validate.Pipeline.Accepted.{validate-Passes}

module _ {Value : Type 0} (pipeline : ValidationPipeline Value) where
  -- Whatever reading of predicates the database has, if `AND` means conjunction, and the pipeline accepts a
  -- plan and returns `q`, and `p` is the repaired plan, then a row that passes the `WHERE` of `q` satisfies
  -- the `WHERE` of `p` and every policy filter that applies to the outermost sources of `p`.
  pub validate-enforces :
      (holds : Predicate Value → Bool)
      (conjunction : (l r : Predicate Value) → holds (and_pred l r) ≡ (holds l && holds r))
      (plan p q : QueryPlan Value) (f : RowFilter Value)
      → validate pipeline plan ≡ some (valid q)
      → pipeline.stages.schema_aware_fix plan ≡ some p
      → holds_where holds conjunction (where_of q) ≡ true
      → Applies pipeline.policy (from_plan p).sources f
      → (holds_where holds conjunction (where_of p) ≡ true) × (holds f.condition ≡ true)
  validate-enforces holds conjunction plan p q f accepts fixed passes applies =
      let (p', fixed', checked) = (validate-Passes pipeline plan q).0 accepts in
      let same : p' ≡ p = some-injective (sym fixed' ∙ fixed) in
      let filtered = ap (inject_row_filters pipeline.policy) (sym same) ∙ checked.filtered in
      inject_row_filters-enforced holds conjunction pipeline.policy p f
        (ap (λ x. holds_where holds conjunction (where_of x)) filtered ∙ passes) applies
