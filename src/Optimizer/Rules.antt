-- ===== src/Optimizer/Rules.antt =====
-- The pipeline of rewrite rules: crates/vlorql-core/src/optimizer/rules.rs, and the optimizer that runs one
-- (`optimize` and `optimize_repeat` of mod.rs beside it).
pub mod Stable
use vlor_ql.Common.{ℕ, zero, suc, Bool, List, [], ◌∷◌, ◌++◌, if◌then◌else◌}
use vlor_ql.Errors.{VlorQlError}
use vlor_ql.Schema.Plan.{QueryPlan}

-- `Result<QueryPlan, VlorQLError>`
pub data Rewritten (Value : Type 0) : Type 0 where
  rewritten : QueryPlan Value → Rewritten Value
  refused : VlorQlError → Rewritten Value

-- A `PlanRewriter`, by its one method.
abbrev pub PlanRewriter : Type 0 → Type 0
PlanRewriter Value = QueryPlan Value → Rewritten Value

pub record RewriterPipeline (Value : Type 0) : Type 0 where
  pub rules : List (PlanRewriter Value)

module _ {Value : Type 0} where
  unfoldable pub empty_pipeline : RewriterPipeline Value
  empty_pipeline = record { rules = [] }

  unfoldable pub push : RewriterPipeline Value → PlanRewriter Value → RewriterPipeline Value
  push pipeline rule = record { rules = pipeline.rules ++ rule ∷ [] }

  -- `?` on a result
  abbrev pub and_then : Rewritten Value → PlanRewriter Value → Rewritten Value
  and_then (rewritten next) f = f next
  and_then (refused e) f = refused e

  -- The loop of `rewrite`.
  unfoldable pub rewrite_with : List (PlanRewriter Value) → PlanRewriter Value
  rewrite_with [] plan = rewritten plan
  rewrite_with (rule ∷ rules) plan = and_then (rule plan) (rewrite_with rules)

  unfoldable pub rewrite : RewriterPipeline Value → PlanRewriter Value
  rewrite pipeline plan = rewrite_with pipeline.rules plan

  -- The derived `==` of plans is a parameter.
  unfoldable pub repeat_until_stable :
      (QueryPlan Value → QueryPlan Value → Bool)
      → RewriterPipeline Value
      → QueryPlan Value
      → ℕ
      → Rewritten Value
  repeat_until_stable same pipeline current zero = rewritten current
  repeat_until_stable same pipeline current (suc max_rounds) =
      and_then (rewrite pipeline current) (λ next.
        let rest = repeat_until_stable same pipeline next max_rounds in
        if same next current then rewritten next else rest)
