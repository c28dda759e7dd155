-- ===== src/Optimizer/Rules/Stable.antt =====
-- What a pipeline keeps (crates/vlorql-core/src/optimizer/rules.rs).
use vlor_ql.Common.{ℕ, zero, suc, Bool, List, [], ◌∷◌, ◌≡◌, refl, inl, inr, All, Bool-cases}
use mathlib.Core.Path.{subst}
use vlor_ql.Optimizer.Rules.{
  Rewritten, rewritten, refused, PlanRewriter, RewriterPipeline, and_then, rewrite_with, rewrite,
  repeat_until_stable,
}
use vlor_ql.Schema.Plan.{QueryPlan}

module _ {Value : Type 0} where
  -- A step after which `?` went on.
  and_then-rewritten :
      (r : Rewritten Value) (f : PlanRewriter Value) (q : QueryPlan Value)
      → and_then r f ≡ rewritten q
      → (next : QueryPlan Value) × (r ≡ rewritten next) × (f next ≡ rewritten q)
  and_then-rewritten (rewritten next) f q e = (next, refl, e)
  and_then-rewritten (refused error) f q e = cc

  -- The rule keeps the property, where it does not fail.
  abbrev pub Preserves : (QueryPlan Value → Type 0) → PlanRewriter Value → Type 0
  Preserves P rule = (p q : QueryPlan Value) → P p → rule p ≡ rewritten q → P q

  rewrite_with-Preserves :
      (P : QueryPlan Value → Type 0) (rules : List (PlanRewriter Value))
      → All (Preserves P) rules
      → Preserves P (rewrite_with rules)
  unfolding rewrite_with
  rewrite_with-Preserves P [] h p q k e = let same : p ≡ q = cc in subst P same k
  rewrite_with-Preserves P (rule ∷ rules) h p q k e =
      let (next, first, rest) = and_then-rewritten (rule p) (rewrite_with rules) q e in
      rewrite_with-Preserves P rules h.1 next q (h.0 p next k first) rest

  -- What every rule of a pipeline keeps is kept by its repetition, however many rounds there are.
  repeat_until_stable-Preserves :
      (P : QueryPlan Value → Type 0) (same : QueryPlan Value → QueryPlan Value → Bool)
      (pipeline : RewriterPipeline Value) (max_rounds : ℕ) (p q : QueryPlan Value)
      → All (Preserves P) pipeline.rules
      → P p
      → repeat_until_stable same pipeline p max_rounds ≡ rewritten q
      → P q
  unfolding repeat_until_stable rewrite
  repeat_until_stable-Preserves P same pipeline zero p q h k e =
      let same : p ≡ q = cc in subst P same k
  repeat_until_stable-Preserves P same pipeline (suc n) p q h k e =
      let (next, first, rest) = and_then-rewritten (rewrite_with pipeline.rules p) _ q e in
      let kept = rewrite_with-Preserves P pipeline.rules h p next k first in
      elim (Bool-cases (same next p)) [
        | inl t ↦
            let done : rewritten next ≡ rewritten q = rw t at rest in
            let result : next ≡ q = cc in subst P result kept
        | inr f ↦ repeat_until_stable-Preserves P same pipeline n next q h kept (rw f at rest)
      ]
