-- ===== src/Validate/Pipeline/Accepted.antt =====
-- What an accepted plan has passed (crates/vlorql-core/src/validate/pipeline.rs).
use vlor_ql.Common.{
  Bool, true, not, Option, none, some, List, [], ◌∷◌, ◌++◌, ◌≡◌, ◌↔◌, refl, sym, ap, ◌∙◌, inl, inr,
  Bool-cases, if◌then◌else◌, is_empty, Option-cases, some-injective,
}
use mathlib.Core.Path.{subst}
use vlor_ql.Common.Lists.{any, keep}
use vlor_ql.Errors.{VlorQlError, is_retryable}
use vlor_ql.Policy.Config.{PolicyConfig}
use vlor_ql.Policy.Engine.Nested
use vlor_ql.Policy.Engine.Nested.{Verdict, accepted, rejected, verdict_of, validate_plan_inner}
use vlor_ql.Policy.Filters.{inject_row_filters}
use vlor_ql.Policy.Permitted.{PlanPermitted}
use vlor_ql.Policy.Permitted.Plan.{validate_iff}
use vlor_ql.Schema.Snapshot.{SchemaSnapshot}
use vlor_ql.Schema.Plan.{QueryPlan}
use vlor_ql.Validate.Pipeline.{
  Stage, ValidationPipeline, valid, invalid, extend_unique, absorb, stage_errors, revalidated,
  conclude, judge, audited, validate_fixed, validate,
}

abbrev errors_of : Verdict → List VlorQlError
errors_of accepted = []
errors_of (rejected es) = es

-- The stage reports no error.
abbrev pub IsClean : Verdict → Type 0
IsClean v = errors_of v ≡ []

append_one : (es : List VlorQlError) (e : VlorQlError) → es ++ e ∷ [] ≡ [] → ⊥
append_one [] e h = cc
append_one (x ∷ es) e h = cc

added_nonempty :
    (same : VlorQlError → VlorQlError → Bool) (errors : List VlorQlError) (e : VlorQlError)
    → (if any (same e) errors then errors else errors ++ e ∷ []) ≡ []
    → ⊥
unfolding any
added_nonempty same [] e h = cc
added_nonempty same (x ∷ errors) e h = elim (Bool-cases (any (same e) (x ∷ errors))) [
  | inl t ↦ let bad : x ∷ errors ≡ [] = rw t at h in absurd cc
  | inr f ↦ append_one (x ∷ errors) e (rw f at h)
]

extend_unique-empty :
    (same : VlorQlError → VlorQlError → Bool) (errors es : List VlorQlError)
    → extend_unique same errors es ≡ []
    → (errors ≡ []) × (es ≡ [])
unfolding extend_unique
extend_unique-empty same errors [] h = (h, refl)
extend_unique-empty same errors (e ∷ es) h =
    let start = if any (same e) errors then errors else errors ++ e ∷ [] in
    absurd (added_nonempty same errors e (extend_unique-empty same start es h).0)

absorb-empty :
    (same : VlorQlError → VlorQlError → Bool) (errors : List VlorQlError) (v : Verdict)
    → absorb same errors v ≡ []
    → (errors ≡ []) × IsClean v
unfolding absorb
absorb-empty same errors accepted h = (h, refl)
absorb-empty same errors (rejected es) h = extend_unique-empty same errors es h

-- What neither passes a test nor fails it is not there.
keep-neither :
    (p : VlorQlError → Bool) (es : List VlorQlError)
    → keep p es ≡ []
    → keep (λ e. not (p e)) es ≡ []
    → es ≡ []
unfolding keep
keep-neither p [] h k = refl
keep-neither p (e ∷ es) h k = elim (Bool-cases (p e)) [
  | inl t ↦ let bad : e ∷ keep p es ≡ [] = rw t at h in absurd cc
  | inr f ↦ let bad : e ∷ keep (λ e. not (p e)) es ≡ [] = rw f at k in absurd cc
]

is_empty-nil : (es : List VlorQlError) → is_empty es ≡ true → es ≡ []
is_empty-nil [] h = refl
is_empty-nil (e ∷ es) h = cc

absorb-clean :
    (same : VlorQlError → VlorQlError → Bool) (errors : List VlorQlError) (v : Verdict)
    → IsClean v
    → absorb same errors v ≡ errors
unfolding absorb extend_unique
absorb-clean same errors accepted h = refl
absorb-clean same errors (rejected []) h = refl
absorb-clean same errors (rejected (e ∷ es)) h = cc

verdict_of-clean : (es : List VlorQlError) → IsClean (verdict_of es) → verdict_of es ≡ accepted
verdict_of-clean [] h = refl
verdict_of-clean (e ∷ es) h = cc

policy-accepted :
    {Value : Type 0} (config : PolicyConfig Value) (snapshot : SchemaSnapshot)
    (plan : QueryPlan Value)
    → IsClean (Nested.validate config plan snapshot)
    → Nested.validate config plan snapshot ≡ accepted
unfolding Nested.validate
policy-accepted config snapshot plan h = verdict_of-clean _ h

-- Where there is an audit, it reports no error.
abbrev pub AuditClean : {Value : Type 0} → Option (Stage Value) → QueryPlan Value → Type 0
AuditClean none plan = Unit
AuditClean (some audit) plan = IsClean (audit plan)

module _ {Value : Type 0} (pipeline : ValidationPipeline Value) where
  stage_errors-empty :
      (plan : QueryPlan Value)
      → stage_errors pipeline plan ≡ []
      → IsClean (pipeline.stages.validate_schema plan)
        × IsClean (Nested.validate pipeline.policy plan pipeline.snapshot)
        × IsClean (pipeline.stages.validate_operands plan)
        × IsClean (pipeline.stages.validate_dialect plan)
  unfolding stage_errors
  stage_errors-empty plan h =
      let same = pipeline.stages.same_error in
      let (h3, dialect) = absorb-empty same _ (pipeline.stages.validate_dialect plan) h in
      let (h2, operands) = absorb-empty same _ (pipeline.stages.validate_operands plan) h3 in
      let (h1, policy) =
        absorb-empty same _ (Nested.validate pipeline.policy plan pipeline.snapshot) h2 in
      let (h0, schema) = absorb-empty same [] (pipeline.stages.validate_schema plan) h1 in
      (schema, policy, operands, dialect)

  revalidated-valid :
      (v : Verdict) (plan q : QueryPlan Value)
      → revalidated pipeline v plan ≡ valid q
      → (v ≡ accepted) × (plan ≡ q)
  revalidated-valid accepted plan q h = (refl, cc)
  revalidated-valid (rejected es) plan q h = cc

  conclude-valid :
      (errors : List VlorQlError) (plan q : QueryPlan Value)
      → conclude pipeline errors plan ≡ valid q
      → (errors ≡ [])
        × (inject_row_filters pipeline.policy plan ≡ q)
        × (pipeline.stages.validate_schema q ≡ accepted)
  unfolding conclude
  conclude-valid (e ∷ es) plan q h = cc
  conclude-valid [] plan q h =
      let (schema, same) = revalidated-valid _ (inject_row_filters pipeline.policy plan) q h in
      (refl, same, subst (λ x. pipeline.stages.validate_schema x ≡ accepted) same schema)

  conclude-clean :
      (p q : QueryPlan Value)
      → inject_row_filters pipeline.policy p ≡ q
      → pipeline.stages.validate_schema q ≡ accepted
      → conclude pipeline [] p ≡ valid q
  unfolding conclude
  conclude-clean p q filtered again = rw filtered (ap (λ v. revalidated pipeline v q) again)

  judge-valid :
      (v : Verdict) (errors : List VlorQlError) (plan q : QueryPlan Value)
      → judge pipeline v errors plan ≡ valid q
      → IsClean v × (conclude pipeline errors plan ≡ valid q)
  unfolding judge
  judge-valid accepted errors plan q h = (refl, h)
  judge-valid (rejected es) errors plan q h =
      elim (Bool-cases (is_empty (keep (λ e. not (is_retryable e)) es))) [
        | inl t ↦
            let more = extend_unique pipeline.stages.same_error errors (keep is_retryable es) in
            let h' : conclude pipeline more plan ≡ valid q = rw t at h in
            let (none_left, _, _) = conclude-valid more plan q h' in
            let (no_errors, no_others) =
              extend_unique-empty pipeline.stages.same_error errors (keep is_retryable es)
                none_left in
            (
              keep-neither is_retryable es no_others (is_empty-nil _ t),
              ap (λ x. conclude pipeline x plan) (no_errors ∙ sym none_left) ∙ h',
            )
        | inr f ↦
            let bad : invalid (keep (λ e. not (is_retryable e)) es) ≡ valid q = rw f at h in
            absurd cc
      ]

  audited-valid :
      (audit : Option (Stage Value)) (errors : List VlorQlError) (plan q : QueryPlan Value)
      → audited pipeline audit errors plan ≡ valid q
      → AuditClean audit plan × (conclude pipeline errors plan ≡ valid q)
  audited-valid none errors plan q h = (tt, h)
  audited-valid (some audit) errors plan q h = judge-valid (audit plan) errors plan q h

  judge-clean :
      (v : Verdict) (errors : List VlorQlError) (plan : QueryPlan Value)
      → IsClean v
      → judge pipeline v errors plan ≡ conclude pipeline errors plan
  unfolding judge keep extend_unique
  judge-clean accepted errors plan h = refl
  judge-clean (rejected []) errors plan h = refl
  judge-clean (rejected (e ∷ es)) errors plan h = cc

  audited-clean :
      (audit : Option (Stage Value)) (errors : List VlorQlError) (plan : QueryPlan Value)
      → AuditClean audit plan
      → audited pipeline audit errors plan ≡ conclude pipeline errors plan
  audited-clean none errors plan h = refl
  audited-clean (some audit) errors plan h = judge-clean (audit plan) errors plan h

  stage_errors-clean :
      (plan : QueryPlan Value)
      → IsClean (pipeline.stages.validate_schema plan)
      → Nested.validate pipeline.policy plan pipeline.snapshot ≡ accepted
      → IsClean (pipeline.stages.validate_operands plan)
      → IsClean (pipeline.stages.validate_dialect plan)
      → stage_errors pipeline plan ≡ []
  unfolding stage_errors
  stage_errors-clean plan schema policy operands dialect =
      let same = pipeline.stages.same_error in
      absorb-clean same _ _ dialect
      ∙ absorb-clean same _ _ operands
      ∙ absorb-clean same _ _ (ap errors_of policy)
      ∙ absorb-clean same _ _ schema

  -- The plan `p` passes every stage, and with its row filters it is `q`, which passes the schema stage.
  pub record Passes (p q : QueryPlan Value) : Type 0 where
    pub schema : IsClean (pipeline.stages.validate_schema p)
    pub policy : PlanPermitted pipeline.policy pipeline.snapshot p
    pub operands : IsClean (pipeline.stages.validate_operands p)
    pub dialect : IsClean (pipeline.stages.validate_dialect p)
    pub audit : AuditClean pipeline.stages.audit_stage p
    pub filtered : inject_row_filters pipeline.policy p ≡ q
    pub schema_again : pipeline.stages.validate_schema q ≡ accepted

  validate_fixed-Passes :
      (p q : QueryPlan Value) → (validate_fixed pipeline p ≡ valid q) ↔ Passes p q
  unfolding validate_fixed
  validate_fixed-Passes p q = (only_if, only_when)
    where
      only_if : validate_fixed pipeline p ≡ valid q → Passes p q
      only_if h =
          let (audit, rest) =
            audited-valid pipeline.stages.audit_stage (stage_errors pipeline p) p q h in
          let (empty, filtered, again) = conclude-valid (stage_errors pipeline p) p q rest in
          let (schema, policy, operands, dialect) = stage_errors-empty p empty in
          record {
            schema = schema;
            policy =
                (validate_iff pipeline.policy pipeline.snapshot p).0
                  (policy-accepted pipeline.policy pipeline.snapshot p policy);
            operands = operands;
            dialect = dialect;
            audit = audit;
            filtered = filtered;
            schema_again = again;
          }

      only_when : Passes p q → validate_fixed pipeline p ≡ valid q
      only_when x =
          audited-clean pipeline.stages.audit_stage (stage_errors pipeline p) p x.audit
          ∙ ap (λ es. conclude pipeline es p)
              (stage_errors-clean p x.schema
                ((validate_iff pipeline.policy pipeline.snapshot p).1 x.policy) x.operands
                x.dialect)
          ∙ conclude-clean p q x.filtered x.schema_again

  -- The pipeline accepts a plan, and returns `q`, exactly if the repair of the plan succeeds and the repaired
  -- plan passes the schema, operand, dialect and audit stages, is permitted by the policy, and with the row
  -- filters added is `q`, which passes the schema stage again.
  pub validate-Passes :
      (plan q : QueryPlan Value)
      → (validate pipeline plan ≡ some (valid q))
        ↔ ((p : QueryPlan Value) × (pipeline.stages.schema_aware_fix plan ≡ some p) × Passes p q)
  unfolding validate
  validate-Passes plan q = elim (Option-cases (pipeline.stages.schema_aware_fix plan)) [
    | inl e ↦ (
      λ h. let bad : none ≡ some (valid q) = rw (validate, e) at h in absurd cc,
      λ x. let bad : none ≡ some x.0 = sym e ∙ x.1 in absurd cc,
    )
    | inr (p, e) ↦ (
      λ h. (p, e, (validate_fixed-Passes p q).0 (some-injective (rw (validate, e) at h))),
      λ x. rw (validate, x.1) (ap some ((validate_fixed-Passes x.0 q).1 x.2)),
    )
  ]
