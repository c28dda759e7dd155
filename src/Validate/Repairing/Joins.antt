-- ===== src/Validate/Repairing/Joins.antt =====
-- Which joins `validate_repairing` of crates/vlorql-core/src/validate/pipeline.rs drops, and where
-- `drop_hallucinated_joins` of crates/vlorql-core/src/fix/joins.rs panics.
use vlor_ql.Common.{
  Bool, true, false, ◌||◌, Option, none, some, List, [], ◌∷◌, ◌≡◌, ◌⊎◌, refl, ◌↔◌, inl, inr, arith,
  Option-cases,
}
use vlor_ql.Common.Text.{Text}
use vlor_ql.Schema.Plan.{
  Predicate, FromClause, JoinClauses, OptJoinClauses, QueryPlan, joins_nil, joins_cons, no_joins,
  some_joins, query_plan,
}
use vlor_ql.Schema.Snapshot.{SchemaSnapshot, get_table}
use vlor_ql.Schema.Types.{JoinType}
use vlor_ql.Errors.{VlorQlError}
use vlor_ql.Validate.Pipeline.{ValidationPipeline, Validated, validate}
use vlor_ql.Validate.Repairing.{
  table_name, retain_known, drop_hallucinated_joins, audit_errors, unless_errors,
  validate_repairing,
}

module _ {Value : Type 0} where
  -- `plan.joins`
  abbrev pub joins_of : QueryPlan Value → OptJoinClauses Value
  joins_of (query_plan _ _ _ _ _ _ _ _ _ _ joins _ _) = joins

  abbrev pub with_joins : OptJoinClauses Value → QueryPlan Value → QueryPlan Value
  with_joins joins (query_plan select d on from filter group having order l o _ ctes sets) =
      query_plan select d on from filter group having order l o joins ctes sets

  abbrev pub joins_subquery : FromClause Value → Bool
  joins_subquery (FromClause.table _ _) = false
  joins_subquery (FromClause.subquery _ _) = true

  -- Some join has a subquery on its right.
  abbrev pub has_subquery_join : JoinClauses Value → Bool
  has_subquery_join joins_nil = false
  has_subquery_join (joins_cons kind right on rest) = joins_subquery right || has_subquery_join rest

  abbrev pub opt_has_subquery_join : OptJoinClauses Value → Bool
  opt_has_subquery_join no_joins = false
  opt_has_subquery_join (some_joins joins) = has_subquery_join joins

  retain_known-panics :
      (schema : SchemaSnapshot) (joins : JoinClauses Value)
      → (retain_known schema joins ≡ none) ↔ (has_subquery_join joins ≡ true)
  unfolding retain_known table_name
  retain_known-panics schema joins_nil = (λ h. cc, λ h. cc)
  retain_known-panics schema (joins_cons kind (FromClause.subquery plan alias) on rest) =
      (λ h. refl, λ h. refl)
  retain_known-panics schema (joins_cons kind (FromClause.table name alias) on rest) =
      let ih = retain_known-panics schema rest in
      elim (Option-cases (retain_known schema rest)) [
        | inl e ↦ (λ h. ih.0 e, λ h. rw e refl)
        | inr (kept, e) ↦ elim (Option-cases (get_table schema name)) [
          | inl t ↦ (λ h. ground arith, λ h. let never = ih.1 h in cc)
          | inr (t, u) ↦ (λ h. ground arith, λ h. let never = ih.1 h in cc)
        ]
      ]

  drop_hallucinated_joins-panics :
      (schema : SchemaSnapshot) (plan : QueryPlan Value)
      → (drop_hallucinated_joins schema plan ≡ none)
        ↔ (opt_has_subquery_join (joins_of plan) ≡ true)
  unfolding drop_hallucinated_joins
  drop_hallucinated_joins-panics schema
        (query_plan select d on from filter group having order l o no_joins ctes sets) =
      (λ h. cc, λ h. cc)
  drop_hallucinated_joins-panics schema
        (query_plan select d on from filter group having order l o (some_joins joins) ctes sets) =
      let panics = retain_known-panics schema joins in
      elim (Option-cases (retain_known schema joins)) [
        | inl e ↦ (λ h. panics.0 e, λ h. rw e refl)
        | inr (kept, e) ↦ (λ h. ground arith, λ h. let never = panics.1 h in cc)
      ]

  unless_errors-panics :
      (es : List VlorQlError) (v : Option (Validated Value))
      → (unless_errors es v ≡ none) ↔ ((es ≡ []) × (v ≡ none))
  unfolding unless_errors
  unless_errors-panics [] v = (λ h. (refl, h), λ h. h.1)
  unless_errors-panics (e ∷ es) v = (λ h. cc, λ h. cc)

  validate-panics :
      (pipeline : ValidationPipeline Value) (plan : QueryPlan Value)
      → (validate pipeline plan ≡ none) ↔ (pipeline.stages.schema_aware_fix plan ≡ none)
  unfolding validate
  validate-panics pipeline plan = elim (Option-cases (pipeline.stages.schema_aware_fix plan)) [
    | inl e ↦ (λ h. e, λ h. rw (validate, e) refl)
    | inr (p, e) ↦ (λ h. ground arith, λ h. ground arith)
  ]

  -- The validation of a plan on the execution path panics exactly if the plan joins a subquery, or if the
  -- plan without its unknown joins has nothing that the audit reports and its repair panics.
  pub validate_repairing-panics :
      (pipeline : ValidationPipeline Value) (plan : QueryPlan Value)
      → (validate_repairing pipeline plan ≡ none) ↔ (
          (opt_has_subquery_join (joins_of plan) ≡ true)
          ⊎ ((r : QueryPlan Value) × (drop_hallucinated_joins pipeline.snapshot plan ≡ some r)
              × (audit_errors pipeline.stages.audit_stage r ≡ [])
              × (pipeline.stages.schema_aware_fix r ≡ none)))
  unfolding validate_repairing
  validate_repairing-panics pipeline plan =
      let drops = drop_hallucinated_joins-panics pipeline.snapshot plan in
      elim (Option-cases (drop_hallucinated_joins pipeline.snapshot plan)) [
        | inl e ↦ (λ h. inl (drops.0 e), λ h. rw (validate_repairing, e) refl)
        | inr (r, e) ↦
            let stops = unless_errors-panics (audit_errors pipeline.stages.audit_stage r) in
            (
              λ h.
                  let (clean, none_left) = (stops _).0 (rw (validate_repairing, e) at h) in
                  inr (r, e, clean, (validate-panics pipeline r).0 none_left),
              λ h. elim h [
                | inl t ↦ let never = drops.1 t in absurd cc
                | inr (r', e', clean, none_left) ↦
                    rw (validate_repairing, e')
                      ((unless_errors-panics (audit_errors pipeline.stages.audit_stage r') _).1
                        (clean, (validate-panics pipeline r').1 none_left))
              ],
            )
      ]

  -- The joins of a list, and then those of another one.
  abbrev pub append_joins : JoinClauses Value → JoinClauses Value → JoinClauses Value
  append_joins joins_nil after = after
  append_joins (joins_cons kind right on rest) after =
      joins_cons kind right on (append_joins rest after)

  retain_known-append :
      (schema : SchemaSnapshot) (before xs ys : JoinClauses Value)
      → retain_known schema xs ≡ retain_known schema ys
      → retain_known schema (append_joins before xs) ≡ retain_known schema (append_joins before ys)
  unfolding retain_known
  retain_known-append schema joins_nil xs ys h = h
  retain_known-append schema (joins_cons kind right on rest) xs ys h =
      rw (retain_known-append schema rest xs ys h) refl

  retain_known-unknown :
      (schema : SchemaSnapshot) (kind : JoinType) (name : Text) (alias : Option Text)
      (on : Predicate Value) (rest : JoinClauses Value)
      → get_table schema name ≡ none
      → retain_known schema (joins_cons kind (FromClause.table name alias) on rest)
        ≡ retain_known schema rest
  unfolding retain_known table_name
  retain_known-unknown schema kind name alias on rest unknown =
      elim (Option-cases (retain_known schema rest)) [
        | inl e ↦ rw e refl
        | inr (kept, e) ↦ rw (e, unknown) refl
      ]

  -- A join whose right table the schema does not know, wherever it stands among the joins of the outermost
  -- query, makes no difference to the validation on the execution path, whatever CTEs the plan has.
  pub validate_repairing-unknown :
      (pipeline : ValidationPipeline Value) (plan : QueryPlan Value) (before : JoinClauses Value)
      (kind : JoinType) (name : Text) (alias : Option Text) (on : Predicate Value)
      (rest : JoinClauses Value)
      → get_table pipeline.snapshot name ≡ none
      → validate_repairing pipeline (
          with_joins
            (some_joins
              (append_joins before (joins_cons kind (FromClause.table name alias) on rest)))
            plan)
        ≡ validate_repairing pipeline (with_joins (some_joins (append_joins before rest)) plan)
  unfolding validate_repairing drop_hallucinated_joins
  validate_repairing-unknown pipeline
        (query_plan select d on from filter group having order l o _ ctes sets) before kind name
        alias cond rest unknown =
      rw
        (retain_known-append pipeline.snapshot before
          (joins_cons kind (FromClause.table name alias) cond rest) rest
          (retain_known-unknown pipeline.snapshot kind name alias cond rest unknown))
        refl
