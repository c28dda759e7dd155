-- ===== src/Query/Mentions/Collected.antt =====
-- `collect_plan_references` of crates/vlorql-core/src/query.rs collects what a query names.
use vlor_ql.Common.{Option, List, [], ◌∷◌, ◌≡◌, ◌⊎◌, inl, inr, Bool, true, false, if◌then◌else◌}
use vlor_ql.Common.Collect.{first_part, kept}
use vlor_ql.Common.Lists.{Member, here, Member-append_left, Member-append_right}
use vlor_ql.Common.Text.{Text}
use vlor_ql.Query.Mentions.{
  Mentions, MentionsAny, MentionsOpt, MentionsOptAny, MentionsBranch, MentionsWindow, MentionsTerm,
  MentionsOptTerm, MentionsTarget, MentionsPredicate, MentionsOptPredicate, MentionsProjection,
  MentionsSelect, MentionsJoin, MentionsOptJoin, MentionsColumn, SelectsStarOf, SelectsStar,
}
use vlor_ql.Query.References.{
  ColumnReference, PlanReferences, push, collect_expression_references, collect_expressions,
  collect_opt_expression, collect_opt_expressions, collect_when_thens, collect_window_spec,
  collect_terms, collect_opt_terms, collect_in_target, collect_predicate_references,
  collect_opt_predicate, collect_projection, collect_select, collect_joins, collect_opt_joins,
  collect_plan_references,
}
use vlor_ql.Schema.Types.{is_cross}
use vlor_ql.Schema.Plan.{
  Expression, Expressions, OptExpression, OptExpressions, WhenThens, WindowSpec, OrderByTerms,
  OptOrderByTerms, InTarget, Predicate, OptPredicate, Projection, Projections, JoinClauses,
  OptJoinClauses, QueryPlan, literal, column_ref, function_call, binary_op, star, sub_query,
  case_when, window_function, exprs_nil, exprs_cons, no_expr, some_expr, no_exprs, some_exprs,
  when_thens_nil, when_thens_cons, window_spec, terms_nil, terms_cons, no_terms, some_terms, values,
  target_query, comparison, and_pred, or_pred, not_pred, between, in_pred, like, is_null, exists,
  true_pred, false_pred, no_pred, some_pred, expr, star_of, select_nil, select_cons, joins_nil,
  joins_cons, no_joins, some_joins, query_plan,
}

push-Member {ℓ} :
    {A : Type ℓ} (x a : A) (xs : List A) → (x ≡ a) ⊎ Member a xs → Member a (push xs x)
push-Member x a xs (inl e) = Member-append_right xs (x ∷ []) (here e)
push-Member x a xs (inr m) = Member-append_left xs (x ∷ []) m

-- Named in what comes next, or collected before.
abbrev Had : ColumnReference → Type 0 → List ColumnReference → Type 0
Had r Named refs = Named ⊎ Member r refs

if_not-Collects :
    (r : ColumnReference) (cross : Bool) (Named : Type 0) (refs more : List ColumnReference)
    → (Had r Named refs → Member r more)
    → Had r ((cross ≡ false) × Named) refs
    → Member r (if cross then refs else more)
if_not-Collects r true Named refs more f h = kept (λ x. cc) h
if_not-Collects r false Named refs more f (inl x) = f (inl x.1)
if_not-Collects r false Named refs more f (inr m) = f (inr m)

module _ {Value : Type 0} (r : ColumnReference) where
  mutual
    unfolding Mentions collect_expression_references

    expression-Collects :
        (e : Expression Value) (refs : List ColumnReference)
        → Had r (Mentions r e) refs
        → Member r (collect_expression_references e refs)
    expression-Collects (literal _ _) refs h = kept (λ x. x) h
    expression-Collects (column_ref t c) refs h = push-Member _ r refs h
    expression-Collects (function_call _ args _) refs h = expressions-Collects args refs h
    expression-Collects (binary_op left _ right) refs h =
        expression-Collects right _ (first_part (λ x. expression-Collects left refs x) h)
    expression-Collects star refs h = kept (λ x. x) h
    expression-Collects (sub_query _) refs h = kept (λ x. x) h
    expression-Collects (case_when operand branches otherwise) refs h =
        opt_expression-Collects otherwise _ (
          first_part
            (λ x.
              when_thens-Collects branches _
                (first_part (λ y. opt_expression-Collects operand refs y) x))
            h)
    expression-Collects (window_function _ args _ over) refs h =
        window_spec-Collects over _ (first_part (λ x. expressions-Collects args refs x) h)

    expressions-Collects :
        (es : Expressions Value) (refs : List ColumnReference)
        → Had r (MentionsAny r es) refs
        → Member r (collect_expressions es refs)
    expressions-Collects exprs_nil refs h = kept (λ x. x) h
    expressions-Collects (exprs_cons e es) refs h =
        expressions-Collects es _ (first_part (λ x. expression-Collects e refs x) h)

    opt_expression-Collects :
        (o : OptExpression Value) (refs : List ColumnReference)
        → Had r (MentionsOpt r o) refs
        → Member r (collect_opt_expression o refs)
    opt_expression-Collects no_expr refs h = kept (λ x. x) h
    opt_expression-Collects (some_expr e) refs h = expression-Collects e refs h

    opt_expressions-Collects :
        (o : OptExpressions Value) (refs : List ColumnReference)
        → Had r (MentionsOptAny r o) refs
        → Member r (collect_opt_expressions o refs)
    opt_expressions-Collects no_exprs refs h = kept (λ x. x) h
    opt_expressions-Collects (some_exprs es) refs h = expressions-Collects es refs h

    when_thens-Collects :
        (branches : WhenThens Value) (refs : List ColumnReference)
        → Had r (MentionsBranch r branches) refs
        → Member r (collect_when_thens branches refs)
    when_thens-Collects when_thens_nil refs h = kept (λ x. x) h
    when_thens-Collects (when_thens_cons w t branches) refs h = when_thens-Collects branches _ (
        first_part (λ x. expression-Collects t _ (first_part (λ y. expression-Collects w refs y) x))
          h)

    window_spec-Collects :
        (spec : WindowSpec Value) (refs : List ColumnReference)
        → Had r (MentionsWindow r spec) refs
        → Member r (collect_window_spec spec refs)
    window_spec-Collects (window_spec partition_by order_by _) refs h =
        opt_terms-Collects order_by _
          (first_part (λ x. opt_expressions-Collects partition_by refs x) h)

    terms-Collects :
        (terms : OrderByTerms Value) (refs : List ColumnReference)
        → Had r (MentionsTerm r terms) refs
        → Member r (collect_terms terms refs)
    terms-Collects terms_nil refs h = kept (λ x. x) h
    terms-Collects (terms_cons e _ terms) refs h =
        terms-Collects terms _ (first_part (λ x. expression-Collects e refs x) h)

    opt_terms-Collects :
        (o : OptOrderByTerms Value) (refs : List ColumnReference)
        → Had r (MentionsOptTerm r o) refs
        → Member r (collect_opt_terms o refs)
    opt_terms-Collects no_terms refs h = kept (λ x. x) h
    opt_terms-Collects (some_terms terms) refs h = terms-Collects terms refs h

  in_target-Collects :
      (target : InTarget Value) (refs : List ColumnReference)
      → Had r (MentionsTarget r target) refs
      → Member r (collect_in_target target refs)
  unfolding MentionsTarget
  in_target-Collects (values es) refs h = expressions-Collects es refs h
  in_target-Collects (target_query _) refs h = kept (λ x. x) h

  predicate-Collects :
      (p : Predicate Value) (refs : List ColumnReference)
      → Had r (MentionsPredicate r p) refs
      → Member r (collect_predicate_references p refs)
  unfolding MentionsPredicate collect_predicate_references
  predicate-Collects (comparison left _ right) refs h =
      expression-Collects right _ (first_part (λ x. expression-Collects left refs x) h)
  predicate-Collects (and_pred left right) refs h =
      predicate-Collects right _ (first_part (λ x. predicate-Collects left refs x) h)
  predicate-Collects (or_pred left right) refs h =
      predicate-Collects right _ (first_part (λ x. predicate-Collects left refs x) h)
  predicate-Collects (not_pred child) refs h = predicate-Collects child refs h
  predicate-Collects (between e low high) refs h = expression-Collects high _ (
      first_part (λ x. expression-Collects low _ (first_part (λ y. expression-Collects e refs y) x))
        h)
  predicate-Collects (in_pred e target) refs h =
      in_target-Collects target _ (first_part (λ x. expression-Collects e refs x) h)
  predicate-Collects (like e _) refs h = expression-Collects e refs h
  predicate-Collects (is_null e) refs h = expression-Collects e refs h
  predicate-Collects (exists _) refs h = kept (λ x. x) h
  predicate-Collects true_pred refs h = kept (λ x. x) h
  predicate-Collects false_pred refs h = kept (λ x. x) h

  opt_predicate-Collects :
      (o : OptPredicate Value) (refs : List ColumnReference)
      → Had r (MentionsOptPredicate r o) refs
      → Member r (collect_opt_predicate o refs)
  unfolding MentionsOptPredicate collect_opt_predicate
  opt_predicate-Collects no_pred refs h = kept (λ x. x) h
  opt_predicate-Collects (some_pred p) refs h = predicate-Collects p refs h

  projection-Collects :
      (p : Projection Value) (refs : PlanReferences)
      → Had r (MentionsProjection r p) refs.columns
      → Member r (collect_projection p refs).columns
  unfolding MentionsProjection collect_projection
  projection-Collects (Projection.column t c _) refs h = push-Member _ r refs.columns h
  projection-Collects (expr e _) refs h = expression-Collects e refs.columns h
  projection-Collects (star_of _) refs h = kept (λ x. x) h

  select-Collects :
      (ps : Projections Value) (refs : PlanReferences)
      → Had r (MentionsSelect r ps) refs.columns
      → Member r (collect_select ps refs).columns
  unfolding MentionsSelect collect_select
  select-Collects select_nil refs h = kept (λ x. x) h
  select-Collects (select_cons p ps) refs h =
      select-Collects ps _ (first_part (λ x. projection-Collects p refs x) h)

  joins-Collects :
      (joins : JoinClauses Value) (refs : List ColumnReference)
      → Had r (MentionsJoin r joins) refs
      → Member r (collect_joins joins refs)
  unfolding MentionsJoin collect_joins
  joins-Collects joins_nil refs h = kept (λ x. x) h
  joins-Collects (joins_cons join_type _ on joins) refs h = joins-Collects joins _ (
      first_part
        (λ x.
          if_not-Collects r (is_cross join_type) (MentionsPredicate r on) refs _
            (λ y. predicate-Collects on refs y) x)
        h)

  opt_joins-Collects :
      (o : OptJoinClauses Value) (refs : List ColumnReference)
      → Had r (MentionsOptJoin r o) refs
      → Member r (collect_opt_joins o refs)
  unfolding MentionsOptJoin collect_opt_joins
  opt_joins-Collects no_joins refs h = kept (λ x. x) h
  opt_joins-Collects (some_joins joins) refs h = joins-Collects joins refs h

  -- A column that a query names is among its references.
  pub collect_plan_references-MentionsColumn :
      (plan : QueryPlan Value)
      → MentionsColumn r plan
      → Member r (collect_plan_references plan).columns
  unfolding MentionsColumn collect_plan_references
  collect_plan_references-MentionsColumn
        (query_plan select _ _ _ filter group_by having order_by _ _ joins _ _) h =
      opt_joins-Collects joins _ (
        first_part
          (λ a. opt_terms-Collects order_by _ (
            first_part
              (λ b. opt_predicate-Collects having _ (
                first_part
                  (λ c. opt_expressions-Collects group_by _ (
                    first_part
                      (λ d.
                        opt_predicate-Collects filter _
                          (first_part (λ e. select-Collects select _ e) d))
                      c))
                  b))
              a))
          (inl h))

module _ {Value : Type 0} (t : Option Text) where
  select-Stars :
      (ps : Projections Value) (refs : PlanReferences)
      → SelectsStarOf t ps ⊎ Member t refs.stars
      → Member t (collect_select ps refs).stars
  unfolding SelectsStarOf collect_select collect_projection
  select-Stars select_nil refs h = kept (λ x. x) h
  select-Stars (select_cons (Projection.column _ _ _) ps) refs h = select-Stars ps _ h
  select-Stars (select_cons (expr _ _) ps) refs h = select-Stars ps _ h
  select-Stars (select_cons (star_of u) ps) refs h =
      select-Stars ps _ (first_part (λ x. push-Member u t refs.stars x) h)

  pub collect_plan_references-SelectsStar :
      (plan : QueryPlan Value) → SelectsStar t plan → Member t (collect_plan_references plan).stars
  unfolding SelectsStar collect_plan_references
  collect_plan_references-SelectsStar (query_plan select _ _ _ _ _ _ _ _ _ _ _ _) h =
      select-Stars select _ (inl h)
