-- ===== src/Optimizer/Targets/Named.antt =====
-- The column collector of crates/vlorql-core/src/optimizer/analyze.rs finds the columns that stand by themselves
-- in a predicate.
use vlor_ql.Common.{
  true, Option, none, some, List, [], ◌∷◌, ◌≡◌, ◌⊎◌, refl, ap, ◌∙◌, inl, inr, arith, Bool-cases,
  for_each, ◌&&◌,
}
use mathlib.Core.Path.{subst}
use vlor_ql.Common.Collect.{first_part, kept}
use vlor_ql.Common.Lists.{
  any, any_sound, Member, here, there, Member-append_left, Member-append_right,
}
use vlor_ql.Common.Text.{Text, ◌==◌, ==_eq}
use vlor_ql.Optimizer.Columns.{
  ColumnRef, same_table, insert_column, insert_table, visit_expression, visit_expressions,
  visit_opt_expressions, visit_terms, visit_opt_terms, visit_select, visit_predicate, visit_target,
  visit_opt_predicate, visit_joins, visit_opt_joins, visit_ctes, visit_opt_ctes, visit_plan,
  columns_in_predicate, referenced_tables,
}
use vlor_ql.Schema.Plan.{
  Expression, Expressions, OptExpressions, OrderByTerms, OptOrderByTerms, InTarget, Predicate,
  OptPredicate, Projection, Projections, JoinClauses, OptJoinClauses, Ctes, OptCtes, QueryPlan,
  literal, column_ref, function_call, binary_op, star, sub_query, case_when, window_function,
  exprs_nil, exprs_cons, no_exprs, some_exprs, terms_nil, terms_cons, no_terms, some_terms, values,
  target_query, comparison, and_pred, or_pred, not_pred, between, in_pred, like, is_null, exists,
  true_pred, false_pred, no_pred, some_pred, expr, star_of, select_nil, select_cons, joins_nil,
  joins_cons, no_joins, some_joins, ctes_nil, ctes_cons, no_ctes, some_ctes, query_plan,
}

same_table-eq : (a b : Option Text) → same_table a b ≡ true → a ≡ b
unfolding same_table
same_table-eq none none h = refl
same_table-eq (some a) (some b) h = ap some (==_eq a b h)
same_table-eq none (some b) h = cc
same_table-eq (some a) none h = cc

module _ {Value : Type 0} (t : Option Text) where
  -- The expression is a column with the qualifier `t`, or one without, if `t` is none.
  abbrev pub IsColumnOf : Expression Value → Type 0
  IsColumnOf (column_ref u _) = u ≡ t
  IsColumnOf _ = ⊥

  abbrev pub HasColumnOf : Expressions Value → Type 0
  HasColumnOf exprs_nil = ⊥
  HasColumnOf (exprs_cons e es) = IsColumnOf e ⊎ HasColumnOf es

  abbrev pub TargetNames : InTarget Value → Type 0
  TargetNames (values es) = HasColumnOf es
  TargetNames (target_query _) = ⊥

  -- An operand of the predicate or of one below it is such a column; subqueries are left out.
  unfoldable pub Names : Predicate Value → Type 0
  Names (comparison left _ right) = IsColumnOf left ⊎ IsColumnOf right
  Names (and_pred left right) = Names left ⊎ Names right
  Names (or_pred left right) = Names left ⊎ Names right
  Names (not_pred child) = Names child
  Names (between e low high) = (IsColumnOf e ⊎ IsColumnOf low) ⊎ IsColumnOf high
  Names (in_pred e target) = IsColumnOf e ⊎ TargetNames target
  Names (like e _) = IsColumnOf e
  Names (is_null e) = IsColumnOf e
  Names (exists _) = ⊥
  Names true_pred = ⊥
  Names false_pred = ⊥

-- The set has a column of the qualifier.
abbrev Has : Option Text → List ColumnRef → Type 0
Has t set = (x : ColumnRef) × Member x set × (x.0 ≡ t)

-- A pass keeps what the set has.
abbrev Keeps : Option Text → (List ColumnRef → List ColumnRef) → Type 0
Keeps t f = (set : List ColumnRef) → Has t set → Has t (f set)

insert_column-Has :
    (t u : Option Text) (c : Text) (set : List ColumnRef)
    → (u ≡ t) ⊎ Has t set
    → Has t (insert_column (u, c) set)
unfolding insert_column
insert_column-Has t u c set h =
    elim (Bool-cases (any (λ (x : ColumnRef). same_table x.0 u && x.1 == c) set)) [
      | inl found ↦ rw found (elim h [
        | inl e ↦
            let (x, m, same) = any_sound _ set found in
            (x, m, same_table-eq x.0 u (ground arith) ∙ e)
        | inr has ↦ has
      ])
      | inr new ↦ rw new (elim h [
        | inl e ↦ ((u, c), Member-append_right set ((u, c) ∷ []) (here refl), e)
        | inr (x, m, e) ↦ (x, Member-append_left set _ m, e)
      ])
    ]

insert_table-Member :
    (t u : Option Text) (set : List (Option Text))
    → (u ≡ t) ⊎ Member t set
    → Member t (insert_table u set)
unfolding insert_table
insert_table-Member t u set h = elim (Bool-cases (any (λ x. same_table x u) set)) [
  | inl found ↦ rw found (elim h [
    | inl e ↦
        let (x, m, same) = any_sound _ set found in
        subst (λ y. Member y set) (same_table-eq x u same ∙ e) m
    | inr m ↦ m
  ])
  | inr new ↦ rw new (elim h [
    | inl e ↦ Member-append_right set (u ∷ []) (here e)
    | inr m ↦ Member-append_left set _ m
  ])
]

for_each-Member :
    (t : Option Text) (columns : List ColumnRef) (set : List (Option Text))
    → Has t columns ⊎ Member t set
    → Member t (for_each (λ (c : ColumnRef). insert_table c.0) columns set)
for_each-Member t [] set (inl (x, m, e)) = elim m [ ]
for_each-Member t [] set (inr m) = m
for_each-Member t (c ∷ cs) set (inl (x, here same, e)) =
    for_each-Member t cs _ (inr (insert_table-Member t c.0 set (inl (ap (λ y. y.0) same ∙ e))))
for_each-Member t (c ∷ cs) set (inl (x, there m, e)) = for_each-Member t cs _ (inl (x, m, e))
for_each-Member t (c ∷ cs) set (inr m) =
    for_each-Member t cs _ (inr (insert_table-Member t c.0 set (inr m)))

module _ {Value : Type 0} (t : Option Text) where
  expression-Has :
      (e : Expression Value) (set : List ColumnRef)
      → IsColumnOf t e ⊎ Has t set
      → Has t (visit_expression e set)
  unfolding visit_expression
  expression-Has (literal _ _) set h = kept (λ x. x) h
  expression-Has (column_ref u c) set h = insert_column-Has t u c set h
  expression-Has (function_call _ _ _) set h = kept (λ x. x) h
  expression-Has (binary_op _ _ _) set h = kept (λ x. x) h
  expression-Has star set h = kept (λ x. x) h
  expression-Has (sub_query _) set h = kept (λ x. x) h
  expression-Has (case_when _ _ _) set h = kept (λ x. x) h
  expression-Has (window_function _ _ _ _) set h = kept (λ x. x) h

  expressions-Has :
      (es : Expressions Value) (set : List ColumnRef)
      → HasColumnOf t es ⊎ Has t set
      → Has t (visit_expressions es set)
  unfolding visit_expressions
  expressions-Has exprs_nil set h = kept (λ x. x) h
  expressions-Has (exprs_cons e es) set h =
      expressions-Has es _ (first_part (λ x. expression-Has e set x) h)

  opt_expressions-Keeps : (o : OptExpressions Value) → Keeps t (visit_opt_expressions o)
  unfolding visit_opt_expressions
  opt_expressions-Keeps no_exprs set h = h
  opt_expressions-Keeps (some_exprs es) set h = expressions-Has es set (inr h)

  terms-Keeps : (terms : OrderByTerms Value) → Keeps t (visit_terms terms)
  unfolding visit_terms
  terms-Keeps terms_nil set h = h
  terms-Keeps (terms_cons e _ terms) set h = terms-Keeps terms _ (expression-Has e set (inr h))

  opt_terms-Keeps : (o : OptOrderByTerms Value) → Keeps t (visit_opt_terms o)
  unfolding visit_opt_terms
  opt_terms-Keeps no_terms set h = h
  opt_terms-Keeps (some_terms terms) set h = terms-Keeps terms set h

  select-Keeps : (ps : Projections Value) → Keeps t (visit_select ps)
  unfolding visit_select
  select-Keeps select_nil set h = h
  select-Keeps (select_cons (expr e _) ps) set h = select-Keeps ps _ (expression-Has e set (inr h))
  select-Keeps (select_cons (Projection.column _ _ _) ps) set h = select-Keeps ps set h
  select-Keeps (select_cons (star_of _) ps) set h = select-Keeps ps set h

  mutual
    unfolding visit_predicate Names

    predicate-Has :
        (p : Predicate Value) (set : List ColumnRef)
        → Names t p ⊎ Has t set
        → Has t (visit_predicate p set)
    predicate-Has (comparison left _ right) set h =
        expression-Has right _ (first_part (λ x. expression-Has left set x) h)
    predicate-Has (and_pred left right) set h =
        predicate-Has right _ (first_part (λ x. predicate-Has left set x) h)
    predicate-Has (or_pred left right) set h =
        predicate-Has right _ (first_part (λ x. predicate-Has left set x) h)
    predicate-Has (not_pred child) set h = predicate-Has child set h
    predicate-Has (between e low high) set h =
        expression-Has high _
          (first_part (λ x. expression-Has low _ (first_part (λ y. expression-Has e set y) x)) h)
    predicate-Has (in_pred e target) set h =
        target-Has target _ (first_part (λ x. expression-Has e set x) h)
    predicate-Has (exists query) set h = plan-Keeps query set (kept (λ x. x) h)
    predicate-Has (like e _) set h = expression-Has e set h
    predicate-Has (is_null e) set h = expression-Has e set h
    predicate-Has true_pred set h = kept (λ x. x) h
    predicate-Has false_pred set h = kept (λ x. x) h

    target-Has :
        (target : InTarget Value) (set : List ColumnRef)
        → TargetNames t target ⊎ Has t set
        → Has t (visit_target target set)
    target-Has (values es) set h = expressions-Has es set h
    target-Has (target_query query) set h = plan-Keeps query set (kept (λ x. x) h)

    opt_predicate-Keeps : (o : OptPredicate Value) → Keeps t (visit_opt_predicate o)
    opt_predicate-Keeps no_pred set h = h
    opt_predicate-Keeps (some_pred p) set h = predicate-Has p set (inr h)

    joins-Keeps : (joins : JoinClauses Value) → Keeps t (visit_joins joins)
    joins-Keeps joins_nil set h = h
    joins-Keeps (joins_cons _ _ on joins) set h = joins-Keeps joins _ (predicate-Has on set (inr h))

    opt_joins-Keeps : (o : OptJoinClauses Value) → Keeps t (visit_opt_joins o)
    opt_joins-Keeps no_joins set h = h
    opt_joins-Keeps (some_joins joins) set h = joins-Keeps joins set h

    ctes-Keeps : (ctes : Ctes Value) → Keeps t (visit_ctes ctes)
    ctes-Keeps ctes_nil set h = h
    ctes-Keeps (ctes_cons _ _ query ctes) set h = ctes-Keeps ctes _ (plan-Keeps query set h)

    opt_ctes-Keeps : (o : OptCtes Value) → Keeps t (visit_opt_ctes o)
    opt_ctes-Keeps no_ctes set h = h
    opt_ctes-Keeps (some_ctes ctes) set h = ctes-Keeps ctes set h

    plan-Keeps : (plan : QueryPlan Value) → Keeps t (visit_plan plan)
    plan-Keeps (query_plan select _ _ _ filter group having order _ _ joins ctes _) set h =
        opt_ctes-Keeps ctes _ (
          opt_joins-Keeps joins _ (
            opt_terms-Keeps order _ (
              opt_predicate-Keeps having _ (
                opt_expressions-Keeps group _
                  (opt_predicate-Keeps filter _ (select-Keeps select set h))))))

  pub referenced_tables-Names : (p : Predicate Value) → Names t p → Member t (referenced_tables p)
  unfolding referenced_tables columns_in_predicate
  referenced_tables-Names p h =
      for_each-Member t (columns_in_predicate p) [] (inl (predicate-Has p [] (inl h)))
