-- ===== src/Validate/Audit/Walk.antt =====
-- The audit walks over the column references that the query scopes collect
-- (crates/vlorql-core/src/validate/audit.rs and crates/vlorql-core/src/query.rs).
use vlor_ql.Common.{◌≡◌, refl, ap, ◌∙◌, List, [], ◌∷◌}
use vlor_ql.Common.Lists.{for_each}
use vlor_ql.Query.References.{
  ColumnReference, push, collect_expression_references, collect_expressions, collect_opt_expression,
  collect_opt_expressions, collect_when_thens, collect_window_spec, collect_terms,
  collect_opt_terms, collect_in_target, collect_predicate_references, collect_opt_predicate,
}
use vlor_ql.Validate.Audit.{
  audit_column, audit_expression, audit_expressions, audit_opt_expression, audit_opt_expressions,
  audit_when_thens, audit_window, audit_terms, audit_opt_terms, audit_target, audit_predicate,
  audit_opt_predicate,
}
use vlor_ql.Validate.Warnings.{Report}
use vlor_ql.Schema.Plan.{
  Expression, Expressions, OptExpression, OptExpressions, WhenThens, WindowSpec, OrderByTerms,
  OptOrderByTerms, InTarget, Predicate, OptPredicate, literal, column_ref, function_call, binary_op,
  star, sub_query, case_when, window_function, exprs_nil, exprs_cons, no_expr, some_expr, no_exprs,
  some_exprs, when_thens_nil, when_thens_cons, window_spec, terms_nil, terms_cons, no_terms,
  some_terms, values, target_query, comparison, and_pred, or_pred, not_pred, between, in_pred, like,
  is_null, exists, true_pred, false_pred, no_pred, some_pred,
}
use vlor_ql.Schema.Snapshot.{SchemaSnapshot}

module _ (schema : SchemaSnapshot) where
  -- The audit of one reference.
  abbrev pub audit_reference : ColumnReference → Report → Report
  audit_reference c report = audit_column schema c.table c.column report

  for_each-push :
      (refs : List ColumnReference) (c : ColumnReference) (r : Report)
      → for_each audit_reference (push refs c) r
        ≡ audit_reference c (for_each audit_reference refs r)
  for_each-push [] c r = refl
  for_each-push (x ∷ refs) c r = for_each-push refs c (audit_reference x r)

  abbrev pub Walks : (List ColumnReference → List ColumnReference) → (Report → Report) → Type 0
  Walks collect check =
      (refs : List ColumnReference) (r : Report)
      → for_each audit_reference (collect refs) r ≡ check (for_each audit_reference refs r)

  mutual
    unfolding collect_expression_references audit_expression

    pub walk_expression :
        {Value : Type 0} (e : Expression Value)
        → Walks (collect_expression_references e) (audit_expression schema e)
    walk_expression (literal _ _) refs r = refl
    walk_expression (column_ref t c) refs r =
        for_each-push refs (record { table = t; column = c }) r
    walk_expression (function_call _ args _) refs r = walk_expressions args refs r
    walk_expression (binary_op left _ right) refs r =
        walk_expression right _ r ∙ ap (audit_expression schema right) (walk_expression left refs r)
    walk_expression star refs r = refl
    walk_expression (sub_query _) refs r = refl
    walk_expression (case_when operand branches otherwise) refs r =
        walk_opt_expression otherwise _ r
        ∙ ap (audit_opt_expression schema otherwise) (
            walk_when_thens branches _ r
            ∙ ap (audit_when_thens schema branches) (walk_opt_expression operand refs r))
    walk_expression (window_function _ args _ over) refs r =
        walk_window over _ r ∙ ap (audit_window schema over) (walk_expressions args refs r)

    walk_expressions :
        {Value : Type 0} (es : Expressions Value)
        → Walks (collect_expressions es) (audit_expressions schema es)
    walk_expressions exprs_nil refs r = refl
    walk_expressions (exprs_cons e es) refs r =
        walk_expressions es _ r ∙ ap (audit_expressions schema es) (walk_expression e refs r)

    walk_opt_expression :
        {Value : Type 0} (e : OptExpression Value)
        → Walks (collect_opt_expression e) (audit_opt_expression schema e)
    walk_opt_expression no_expr refs r = refl
    walk_opt_expression (some_expr e) refs r = walk_expression e refs r

    pub walk_opt_expressions :
        {Value : Type 0} (es : OptExpressions Value)
        → Walks (collect_opt_expressions es) (audit_opt_expressions schema es)
    walk_opt_expressions no_exprs refs r = refl
    walk_opt_expressions (some_exprs es) refs r = walk_expressions es refs r

    walk_when_thens :
        {Value : Type 0} (b : WhenThens Value)
        → Walks (collect_when_thens b) (audit_when_thens schema b)
    walk_when_thens when_thens_nil refs r = refl
    walk_when_thens (when_thens_cons w t branches) refs r =
        walk_when_thens branches _ r
        ∙ ap (audit_when_thens schema branches)
            (walk_expression t _ r ∙ ap (audit_expression schema t) (walk_expression w refs r))

    walk_window :
        {Value : Type 0} (w : WindowSpec Value)
        → Walks (collect_window_spec w) (audit_window schema w)
    walk_window (window_spec partition_by order_by _) refs r =
        walk_opt_terms order_by _ r
        ∙ ap (audit_opt_terms schema order_by) (walk_opt_expressions partition_by refs r)

    walk_terms :
        {Value : Type 0} (t : OrderByTerms Value) → Walks (collect_terms t) (audit_terms schema t)
    walk_terms terms_nil refs r = refl
    walk_terms (terms_cons e _ terms) refs r =
        walk_terms terms _ r ∙ ap (audit_terms schema terms) (walk_expression e refs r)

    pub walk_opt_terms :
        {Value : Type 0} (t : OptOrderByTerms Value)
        → Walks (collect_opt_terms t) (audit_opt_terms schema t)
    walk_opt_terms no_terms refs r = refl
    walk_opt_terms (some_terms terms) refs r = walk_terms terms refs r

  walk_target :
      {Value : Type 0} (t : InTarget Value) → Walks (collect_in_target t) (audit_target schema t)
  walk_target (values es) refs r = walk_expressions es refs r
  walk_target (target_query _) refs r = refl

  walk_predicate :
      {Value : Type 0} (p : Predicate Value)
      → Walks (collect_predicate_references p) (audit_predicate schema p)
  unfolding collect_predicate_references audit_predicate
  walk_predicate (comparison left _ right) refs r =
      walk_expression right _ r ∙ ap (audit_expression schema right) (walk_expression left refs r)
  walk_predicate (and_pred left right) refs r =
      walk_predicate right _ r ∙ ap (audit_predicate schema right) (walk_predicate left refs r)
  walk_predicate (or_pred left right) refs r =
      walk_predicate right _ r ∙ ap (audit_predicate schema right) (walk_predicate left refs r)
  walk_predicate (not_pred child) refs r = walk_predicate child refs r
  walk_predicate (between e low high) refs r =
      walk_expression high _ r
      ∙ ap (audit_expression schema high)
          (walk_expression low _ r ∙ ap (audit_expression schema low) (walk_expression e refs r))
  walk_predicate (in_pred e target) refs r =
      walk_target target _ r ∙ ap (audit_target schema target) (walk_expression e refs r)
  walk_predicate (like e _) refs r = walk_expression e refs r
  walk_predicate (is_null e) refs r = walk_expression e refs r
  walk_predicate (exists _) refs r = refl
  walk_predicate true_pred refs r = refl
  walk_predicate false_pred refs r = refl

  pub walk_opt_predicate :
      {Value : Type 0} (p : OptPredicate Value)
      → Walks (collect_opt_predicate p) (audit_opt_predicate schema p)
  unfolding collect_opt_predicate audit_opt_predicate
  walk_opt_predicate no_pred refs r = refl
  walk_opt_predicate (some_pred p) refs r = walk_predicate p refs r
