-- ===== src/Validate/Audit/Clean.antt =====
-- Which plans the audit of crates/vlorql-core/src/validate/audit.rs accepts.
use vlor_ql.Common.{
  Bool, true, false, if◌then◌else◌, Option, none, some, List, [], ◌∷◌, ◌++◌, ◌≡◌, refl, sym, subst,
  ◌∙◌, ◌↔◌, arith, All,
}
use vlor_ql.Common.Checks.{Checks, Checks-none, Checks-then, Checks-for_each}
use vlor_ql.Common.Lists.{append-not_empty, any, for_each}
use vlor_ql.Common.Text.{Text, bytes}
use vlor_ql.Policy.Engine.Nested.{accepted, rejected}
use vlor_ql.Query.References.{
  ColumnReference, collect_expression_references, collect_opt_expressions, collect_opt_terms,
  collect_opt_predicate,
}
use vlor_ql.Schema.Plan.{
  FromClause, Projection, Projections, JoinClauses, OptJoinClauses, Ctes, OptCtes, QueryPlan, expr,
  star_of, select_nil, select_cons, joins_nil, joins_cons, no_joins, some_joins, ctes_nil,
  ctes_cons, no_ctes, some_ctes, query_plan,
}
use vlor_ql.Schema.Snapshot.{SchemaSnapshot}
use vlor_ql.Validate.Audit.{
  column_known, check_known, audit_column, audit_opt_expressions, audit_opt_terms,
  audit_opt_predicate, table_known, check_table, audit_from, audit_projection, audit_select,
  audit_joins, audit_opt_joins, audit_ctes, audit_opt_ctes, audit_report, audit_plan,
}
use vlor_ql.Validate.Warnings.{
  AuditWarning, Report, is_blocker, has_blockers, into_errors, has_suspicious_pattern, push_found,
  check_pattern,
}
use vlor_ql.Validate.Audit.Walk.{
  audit_reference, Walks, walk_expression, walk_opt_expressions, walk_opt_terms, walk_opt_predicate,
}

-- Every warning is one that blocks.
abbrev Blocking : Report → Type 0
Blocking report = All (λ w. is_blocker w ≡ true) report

abbrev Audits : (Report → Report) → Type 0 → Type 0
Audits f P = Checks (λ (r : Report). r) Blocking f P

-- No suspicious pattern occurs in the identifier.
abbrev pub CleanIdent : Text → Type 0
CleanIdent ident = has_suspicious_pattern ident ≡ none

append-Blocking :
    (r : Report) (w : AuditWarning) → is_blocker w ≡ true → Blocking r → Blocking (r ++ w ∷ [])
append-Blocking [] w b h = (b, tt)
append-Blocking (x ∷ r) w b h = (h.0, append-Blocking r w b h.1)

-- A warning that is pushed unless the test holds.
push-Audits :
    (b : Bool) (w : AuditWarning)
    → is_blocker w ≡ true
    → Audits (λ r. if b then r else r ++ w ∷ []) (b ≡ true)
push-Audits true w blocks = record {
  keeps = λ r h. h;
  sound = λ r h e. (e, refl);
  complete = λ r h e _. e;
}
push-Audits false w blocks = record {
  keeps = λ r h. append-Blocking r w blocks h;
  sound = λ r h e. elim (append-not_empty r w e) [ ];
  complete = λ r h e never. cc;
}

push_found-Audits : (o : Option Text) (ident : Text) → Audits (push_found o ident) (o ≡ none)
push_found-Audits none ident = record {
  keeps = λ r h. h;
  sound = λ r h e. (e, refl);
  complete = λ r h e _. e;
}
push_found-Audits (some pattern) ident = record {
  keeps = λ r h. append-Blocking r _ refl h;
  sound = λ r h e. elim (append-not_empty r _ e) [ ];
  complete = λ r h e never. cc;
}

check_pattern-Audits : (ident : Text) → Audits (check_pattern ident) (CleanIdent ident)
unfolding check_pattern
check_pattern-Audits ident = push_found-Audits (has_suspicious_pattern ident) ident

same-Audits :
    (f g : Report → Report) {P : Type 0} → ((r : Report) → f r ≡ g r) → Audits f P → Audits g P
same-Audits f g same c = record {
  keeps = λ r h. subst Blocking (same r) (c.keeps r h);
  sound = λ r h e. c.sound r h (same r ∙ e);
  complete = λ r h e p. sym (same r) ∙ c.complete r h e p;
}

module _ (schema : SchemaSnapshot) where
  abbrev pub CleanReference : ColumnReference → Type 0
  CleanReference c = CleanIdent c.column × (column_known schema c.table c.column ≡ true)

  abbrev pub CleanReferences : List ColumnReference → Type 0
  CleanReferences = All CleanReference

  abbrev pub CleanFrom : {Value : Type 0} → FromClause Value → Type 0
  CleanFrom (FromClause.table name alias) = CleanIdent name × (table_known schema name alias ≡ true)
  CleanFrom (FromClause.subquery _ _) = Unit

  abbrev pub CleanProjection : {Value : Type 0} → Projection Value → Type 0
  CleanProjection (Projection.column t c (some alias)) = CleanIdent c
  CleanProjection (Projection.column t c none) = CleanIdent c × (column_known schema t c ≡ true)
  CleanProjection (expr e _) = CleanReferences (collect_expression_references e [])
  CleanProjection (star_of (some t)) = CleanIdent t
  CleanProjection (star_of none) = Unit

  abbrev pub CleanSelect : {Value : Type 0} → Projections Value → Type 0
  CleanSelect select_nil = Unit
  CleanSelect (select_cons p ps) = CleanProjection p × CleanSelect ps

  -- The right tables of the joins, and not their conditions.
  abbrev pub CleanJoins : {Value : Type 0} → JoinClauses Value → Type 0
  CleanJoins joins_nil = Unit
  CleanJoins (joins_cons _ right _ joins) = CleanFrom right × CleanJoins joins

  abbrev pub CleanOptJoins : {Value : Type 0} → OptJoinClauses Value → Type 0
  CleanOptJoins no_joins = Unit
  CleanOptJoins (some_joins joins) = CleanJoins joins

  -- The names of the CTEs, and not their queries.
  abbrev pub CleanCtes : {Value : Type 0} → Ctes Value → Type 0
  CleanCtes ctes_nil = Unit
  CleanCtes (ctes_cons name _ _ ctes) = CleanIdent name × CleanCtes ctes

  abbrev pub CleanOptCtes : {Value : Type 0} → OptCtes Value → Type 0
  CleanOptCtes no_ctes = Unit
  CleanOptCtes (some_ctes ctes) = CleanCtes ctes

  abbrev pub CleanPlan : {Value : Type 0} → QueryPlan Value → Type 0
  CleanPlan (query_plan select _ _ from filter group having order _ _ joins ctes _) =
      ((((((CleanFrom from × CleanOptJoins joins) × CleanOptCtes ctes) × CleanSelect select)
            × CleanReferences (collect_opt_predicate filter []))
          × CleanReferences (collect_opt_predicate having []))
        × CleanReferences (collect_opt_expressions group []))
      × CleanReferences (collect_opt_terms order [])

  check_known-Audits :
      (place : Text) (t : Option Text) (c : Text)
      → Audits (check_known schema place t c) (column_known schema t c ≡ true)
  unfolding check_known
  check_known-Audits place t c = push-Audits (column_known schema t c) _ refl

  column-Audits :
      (place : Text) (t : Option Text) (c : Text)
      → Audits
          (λ r. check_known schema place t c (check_pattern c r))
          (CleanIdent c × (column_known schema t c ≡ true))
  column-Audits place t c =
      Checks-then (λ (r : Report). r) Blocking (check_pattern c) (check_known schema place t c)
        (check_pattern-Audits c) (check_known-Audits place t c)

  references-Audits :
      (refs : List ColumnReference)
      → Audits (for_each (audit_reference schema) refs) (CleanReferences refs)
  unfolding audit_column
  references-Audits refs =
      Checks-for_each (λ (r : Report). r) Blocking (audit_reference schema) CleanReference
        (λ c. column-Audits (bytes "expression") c.table c.column) refs

  -- A walk over references audits those that it collects.
  walk-Audits :
      (collect : List ColumnReference → List ColumnReference) (check : Report → Report)
      → Walks schema collect check
      → Audits check (CleanReferences (collect []))
  walk-Audits collect check walks = same-Audits _ check (walks []) (references-Audits (collect []))

  abbrev both :
      (f g : Report → Report) {P Q : Type 0}
      → Audits f P
      → Audits g Q
      → Audits (λ r. g (f r)) (P × Q)
  both f g = Checks-then (λ (r : Report). r) Blocking f g

  abbrev nothing : Audits (λ r. r) Unit
  nothing = Checks-none (λ (r : Report). r) Blocking

  from-Audits :
      {Value : Type 0} (from : FromClause Value) → Audits (audit_from schema from) (CleanFrom from)
  unfolding audit_from check_table
  from-Audits (FromClause.table name alias) =
      both (check_pattern name) (check_table schema name alias) (check_pattern-Audits name)
        (push-Audits (table_known schema name alias) _ refl)
  from-Audits (FromClause.subquery _ _) = nothing

  projection-Audits :
      {Value : Type 0} (p : Projection Value)
      → Audits (audit_projection schema p) (CleanProjection p)
  unfolding audit_projection
  projection-Audits (Projection.column t c (some alias)) = check_pattern-Audits c
  projection-Audits (Projection.column t c none) = column-Audits (bytes "SELECT projection") t c
  projection-Audits (expr e _) =
      walk-Audits (collect_expression_references e) _ (walk_expression schema e)
  projection-Audits (star_of (some t)) = check_pattern-Audits t
  projection-Audits (star_of none) = nothing

  select-Audits :
      {Value : Type 0} (ps : Projections Value) → Audits (audit_select schema ps) (CleanSelect ps)
  unfolding audit_select
  select-Audits select_nil = nothing
  select-Audits (select_cons p ps) =
      both (audit_projection schema p) (audit_select schema ps) (projection-Audits p)
        (select-Audits ps)

  joins-Audits :
      {Value : Type 0} (joins : JoinClauses Value)
      → Audits (audit_joins schema joins) (CleanJoins joins)
  unfolding audit_joins
  joins-Audits joins_nil = nothing
  joins-Audits (joins_cons _ right _ joins) =
      both (audit_from schema right) (audit_joins schema joins) (from-Audits right)
        (joins-Audits joins)

  opt_joins-Audits :
      {Value : Type 0} (joins : OptJoinClauses Value)
      → Audits (audit_opt_joins schema joins) (CleanOptJoins joins)
  unfolding audit_opt_joins
  opt_joins-Audits no_joins = nothing
  opt_joins-Audits (some_joins joins) = joins-Audits joins

  ctes-Audits :
      {Value : Type 0} (ctes : Ctes Value) → Audits (audit_ctes schema ctes) (CleanCtes ctes)
  unfolding audit_ctes
  ctes-Audits ctes_nil = nothing
  ctes-Audits (ctes_cons name _ _ ctes) =
      both (check_pattern name) (audit_ctes schema ctes) (check_pattern-Audits name)
        (ctes-Audits ctes)

  opt_ctes-Audits :
      {Value : Type 0} (ctes : OptCtes Value)
      → Audits (audit_opt_ctes schema ctes) (CleanOptCtes ctes)
  unfolding audit_opt_ctes
  opt_ctes-Audits no_ctes = nothing
  opt_ctes-Audits (some_ctes ctes) = ctes-Audits ctes

  report-Audits :
      {Value : Type 0} (plan : QueryPlan Value) → Audits (audit_report schema plan) (CleanPlan plan)
  unfolding audit_report
  report-Audits (query_plan select _ _ from filter group having order _ _ joins ctes _) =
      both _ (audit_opt_terms schema order)
        (both _ (audit_opt_expressions schema group)
          (both _ (audit_opt_predicate schema having)
            (both _ (audit_opt_predicate schema filter)
              (both _ (audit_select schema select)
                (both _ (audit_opt_ctes schema ctes)
                  (both (audit_from schema from) (audit_opt_joins schema joins) (from-Audits from)
                    (opt_joins-Audits joins))
                  (opt_ctes-Audits ctes))
                (select-Audits select))
              (walk-Audits (collect_opt_predicate filter) _ (walk_opt_predicate schema filter)))
            (walk-Audits (collect_opt_predicate having) _ (walk_opt_predicate schema having)))
          (walk-Audits (collect_opt_expressions group) _ (walk_opt_expressions schema group)))
        (walk-Audits (collect_opt_terms order) _ (walk_opt_terms schema order))

  blockers_none :
      (r : Report)
      → Blocking r
      → (if has_blockers r then rejected (into_errors r) else accepted) ≡ accepted
      → r ≡ []
  unfolding has_blockers any
  blockers_none [] h e = refl
  blockers_none (w ∷ r) h e = ground arith

  -- The audit accepts a plan exactly if the table names of its `FROM` and its joins, the names of its
  -- CTEs, the columns and star qualifiers of its select list, and the columns of `WHERE`, `HAVING`,
  -- `GROUP BY` and `ORDER BY` outside inner plans hold no suspicious pattern, and its tables without
  -- alias and its columns without alias are known.
  pub audit_plan_iff :
      {Value : Type 0} (plan : QueryPlan Value)
      → (audit_plan schema plan ≡ accepted) ↔ CleanPlan plan
  unfolding audit_plan has_blockers any
  audit_plan_iff plan =
      let c = report-Audits plan in
      (
        λ h. (c.sound [] tt (blockers_none _ (c.keeps [] tt) h)).1,
        λ p. rw (c.complete [] tt refl p) refl,
      )
