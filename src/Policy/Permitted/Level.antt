-- ===== src/Policy/Permitted/Level.antt =====
-- The checks of one query level push no error exactly if the level is permitted.
use vlor_ql.Common.{
  Bool, true, false, Option, none, some, List, [], ◌∷◌, ◌++◌, ◌≡◌, refl, arith, if◌then◌else◌,
}
use mathlib.Core.Bool.{false≢true}
use vlor_ql.Common.Lists.{any, for_each}
use vlor_ql.Common.Checks.{
  Checks, Checks-none, Checks-then, Checks-iff, Checks-for_each, Checks-unless,
}
use vlor_ql.Common.Text.{Text}
use vlor_ql.Errors.{
  VlorQlError, Label, schema_label, policy_label, table_policy_denied, policy, schema, table_denied,
  column_not_found, table_reason, available_columns,
}
use vlor_ql.Policy.Config.{PolicyConfig, is_table_denied, column_denial_reason}
use vlor_ql.Policy.Engine.{
  validate_table_access, deny_column, validate_column_policy, validate_existing_column,
  push_missing_column, has_column, is_cte, check_table, check_source, check_star_columns,
  check_star_source, check_star_resolved, validate_star, check_existing, check_resolved, candidates,
  check_candidates, check_qualified, view_columns, snapshot_columns, first_table,
  table_not_found_error, table_not_in_scope_or_not_found, validate_column_reference, validate_level,
}
use vlor_ql.Policy.Permitted.{
  TablePermitted, ColumnPermitted, FoundPermitted, AllColumnsPermitted, ExistingPermitted,
  SourcePermitted, StarSourcePermitted, StarResolvedPermitted, StarPermitted, ResolvedPermitted,
  CandidatesPermitted, QualifiedPermitted, ReferencePermitted, LevelPermitted,
}
use vlor_ql.Policy.Report.{Report, report_table, report_column}
use vlor_ql.Query.References.{ColumnReference, PlanReferences}
use vlor_ql.Query.Scope.{QueryScope, QuerySource, resolve_source}
use vlor_ql.Schema.Snapshot.{SchemaSnapshot, TableSchema, ColumnSchema, get_table}

abbrev pub errors_of : Report → List VlorQlError
errors_of r = r.errors

-- While there is no error, nothing was reported.
abbrev pub IsFresh : Report → Type 0
IsFresh r = r.errors ≡ [] → (r.reported_tables ≡ []) × (r.reported_columns ≡ [])

abbrev pub ReportChecks : (Report → Report) → Type 0 → Type 0
ReportChecks f P = Checks errors_of IsFresh f P

append_ne_nil : (xs : List VlorQlError) (e : VlorQlError) → xs ++ e ∷ [] ≡ [] → ⊥
append_ne_nil [] e h = cc
append_ne_nil (x ∷ xs) e h = cc

report_table-Checks : (l : Label) (n : Text) (e : VlorQlError) → ReportChecks (report_table l n e) ⊥
unfolding report_table any
report_table-Checks l n e = record {
  keeps = λ r h. ground (arith, append_ne_nil r.errors e);
  sound = λ r h p. ground (arith, append_ne_nil r.errors e);
  complete = λ r h p q. absurd q;
}

report_column-Checks :
    (n c : Text) (l : Label) (e : VlorQlError) → ReportChecks (report_column n c l e) ⊥
unfolding report_column any
report_column-Checks n c l e = record {
  keeps = λ r h. ground (arith, append_ne_nil r.errors e);
  sound = λ r h p. ground (arith, append_ne_nil r.errors e);
  complete = λ r h p q. absurd q;
}

-- An error that a test guards.
Checks-when :
    (b : Bool) (f : Report → Report)
    → ReportChecks f ⊥
    → ReportChecks (λ r. if b then f r else r) (b ≡ false)
Checks-when true f c = Checks-iff errors_of IsFresh f ((λ h. absurd h), (λ h. cc)) c
Checks-when false f c =
    Checks-iff errors_of IsFresh (λ r. r) ((λ _. refl), (λ _. tt)) (Checks-none errors_of IsFresh)

-- A check that a test replaces by an error.
Checks-else :
    (b : Bool) (f g : Report → Report) {P : Type 0}
    → ReportChecks f P
    → ReportChecks g ⊥
    → ReportChecks (λ r. if b then f r else g r) ((b ≡ true) × P)
Checks-else true f g cf cg = Checks-iff errors_of IsFresh f ((λ h. (refl, h)), (λ h. h.1)) cf
Checks-else false f g cf cg =
    Checks-iff errors_of IsFresh g ((λ h. absurd h), (λ h. absurd (false≢true h.0))) cg

push_missing_column-Checks :
    (name col : Text) (available : List Text)
    → ReportChecks (push_missing_column name col available) ⊥
unfolding push_missing_column
push_missing_column-Checks name col available =
    report_column-Checks name col schema_label
      (schema (column_not_found name col) (available_columns name col available))

module _ {Value : Type 0} (config : PolicyConfig Value) where
  validate_table_access-Checks :
      (t : TableSchema) → ReportChecks (validate_table_access config t) (TablePermitted config t)
  unfolding validate_table_access
  validate_table_access-Checks t = Checks-when (is_table_denied config t.name) _ (
      report_table-Checks policy_label t.name
        (policy (table_denied t.name) (table_reason t.name table_policy_denied)))

  deny_column-Checks :
      (o : Option Label) (n c : Text) → ReportChecks (deny_column config o n c) (o ≡ none)
  unfolding deny_column
  deny_column-Checks none n c =
      Checks-iff errors_of IsFresh (λ r. r) ((λ _. refl), (λ _. tt)) (Checks-none errors_of IsFresh)
  deny_column-Checks (some l) n c =
      Checks-iff errors_of IsFresh _ ((λ h. absurd h), (λ h. cc)) (report_column-Checks n c l _)

  validate_column_policy-Checks :
      (col : Text) (t : TableSchema)
      → ReportChecks (validate_column_policy config col t) (ColumnPermitted config col t)
  unfolding validate_column_policy
  validate_column_policy-Checks col t =
      deny_column-Checks (column_denial_reason config t.name col) t.name col

  validate_existing_column-Checks :
      (t : TableSchema) (col : Text)
      → ReportChecks
          (validate_existing_column config t col)
          ((has_column t col ≡ true) × ColumnPermitted config col t)
  unfolding validate_existing_column
  validate_existing_column-Checks t col =
      Checks-else (has_column t col) (validate_column_policy config col t) _
        (validate_column_policy-Checks col t)
        (push_missing_column-Checks t.name col (view_columns t t.name))

  module _ (snapshot : SchemaSnapshot) (scope : QueryScope) where
    check_table-Checks :
        (o : Option TableSchema) (name : Text)
        → ReportChecks (check_table config snapshot scope o name) (FoundPermitted config o)
    unfolding check_table
    check_table-Checks none name =
        report_table-Checks schema_label name (table_not_found_error name snapshot)
    check_table-Checks (some t) name = validate_table_access-Checks t

    check_source-Checks :
        (s : QuerySource)
        → ReportChecks
            (check_source config snapshot scope s)
            (SourcePermitted config snapshot scope s)
    unfolding check_source
    check_source-Checks s =
        Checks-unless errors_of IsFresh (is_cte scope s)
          (check_table config snapshot scope (get_table snapshot s.table) s.table)
          (check_table-Checks (get_table snapshot s.table) s.table)

    check_star_columns-Checks :
        (o : Option TableSchema)
        → ReportChecks (check_star_columns config snapshot scope o) (AllColumnsPermitted config o)
    unfolding check_star_columns
    check_star_columns-Checks none = Checks-none errors_of IsFresh
    check_star_columns-Checks (some t) =
        Checks-for_each errors_of IsFresh
          (λ (c : ColumnSchema). validate_column_policy config c.name t)
          (λ c. ColumnPermitted config c.name t) (λ c. validate_column_policy-Checks c.name t)
          t.columns

    check_star_source-Checks :
        (s : QuerySource)
        → ReportChecks
            (check_star_source config snapshot scope s)
            (StarSourcePermitted config snapshot scope s)
    unfolding check_star_source
    check_star_source-Checks s =
        Checks-unless errors_of IsFresh (is_cte scope s)
          (check_star_columns config snapshot scope (get_table snapshot s.table))
          (check_star_columns-Checks (get_table snapshot s.table))

    check_star_resolved-Checks :
        (o : Option QuerySource) (qualifier : Text)
        → ReportChecks
            (check_star_resolved config snapshot scope o qualifier)
            (StarResolvedPermitted config snapshot scope o)
    unfolding check_star_resolved
    check_star_resolved-Checks none qualifier =
        report_table-Checks schema_label qualifier
          (table_not_in_scope_or_not_found qualifier snapshot)
    check_star_resolved-Checks (some s) qualifier = check_star_source-Checks s

    validate_star-Checks :
        (o : Option Text)
        → ReportChecks
            (validate_star config snapshot scope o)
            (StarPermitted config snapshot scope o)
    unfolding validate_star
    validate_star-Checks none =
        Checks-for_each errors_of IsFresh (check_star_source config snapshot scope)
          (StarSourcePermitted config snapshot scope) check_star_source-Checks scope.sources
    validate_star-Checks (some qualifier) =
        check_star_resolved-Checks (resolve_source scope qualifier) qualifier

    check_existing-Checks :
        (o : Option TableSchema) (col : Text)
        → ReportChecks (check_existing config snapshot scope o col) (ExistingPermitted config o col)
    unfolding check_existing
    check_existing-Checks none col = Checks-none errors_of IsFresh
    check_existing-Checks (some t) col = validate_existing_column-Checks t col

    check_resolved-Checks :
        (o : Option QuerySource) (qualifier col : Text)
        → ReportChecks
            (check_resolved config snapshot scope o qualifier col)
            (ResolvedPermitted config snapshot scope o col)
    unfolding check_resolved
    check_resolved-Checks none qualifier col =
        report_table-Checks schema_label qualifier
          (table_not_in_scope_or_not_found qualifier snapshot)
    check_resolved-Checks (some s) qualifier col =
        Checks-unless errors_of IsFresh (is_cte scope s)
          (check_existing config snapshot scope (get_table snapshot s.table) col)
          (check_existing-Checks (get_table snapshot s.table) col)

    -- The error of an unqualified column that no table has.
    missing-Checks :
        (b : Bool) (f : Report → Report)
        → ReportChecks f ⊥
        → ReportChecks (λ r. if b then r else f r) (b ≡ true)
    missing-Checks true f c =
        Checks-iff errors_of IsFresh (λ r. r) ((λ _. refl), (λ _. tt))
          (Checks-none errors_of IsFresh)
    missing-Checks false f c =
        Checks-iff errors_of IsFresh f ((λ h. absurd h), (λ h. absurd (false≢true h))) c

    check_candidates-Checks :
        (ts : List TableSchema) (col : Text)
        → ReportChecks
            (check_candidates config snapshot scope ts col)
            (CandidatesPermitted config snapshot scope ts col)
    unfolding check_candidates
    check_candidates-Checks [] col =
        let name = first_table scope.sources in
        missing-Checks (any (is_cte scope) scope.sources) _
          (push_missing_column-Checks name col (snapshot_columns snapshot name))
    check_candidates-Checks (t ∷ ts) col =
        Checks-for_each errors_of IsFresh (validate_column_policy config col)
          (ColumnPermitted config col) (validate_column_policy-Checks col) (t ∷ ts)

    check_qualified-Checks :
        (o : Option Text) (col : Text)
        → ReportChecks
            (check_qualified config snapshot scope o col)
            (QualifiedPermitted config snapshot scope o col)
    check_qualified-Checks (some qualifier) col =
        check_resolved-Checks (resolve_source scope qualifier) qualifier col
    check_qualified-Checks none col =
        check_candidates-Checks (candidates snapshot scope scope.sources col) col

    validate_column_reference-Checks :
        (r : ColumnReference)
        → ReportChecks
            (validate_column_reference config snapshot scope r)
            (ReferencePermitted config snapshot scope r)
    unfolding validate_column_reference
    validate_column_reference-Checks r = check_qualified-Checks r.table r.column

    pub validate_level-Checks :
        (references : PlanReferences)
        → ReportChecks
            (validate_level config snapshot scope references)
            (LevelPermitted config snapshot scope references)
    unfolding validate_level
    validate_level-Checks references =
        Checks-then errors_of IsFresh
          (λ r.
            for_each (validate_star config snapshot scope) references.stars
              (for_each (check_source config snapshot scope) scope.sources r))
          (for_each (validate_column_reference config snapshot scope) references.columns)
          (Checks-then errors_of IsFresh
            (for_each (check_source config snapshot scope) scope.sources)
            (for_each (validate_star config snapshot scope) references.stars)
            (Checks-for_each errors_of IsFresh _ _ check_source-Checks scope.sources)
            (Checks-for_each errors_of IsFresh _ _ validate_star-Checks references.stars))
          (Checks-for_each errors_of IsFresh _ _ validate_column_reference-Checks
            references.columns)
