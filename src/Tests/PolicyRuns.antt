-- ===== src/Tests/PolicyRuns.antt =====
-- The policy engine and the snapshot index at the sample inputs.
use vlor_ql.Common.{ℕ, Bool, true, false, ◌&&◌, none, some, List, [], ◌∷◌, ◌≡◌, ◌↔◌, refl, inl}
use vlor_ql.Common.Lists.{Member, here, any, all, find, keep}
use vlor_ql.Common.Text.{bytes, ◌==◌, starts_with}
use vlor_ql.Policy.BlindSpots
use vlor_ql.Policy.Config.{
  is_globally_denied, is_column_allowed, is_table_denied, column_denial_reason, get_row_filter,
  get_policy_for_table, lookup_policy, denies,
}
use vlor_ql.Policy.Engine.{
  validate_table_access, validate_column_policy, validate_existing_column, push_missing_column,
  has_column, is_cte, check_table, check_source, check_star_columns, check_star_source,
  check_star_resolved, validate_star, check_existing, check_resolved, candidates, check_candidates,
  validate_column_reference, validate_level, deny_column,
}
use vlor_ql.Policy.Engine.Nested.{Verdict, accepted, rejected, validate}
use vlor_ql.Policy.Filters.{
  inject_row_filters, where_of, collect_filters, apply_row_filters, combine_with_and, reduce_and,
  push_source_filter, push_matching_filter, row_filter_matches_sources, qualified_tables,
}
use vlor_ql.Policy.Filters.Enforced
use vlor_ql.Query.Mentions.{MentionsColumn}
use vlor_ql.Policy.BlindSpots.{append_select, append_branches}
use vlor_ql.Policy.Permitted.{PlanPermitted, levels, QueryLevel}
use vlor_ql.Policy.Permitted.Access
use vlor_ql.Policy.Permitted.Access.{Reads, SourceOf}
use vlor_ql.Policy.Permitted.Plan
use vlor_ql.Policy.Report.{report_table, report_column}
use vlor_ql.Query.References.{
  collect_plan_references, collect_opt_terms, collect_predicate_references,
}
use vlor_ql.Query.Scope.{
  contains, names_of_opt_ctes, opt_join_sources, from_clause, from_plan, extend_with_outer,
  resolve_source,
}
use vlor_ql.Schema.Snapshot.{get_table, index_get, new}
use vlor_ql.Schema.Snapshot.Lookup
use vlor_ql.Schema.Types.{SetOperation}
use vlor_ql.Errors.{VlorQlError}
use vlor_ql.Validate.Pipeline
use vlor_ql.Validate.Pipeline.{
  ValidationPipeline, valid, invalid, judge, conclude, validate_fixed, stage_errors, absorb,
  extend_unique,
}
use vlor_ql.Validate.Pipeline.Accepted
use vlor_ql.Validate.Pipeline.Outcome
use vlor_ql.Schema.Snapshot.Lookup.{IsIndexed}
use vlor_ql.Tests.Samples.{
  snapshot, config, no_policy, emails, secrets, hidden_secrets, union_secrets, users, accounts,
  metadata, email, tenant, id, column_of,
}
use vlor_ql.Schema.Plan.{
  Projections, WhenThens, Predicate, Projection, FromClause, QueryPlan, sub_query, case_when,
  no_expr, no_exprs, when_thens_nil, when_thens_cons, no_terms, comparison, and_pred, no_pred, expr,
  select_nil, select_cons, no_joins, no_ctes, no_set_operation, some_set_operation, query_plan,
}

-- What a run of the engine computes with.
engine : Unit {0}
unfolding any find keep ◌==◌ starts_with validate_table_access validate_column_policy
    validate_existing_column push_missing_column has_column is_cte check_table check_source
    check_star_columns check_star_source check_star_resolved validate_star check_existing
    check_resolved candidates check_candidates validate_column_reference validate_level deny_column
    validate report_table report_column collect_plan_references contains from_clause from_plan
    extend_with_outer resolve_source get_table index_get new is_globally_denied is_column_allowed
    is_table_denied column_denial_reason get_policy_for_table lookup_policy denies collect_opt_terms
    collect_predicate_references names_of_opt_ctes opt_join_sources
engine = tt

is_accepted : Verdict → Bool
is_accepted accepted = true
is_accepted (rejected _) = false

emails-accepted : validate config emails snapshot ≡ accepted
unfolding engine
emails-accepted = refl

runs :
    (is_accepted (validate config secrets snapshot) ≡ false)
    × (is_accepted (validate no_policy secrets snapshot) ≡ true)
    × (is_accepted (validate config hidden_secrets snapshot) ≡ false)
    × (is_accepted (validate config union_secrets snapshot) ≡ true)
unfolding engine is_accepted
runs = (refl, refl, refl, refl)

validate_iff_example :
    (validate config emails snapshot ≡ accepted) ↔ PlanPermitted config snapshot emails
validate_iff_example = Plan.validate_iff config snapshot emails

abbrev emails_level : QueryLevel ℕ
emails_level = record { scope = from_plan emails; plan = emails }

emails_level-Member : Member emails_level (levels emails none)
unfolding levels
emails_level-Member = here refl

emails-SourceOf : SourceOf snapshot emails_level.scope users
unfolding engine
emails-SourceOf = record {
  source = record { table = users.name; alias = none };
  in_scope = here refl;
  no_cte = refl;
  found = refl;
}

emails-Reads : Reads snapshot emails_level users email
unfolding engine emails-SourceOf MentionsColumn
emails-Reads =
    Reads.qualified users.name emails-SourceOf (inl (inl (inl (inl (inl (inl refl)))))) refl

validate-is_column_allowed_example : is_column_allowed config users.name email ≡ true
validate-is_column_allowed_example =
    Access.validate-is_column_allowed config snapshot emails emails_level users email
      emails-accepted emails_level-Member emails-Reads

get_table-new_example :
    get_table (new (users ∷ accounts ∷ []) metadata) (bytes "accounts")
    ≡ Lookup.last_named (bytes "accounts") (users ∷ accounts ∷ [])
get_table-new_example = Lookup.get_table-new (users ∷ accounts ∷ []) metadata (bytes "accounts")

snapshot-IsIndexed : IsIndexed snapshot
unfolding new
snapshot-IsIndexed = refl

finds_accounts : get_table snapshot (bytes "accounts") ≡ some accounts
unfolding engine
finds_accounts = refl

-- A reading of predicates in which every comparison holds.
abbrev holds : Predicate ℕ → Bool
holds (and_pred a b) = holds a && holds b
holds (comparison _ _ _) = true
holds _ = false

tenant-Applies : Enforced.Applies config (from_plan emails).sources tenant
unfolding engine get_row_filter
tenant-Applies =
    Enforced.Applies.of_table (record { table = users.name; alias = none }) (here refl) refl

holds-and : (a b : Predicate ℕ) → holds (and_pred a b) ≡ (holds a && holds b)
holds-and a b = refl

injected-holds :
    Enforced.holds_where holds holds-and (where_of (inject_row_filters config emails)) ≡ true
unfolding inject_row_filters apply_row_filters collect_filters push_source_filter
    push_matching_filter row_filter_matches_sources qualified_tables combine_with_and reduce_and
    get_row_filter all engine
injected-holds = refl

inject_row_filters-enforced_example :
    (Enforced.holds_where holds holds-and (where_of emails) ≡ true)
    × (holds tenant.condition ≡ true)
inject_row_filters-enforced_example =
    Enforced.inject_row_filters-enforced holds holds-and config emails tenant injected-holds
      tenant-Applies

validate_ignores_set_operation_example :
    validate config emails snapshot ≡ validate config union_secrets snapshot
validate_ignores_set_operation_example =
    BlindSpots.validate_ignores_set_operation config snapshot
      (select_cons (Projection.column (some users.name) email none) select_nil) false no_exprs
      no_exprs (FromClause.table users.name none) no_pred no_exprs no_pred no_terms none none
      no_joins no_ctes no_set_operation (some_set_operation SetOperation.union secrets)

-- `SELECT users.email, CASE WHEN users.id THEN users.id WHEN users.id THEN (<query>) END FROM users`
abbrev before : Projections ℕ
before = select_cons (Projection.column (some users.name) email none) select_nil

abbrev earlier : WhenThens ℕ
earlier = when_thens_cons (column_of users.name id) (column_of users.name id) when_thens_nil

abbrev case_of : QueryPlan ℕ → QueryPlan ℕ
case_of query =
    query_plan
      (append_select before (
        select_cons
          (expr
            (case_when no_expr
              (append_branches earlier
                (when_thens_cons (column_of users.name id) (sub_query query) when_thens_nil))
              no_expr)
            none)
          select_nil))
      false no_exprs (FromClause.table users.name none) no_pred no_exprs no_pred no_terms none none
      no_joins no_ctes no_set_operation

validate_ignores_case_subquery_example :
    validate config (case_of emails) snapshot ≡ validate config (case_of secrets) snapshot
validate_ignores_case_subquery_example =
    BlindSpots.validate_ignores_case_subquery config snapshot before earlier no_expr no_expr
      (column_of users.name id) when_thens_nil emails secrets none select_nil false no_exprs
      (FromClause.table users.name none) no_pred no_exprs no_pred no_terms none none no_joins
      no_ctes no_set_operation

-- A pipeline whose other stages are happy with every plan, and whose audit reports what it is given.
abbrev pub pipeline_with : List VlorQlError → ValidationPipeline ℕ
pipeline_with es = record {
  stages = record {
    schema_aware_fix = λ p. some p;
    validate_schema = λ p. accepted;
    validate_operands = λ p. accepted;
    validate_dialect = λ p. accepted;
    audit_stage = some (λ p. rejected es);
    same_error = λ a b. false;
  };
  policy = config;
  snapshot = snapshot;
}

pub pipeline-valid :
    Pipeline.validate (pipeline_with []) emails ≡ some (valid (inject_row_filters config emails))
unfolding engine Pipeline.validate validate_fixed judge conclude stage_errors absorb extend_unique
pipeline-valid = refl

validate-Passes_example :
    (Pipeline.validate (pipeline_with []) emails ≡ some (valid (inject_row_filters config emails)))
    ↔ ((p : QueryPlan ℕ) × (some emails ≡ some p)
        × Accepted.Passes (pipeline_with []) p (inject_row_filters config emails))
validate-Passes_example =
    Accepted.validate-Passes (pipeline_with []) emails (inject_row_filters config emails)

validate-enforces_example :
    (Enforced.holds_where holds holds-and (where_of emails) ≡ true)
    × (holds tenant.condition ≡ true)
validate-enforces_example =
    Outcome.validate-enforces (pipeline_with []) holds holds-and emails emails
      (inject_row_filters config emails) tenant pipeline-valid refl injected-holds tenant-Applies
