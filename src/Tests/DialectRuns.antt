-- ===== src/Tests/DialectRuns.antt =====
-- The dialect checks at concrete inputs, and the results about them.
use vlor_ql.Common.{ℕ, ◌≡◌, refl, ◌↔◌, true, false, none, some, [], ◌∷◌}
use vlor_ql.Common.Lists.{any, All}
use vlor_ql.Common.Text.{Text, bytes, ◌==◌}
use vlor_ql.Compile.Dialect.{upper}
use vlor_ql.Errors.{validation, invalid_function, no_details}
use vlor_ql.Policy.Engine.Nested.{accepted, rejected}
use vlor_ql.Schema.Dialect.{DialectProfile}
use vlor_ql.Schema.Types.{SqlDialect, JoinType, IdentifierQuoting}
use vlor_ql.Schema.Plan.{
  FromClause, QueryPlan, function_call, star, exprs_nil, exprs_cons, no_exprs, no_pred, no_terms,
  expr, select_nil, select_cons, no_joins, no_ctes, no_set_operation, query_plan,
}
use vlor_ql.Validate.Dialect.{check_head, check_tail, check_call, validate_select_group_by}
use vlor_ql.Validate.Dialect.Walk.{validate_dialect, validate_inner, validate_frame}
use vlor_ql.Validate.Dialect.Uses.{Allowed, uses_of}
use vlor_ql.Validate.Dialect.Uses.Accepted.{validate_dialect_iff, validate_dialect_ignores_source}

abbrev restricted : DialectProfile
restricted = record {
  dialect = SqlDialect.postgres;
  quote_style = IdentifierQuoting.double_quote;
  supports_cte = true;
  supports_window_functions = false;
  supports_json_operations = true;
  max_joins = some 2;
  allowed_join_types = JoinType.inner ∷ JoinType.left ∷ [];
  allowed_functions = [];
  denied_functions = bytes "pg_sleep" ∷ [];
  max_group_by_columns = none;
  allow_distinct = true;
  allow_select_distinct = true;
  supports_offset = true;
  supports_fetch = true;
}

abbrev calls : Text → FromClause ℕ → QueryPlan ℕ
calls name from =
    query_plan
      (select_cons (expr (function_call name (exprs_cons star exprs_nil) false) none) select_nil)
      false no_exprs from no_pred no_exprs no_pred no_terms none none no_joins no_ctes
      no_set_operation

abbrev users : FromClause ℕ
users = FromClause.table (bytes "users") none

-- A denied name is found whatever its case, and not looked for in a subquery under `FROM`.
runs :
    (validate_dialect restricted (calls (bytes "count") users) ≡ accepted)
    × (validate_dialect restricted (calls (bytes "PG_SLEEP") users)
        ≡ rejected (validation (invalid_function (bytes "PG_SLEEP") []) no_details ∷ []))
    × (validate_dialect restricted
          (calls (bytes "count") (FromClause.subquery (calls (bytes "pg_sleep") users) none))
        ≡ accepted)
unfolding validate_dialect validate_inner validate_frame check_head check_tail check_call
    validate_select_group_by any upper ◌==◌
runs = (refl, refl, refl)

validate_dialect_iff_example :
    (validate_dialect restricted (calls (bytes "count") users) ≡ accepted)
    ↔ All (Allowed restricted) (uses_of (calls (bytes "count") users))
validate_dialect_iff_example = validate_dialect_iff restricted (calls (bytes "count") users)

validate_dialect_ignores_source_example :
    validate_dialect restricted (calls (bytes "count") users)
    ≡ validate_dialect restricted
        (calls (bytes "count") (FromClause.subquery (calls (bytes "pg_sleep") users) none))
validate_dialect_ignores_source_example =
    validate_dialect_ignores_source restricted
      (select_cons (expr (function_call (bytes "count") (exprs_cons star exprs_nil) false) none)
        select_nil)
      false no_exprs no_exprs users (FromClause.subquery (calls (bytes "pg_sleep") users) none)
      no_pred no_exprs no_pred no_terms none none no_joins no_ctes no_set_operation no_set_operation
