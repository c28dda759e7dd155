-- ===== src/Validate/Dialect.antt =====
-- The checks of dialect features: crates/vlorql-core/src/validate/dialect.rs. The JSON details of the
-- errors are left out.
pub mod Walk
pub mod Uses
use vlor_ql.Common.{
  ℕ, zero, suc, Bool, true, false, not, ◌&&◌, ◌||◌, if◌then◌else◌, ltb, nat_eq, Option, none, some,
  List, [], ◌∷◌, ◌++◌, map, is_empty,
}
use vlor_ql.Common.Lists.{any}
use vlor_ql.Common.Tests.{is_some}
use vlor_ql.Common.Text.{Text, bytes, ◌==◌}
use vlor_ql.Compile.Dialect.{upper, decimal}
use vlor_ql.Errors.{
  VlorQlError, validation, dialect_feature_disabled, too_many_joins, aggregation_mismatch,
  invalid_function, type_mismatch, no_details,
}
use vlor_ql.Schema.Dialect.{DialectProfile}
use vlor_ql.Schema.Types.{JoinType}
use vlor_ql.Schema.Plan.{
  Expression, Expressions, OptExpressions, WindowFrameBound, Projection, Projections, JoinClauses,
  OptJoinClauses, OptCtes, column_ref, star, sub_query, exprs_nil, exprs_cons, no_exprs, some_exprs,
  preceding, following, expr, star_of, select_nil, select_cons, joins_nil, joins_cons, no_joins,
  some_joins, ctes_nil, ctes_cons, no_ctes, some_ctes,
}

abbrev pub Errors : Type 0
Errors = List VlorQlError

-- `if test { errors.push(e) }`
abbrev pub push_if : Bool → VlorQlError → Errors → Errors
push_if test e errors = if test then errors ++ e ∷ [] else errors

-- `a.eq_ignore_ascii_case(b)`
abbrev pub same_function : Text → Text → Bool
same_function a b = map upper a == map upper b

abbrev pub join_index : JoinType → ℕ
join_index JoinType.inner = 0
join_index JoinType.left = 1
join_index JoinType.right = 2
join_index JoinType.full = 3
join_index JoinType.cross = 4

-- The name in the derived `Debug`, in lower case.
abbrev pub join_name : JoinType → Text
join_name JoinType.inner = bytes "inner"
join_name JoinType.left = bytes "left"
join_name JoinType.right = bytes "right"
join_name JoinType.full = bytes "full"
join_name JoinType.cross = bytes "cross"

abbrev pub feature_disabled : Text → VlorQlError
feature_disabled feature = validation (dialect_feature_disabled feature) no_details

abbrev pub group_by_error : Text → VlorQlError
group_by_error message = validation (aggregation_mismatch message) no_details

abbrev pub exceeds : Option ℕ → ℕ → Bool
exceeds none n = false
exceeds (some max) n = ltb max n

abbrev pub limit_of : Option ℕ → ℕ
limit_of none = 0
limit_of (some max) = max

-- `table.unwrap_or("?")`
abbrev pub shown_table : Option Text → Text
shown_table none = bytes "?"
shown_table (some t) = t

module _ {Value : Type 0} where
  abbrev pub count_exprs : Expressions Value → ℕ
  count_exprs exprs_nil = 0
  count_exprs (exprs_cons _ es) = suc (count_exprs es)

  abbrev pub count_opt_exprs : OptExpressions Value → ℕ
  count_opt_exprs no_exprs = 0
  count_opt_exprs (some_exprs es) = count_exprs es

  abbrev pub count_joins : JoinClauses Value → ℕ
  count_joins joins_nil = 0
  count_joins (joins_cons _ _ _ joins) = suc (count_joins joins)

  abbrev pub count_opt_joins : OptJoinClauses Value → ℕ
  count_opt_joins no_joins = 0
  count_opt_joins (some_joins joins) = count_joins joins

  abbrev pub has_ctes : OptCtes Value → Bool
  has_ctes no_ctes = false
  has_ctes (some_ctes ctes_nil) = false
  has_ctes (some_ctes (ctes_cons _ _ _ _)) = true

  -- Whether one expression of the grouping is this column; the tables count where both are given.
  unfoldable pub same_column : Expression Value → Option Text → Text → Bool
  same_column (column_ref (some t1) c) (some t2) column = t1 == t2 && c == column
  same_column (column_ref (some t1) c) none column = c == column
  same_column (column_ref none c) table column = c == column
  same_column _ table column = false

  unfoldable pub is_column_in_group_by : Expressions Value → Option Text → Text → Bool
  is_column_in_group_by exprs_nil table column = false
  is_column_in_group_by (exprs_cons e es) table column =
      same_column e table column || is_column_in_group_by es table column

  -- A column that is selected and must be grouped by.
  unfoldable pub check_grouped : Expressions Value → Option Text → Text → Errors → Errors
  check_grouped group table column errors =
      push_if (not (is_column_in_group_by group table column))
        (group_by_error (
          bytes "column `"
          ++ shown_table table
          ++ bytes "."
          ++ column
          ++ bytes "` must appear in GROUP BY or be wrapped in an aggregate function"))
        errors

  unfoldable pub check_projection : Expressions Value → Projection Value → Errors → Errors
  check_projection group (star_of _) errors =
      errors
      ++ group_by_error (
          bytes
            "SELECT * is not allowed with GROUP BY: every column must be explicitly listed in GROUP BY or wrapped in an aggregate function")
        ∷ []
  check_projection group (Projection.column table column _) errors =
      check_grouped group table column errors
  check_projection group (expr (column_ref table column) _) errors =
      check_grouped group table column errors
  check_projection group (expr star _) errors =
      errors ++ group_by_error (bytes "bare `*` is not allowed in SELECT with GROUP BY") ∷ []
  check_projection group (expr _ _) errors = errors

  unfoldable pub check_projections : Expressions Value → Projections Value → Errors → Errors
  check_projections group select_nil errors = errors
  check_projections group (select_cons p ps) errors =
      check_projections group ps (check_projection group p errors)

  unfoldable pub validate_select_group_by :
      OptExpressions Value → Projections Value → Errors → Errors
  validate_select_group_by no_exprs select errors = errors
  validate_select_group_by (some_exprs exprs_nil) select errors = errors
  validate_select_group_by (some_exprs (exprs_cons e es)) select errors =
      check_projections (exprs_cons e es) select errors

  unfoldable pub validate_frame_bound : WindowFrameBound Value → Errors → Errors
  validate_frame_bound (preceding (sub_query _)) errors =
      errors
      ++ validation
          (type_mismatch (bytes "literal or column") (bytes "subquery")
            (bytes "window_frame_bound"))
          no_details
        ∷ []
  validate_frame_bound (following (sub_query _)) errors =
      errors
      ++ validation
          (type_mismatch (bytes "literal or column") (bytes "subquery")
            (bytes "window_frame_bound"))
          no_details
        ∷ []
  validate_frame_bound _ errors = errors

module _ (profile : DialectProfile) where
  abbrev pub is_denied : Text → Bool
  is_denied name = any (λ f. same_function f name) profile.denied_functions

  abbrev pub is_allowed : Text → Bool
  is_allowed name =
      is_empty profile.allowed_functions
      || any (λ f. same_function f name) profile.allowed_functions

  -- The name and the `DISTINCT` of a call.
  unfoldable pub check_call : Text → Bool → Errors → Errors
  check_call name distinct errors =
      push_if (distinct && not profile.allow_distinct) (feature_disabled (bytes "distinct")) (
        push_if (is_denied name || not (is_allowed name))
          (validation (invalid_function name profile.allowed_functions) no_details) errors)

  unfoldable pub check_window : Errors → Errors
  check_window errors =
      push_if (not profile.supports_window_functions) (feature_disabled (bytes "window_functions"))
        errors

  unfoldable pub check_join_type : JoinType → Errors → Errors
  check_join_type kind errors =
      push_if
        (not (is_empty profile.allowed_join_types)
          && not (any (λ t. nat_eq (join_index t) (join_index kind)) profile.allowed_join_types))
        (feature_disabled (bytes "join_type:" ++ join_name kind)) errors

  -- The features of one level that come before its joins, and those that come behind them.
  unfoldable pub check_head :
      {Value : Type 0} → OptCtes Value → OptJoinClauses Value → Errors → Errors
  check_head ctes joins errors =
      push_if (exceeds profile.max_joins (count_opt_joins joins))
        (validation (too_many_joins (count_opt_joins joins) (limit_of profile.max_joins))
          no_details)
        (push_if (has_ctes ctes && not profile.supports_cte)
          (feature_disabled (bytes "common_table_expressions")) errors)

  unfoldable pub check_tail :
      {Value : Type 0}
      → Option ℕ
      → OptExpressions Value
      → Bool
      → Projections Value
      → Errors
      → Errors
  check_tail offset group distinct select errors = validate_select_group_by group select (
      push_if (distinct && not profile.allow_select_distinct)
        (feature_disabled (bytes "select_distinct"))
        (push_if (exceeds profile.max_group_by_columns (count_opt_exprs group))
          (group_by_error (
            bytes "query groups by "
            ++ decimal (count_opt_exprs group)
            ++ bytes " columns, but the maximum is "
            ++ decimal (limit_of profile.max_group_by_columns)))
          (push_if (not profile.supports_offset && is_some offset)
            (feature_disabled (bytes "offset")) errors)))
