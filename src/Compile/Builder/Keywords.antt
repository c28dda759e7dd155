-- ===== src/Compile/Builder/Keywords.antt =====
-- The words of SQL that the query builder writes: operators, join types, casts, frames, and the names of
-- functions (crates/vlorql-core/src/compile/builder/clause.rs and expr.rs).
use vlor_ql.Common.{
  ℕ, Bool, true, false, ◌||◌, Option, none, some, List, [], ◌∷◌, map, if◌then◌else◌, nat_eq, all,
  is_empty,
}
use vlor_ql.Common.Text.{Text, bytes}
use vlor_ql.Compile.Builder.{alias_get}
use vlor_ql.Compile.Dialect.{DialectConfig, is_word, lower, contains_text}
use vlor_ql.Compile.Sql.{Outcome, ok, err, compilation_error}
use vlor_ql.Schema.Types.{
  DataType, BinaryOperator, ComparisonOperator, JoinType, SqlDialect, SetOperation, WindowFrameKind,
}

-- `function.split('.')`
abbrev pub add_to_first : ℕ → List Text → List Text
add_to_first c [] = (c ∷ []) ∷ []
add_to_first c (s ∷ ss) = (c ∷ s) ∷ ss

unfoldable pub split_dots : Text → List Text
split_dots [] = [] ∷ []
split_dots (c ∷ cs) =
    let rest = split_dots cs in if nat_eq c b'.' then [] ∷ rest else add_to_first c rest

unfoldable pub render_function_name : Text → Outcome
unfolding split_dots is_word compilation_error
render_function_name function =
    if is_empty function
    then err (compilation_error "empty_function_name")
    else (if all is_word (split_dots function)
        then ok function
        else err (compilation_error "invalid_function_name"))

abbrev pub is_postgres : SqlDialect → Bool
is_postgres SqlDialect.postgres = true
is_postgres _ = false

abbrev is_mysql : SqlDialect → Bool
is_mysql SqlDialect.mysql = true
is_mysql _ = false

-- `type_mappings.get("ilike")`, and what is used where there is none.
abbrev ilike_word : Option Text → SqlDialect → Text
ilike_word (some word) dialect = word
ilike_word none dialect = if is_postgres dialect then bytes "ILIKE" else bytes "LIKE"

unfoldable pub ilike_operator : DialectConfig → SqlDialect → Text
unfolding alias_get
ilike_operator config dialect = ilike_word (alias_get config.type_mappings (bytes "ilike")) dialect

unfoldable pub render_binary_operator : DialectConfig → SqlDialect → BinaryOperator → Text
unfolding ilike_operator
render_binary_operator config dialect BinaryOperator.add = bytes "+"
render_binary_operator config dialect BinaryOperator.sub = bytes "-"
render_binary_operator config dialect BinaryOperator.mul = bytes "*"
render_binary_operator config dialect BinaryOperator.div = bytes "/"
render_binary_operator config dialect BinaryOperator.mod_op = bytes "%"
render_binary_operator config dialect BinaryOperator.and_op = bytes "AND"
render_binary_operator config dialect BinaryOperator.or_op = bytes "OR"
render_binary_operator config dialect BinaryOperator.eq = bytes "="
render_binary_operator config dialect BinaryOperator.neq = bytes "<>"
render_binary_operator config dialect BinaryOperator.gt = bytes ">"
render_binary_operator config dialect BinaryOperator.lt = bytes "<"
render_binary_operator config dialect BinaryOperator.gte = bytes ">="
render_binary_operator config dialect BinaryOperator.lte = bytes "<="
render_binary_operator config dialect BinaryOperator.like = bytes "LIKE"
render_binary_operator config dialect BinaryOperator.ilike = ilike_operator config dialect

unfoldable pub render_comparison_operator :
    DialectConfig → SqlDialect → ComparisonOperator → Outcome
unfolding ilike_operator compilation_error
render_comparison_operator config dialect ComparisonOperator.eq = ok (bytes "=")
render_comparison_operator config dialect ComparisonOperator.neq = ok (bytes "<>")
render_comparison_operator config dialect ComparisonOperator.gt = ok (bytes ">")
render_comparison_operator config dialect ComparisonOperator.lt = ok (bytes "<")
render_comparison_operator config dialect ComparisonOperator.gte = ok (bytes ">=")
render_comparison_operator config dialect ComparisonOperator.lte = ok (bytes "<=")
render_comparison_operator config dialect ComparisonOperator.like = ok (bytes "LIKE")
render_comparison_operator config dialect ComparisonOperator.ilike =
    ok (ilike_operator config dialect)
render_comparison_operator config dialect ComparisonOperator.in_op =
    err (compilation_error "comparison_in_requires_in_predicate")
render_comparison_operator config dialect ComparisonOperator.between =
    err (compilation_error "comparison_between_requires_between_predicate")

unfoldable pub render_join_type : DialectConfig → SqlDialect → JoinType → Outcome
unfolding contains_text lower compilation_error
render_join_type config dialect JoinType.full =
    if is_mysql dialect || contains_text (map lower config.name) (bytes "mysql")
    then err (compilation_error "unsupported_full_join")
    else ok (bytes "FULL JOIN")
render_join_type config dialect JoinType.inner = ok (bytes "INNER JOIN")
render_join_type config dialect JoinType.left = ok (bytes "LEFT JOIN")
render_join_type config dialect JoinType.right = ok (bytes "RIGHT JOIN")
render_join_type config dialect JoinType.cross = ok (bytes "CROSS JOIN")

unfoldable pub set_operation_keyword : SetOperation → Text
set_operation_keyword SetOperation.union_all = bytes " UNION ALL "
set_operation_keyword SetOperation.union = bytes " UNION "
set_operation_keyword SetOperation.intersect = bytes " INTERSECT "
set_operation_keyword SetOperation.except = bytes " EXCEPT "

unfoldable pub frame_keyword : WindowFrameKind → Text
frame_keyword WindowFrameKind.rows = bytes "ROWS"
frame_keyword WindowFrameKind.range = bytes "RANGE"
frame_keyword WindowFrameKind.groups = bytes "GROUPS"

-- `cast_type` of `render_cte_cast`: `none` where it writes the placeholder alone.
unfoldable pub cast_type : SqlDialect → DataType → Option Text
cast_type SqlDialect.postgres DataType.int = some (bytes "INTEGER")
cast_type SqlDialect.postgres DataType.float = some (bytes "DOUBLE PRECISION")
cast_type SqlDialect.postgres DataType.boolean = some (bytes "BOOLEAN")
cast_type SqlDialect.postgres DataType.decimal = some (bytes "NUMERIC")
cast_type SqlDialect.postgres DataType.date = some (bytes "DATE")
cast_type SqlDialect.postgres DataType.timestamp = some (bytes "TIMESTAMP")
cast_type SqlDialect.postgres DataType.json = some (bytes "JSON")
cast_type SqlDialect.postgres _ = none
cast_type SqlDialect.mysql DataType.int = some (bytes "SIGNED")
cast_type SqlDialect.mysql DataType.float = some (bytes "DECIMAL(65, 30)")
cast_type SqlDialect.mysql DataType.boolean = some (bytes "UNSIGNED")
cast_type SqlDialect.mysql DataType.decimal = some (bytes "DECIMAL(65, 10)")
cast_type SqlDialect.mysql DataType.date = some (bytes "DATE")
cast_type SqlDialect.mysql DataType.timestamp = some (bytes "DATETIME")
cast_type SqlDialect.mysql DataType.json = some (bytes "JSON")
cast_type SqlDialect.mysql DataType.string = some (bytes "CHAR")
cast_type SqlDialect.mysql _ = none
cast_type SqlDialect.sqlite DataType.int = some (bytes "INTEGER")
cast_type SqlDialect.sqlite DataType.float = some (bytes "REAL")
cast_type SqlDialect.sqlite DataType.boolean = some (bytes "INTEGER")
cast_type SqlDialect.sqlite DataType.decimal = some (bytes "REAL")
cast_type SqlDialect.sqlite DataType.date = some (bytes "TEXT")
cast_type SqlDialect.sqlite DataType.timestamp = some (bytes "TEXT")
cast_type SqlDialect.sqlite DataType.string = some (bytes "TEXT")
cast_type SqlDialect.sqlite DataType.json = some (bytes "TEXT")
cast_type SqlDialect.sqlite DataType.uuid = some (bytes "TEXT")
cast_type SqlDialect.sqlite DataType.null = some (bytes "INTEGER")
cast_type SqlDialect.sqlite _ = none
