-- ===== src/Tests/CompileRuns.antt =====
-- The query builder at the sample inputs.
use vlor_ql.Common.{ℕ, suc, ◌≤◌, some, [], ◌∷◌, ◌≡◌, ◌↔◌, refl, length, get_elem?, Member}
use vlor_ql.Common.Lists.{any, all}
use vlor_ql.Common.Text.{Text, bytes, ◌==◌, starts_with}
use vlor_ql.Compile.Builder.{
  cache_get, alias_get, or_insert, collect_aliases, collect_join_aliases, alias_scope, find_alias,
  resolve_alias, reserved_keywords, is_reserved_keyword, unquoted_identifier, quote_identifier,
  add_parameter, push_alias_scope, pop_alias_scope, set_in_cte, render_identifier, render_qualifier,
  render_qualified_identifier,
}
use vlor_ql.Compile.Builder.Bindings
use vlor_ql.Compile.Builder.Clauses.{
  render_literal, render_column, render_alias, render_star, build_limit_offset, within_cte,
}
use vlor_ql.Compile.Builder.Keywords.{
  split_dots, render_function_name, ilike_operator, render_binary_operator,
  render_comparison_operator, render_join_type, set_operation_keyword, frame_keyword, cast_type,
}
use vlor_ql.Compile.Builder.Names
use vlor_ql.Compile.Builder.Names.{is_name_char}
use vlor_ql.Compile.Builder.Parameters.{IsCached, HasKey}
use vlor_ql.Compile.Builder.Queries.{render_expression, build_query, build, empty_builder}
use vlor_ql.Compile.Dialect.{
  DialectConfig, placeholder_str, decimal, replace_index, default_postgres, dialect_from_name,
  lower, upper, contains_text, is_indexed, double, quote_with, is_word_start, is_word_char, is_word,
}
use vlor_ql.Compile.Dialect.Quoting
use vlor_ql.Compile.Dialect.Quoting.{lex_body}
use vlor_ql.Compile.Sql.{
  sql_text, placeholder, Sql, Builder, Rendered, done, failed, ◌⊕◌, nothing, push_code, push_str,
  fail, reading, compilation_error,
}
use vlor_ql.Schema.Types.{DataType, type_eq}
use vlor_ql.Schema.Plan.{QueryPlan, literal, some_pred, and_pred}
use vlor_ql.Tests.Samples.{
  json, postgres_context, select_from_users, column_of, equals, users, id, email,
}

-- What a run of the builder computes with.
compiler : Unit {0}
unfolding any all ◌==◌ starts_with cache_get alias_get or_insert collect_aliases
    collect_join_aliases alias_scope find_alias resolve_alias is_reserved_keyword
    unquoted_identifier quote_identifier add_parameter push_alias_scope pop_alias_scope set_in_cte
    render_identifier render_qualifier render_qualified_identifier render_literal render_column
    render_alias render_star build_limit_offset within_cte split_dots render_function_name
    ilike_operator render_binary_operator render_comparison_operator render_join_type
    set_operation_keyword frame_keyword cast_type render_expression build_query build empty_builder
    dialect_from_name lower upper contains_text is_indexed double quote_with is_word_start
    is_word_char is_word ◌⊕◌ nothing push_code push_str fail reading compilation_error type_eq
    sql_text placeholder_str decimal replace_index
compiler = tt

text_of : Rendered ℕ → Sql
text_of (done sql b) = sql
text_of (failed e) = []

builder_of : Rendered ℕ → Builder ℕ
unfolding empty_builder
builder_of (done sql b) = b
builder_of (failed e) = empty_builder

-- `SELECT users.email FROM users WHERE (users.id = 7) AND (users.id = 8)`
abbrev two_ids : QueryPlan ℕ
two_ids =
    select_from_users email (
      some_pred
        (and_pred (equals (column_of users.name id) 7) (equals (column_of users.name id) 8)))

abbrev built : Rendered ℕ
built = build json default_postgres two_ids

built_text :
    sql_text default_postgres (text_of built)
    ≡ bytes
        "SELECT \"users\".\"email\" FROM \"users\" WHERE (\"users\".\"id\" = $1) AND (\"users\".\"id\" = $2)"
unfolding compiler text_of
built_text = refl

build-placeholders_example :
    Member (placeholder 2) (text_of built) ↔ ((1 ≤ 2) × (2 ≤ length (builder_of built).parameters))
unfolding compiler text_of builder_of
build-placeholders_example =
    Bindings.build-placeholders json default_postgres two_ids (builder_of built) (text_of built)
      refl refl 2

build-distinct_example : ◌≡◌ {A = ℕ} 1 1
unfolding compiler text_of builder_of
build-distinct_example =
    Bindings.build-distinct json default_postgres two_ids (builder_of built) (text_of built) refl
      refl 1 1 (record { value = 8; data_type = DataType.int })
      (record { value = 8; data_type = DataType.int }) refl refl refl refl

abbrev fresh : Builder ℕ
fresh = empty_builder

fresh-IsCached : IsCached json fresh
unfolding compiler
fresh-IsCached = record { found = λ text type i e. absurd cc; listed = λ i p e. absurd cc }

abbrev queried : Rendered ℕ
queried = build_query postgres_context two_ids fresh

build_query-keeps_example :
    IsCached json (builder_of queried)
    × ((i : ℕ) (p : _)
        → get_elem? fresh.parameters i ≡ some p
        → get_elem? (builder_of queried).parameters i ≡ some p)
    × ((builder_of queried).alias_stack ≡ fresh.alias_stack)
    × ((builder_of queried).in_cte ≡ fresh.in_cte)
unfolding compiler text_of builder_of
build_query-keeps_example =
    Bindings.build_query-keeps postgres_context two_ids fresh (builder_of queried) (text_of queried)
      refl fresh-IsCached refl

render_literal-binds_example :
    (i : ℕ) × (c : Builder ℕ) × (render_expression postgres_context (literal 7 DataType.int) fresh
      ≡ done (placeholder (suc i) ∷ []) c)
    × HasKey json c.parameters i (7 ∷ []) DataType.int
unfolding compiler
render_literal-binds_example =
    Bindings.render_literal-binds postgres_context 7 DataType.int fresh refl fresh-IsCached refl

quote_with_bracket_leaks_example : lex_body b']' (bytes "a] x]") ≡ some (bytes "a", bytes " x]")
unfolding compiler
quote_with_bracket_leaks_example =
    Quoting.quote_with_bracket_leaks (bytes "a") (bytes " x") [] (refl, tt) refl

abbrev bare : DialectConfig
bare = record default_postgres { identifier_quote = bytes "never" }

quote_identifier-never_example :
    (users.name ≡ users.name)
    × Names.IsIdentifier users.name
    × ((k : Text) → Member k reserved_keywords → ¬ Names.Spells users.name k)
unfolding compiler
quote_identifier-never_example = Names.quote_identifier-never bare users.name users.name refl refl
