-- ===== src/Compile/Builder/Clauses.antt =====
-- The parts of clauses that hold no expression: literals, columns, aliases, limits, and the words around
-- what the recursion of the query builder writes (crates/vlorql-core/src/compile/builder/clause.rs and
-- expr.rs).
use vlor_ql.Common.{ℕ, Bool, true, false, ◌||◌, Option, none, some, if◌then◌else◌}
use vlor_ql.Common.Text.{Text}
use vlor_ql.Compile.Builder.{
  Context, add_parameter, set_in_cte, render_identifier, render_qualifier,
  render_qualified_identifier,
}
use vlor_ql.Compile.Builder.Keywords.{is_postgres, render_function_name, cast_type}
use vlor_ql.Compile.Sql.{
  Render, ◌⊕◌, nothing, compilation_error, push_code, push_str, fail, push_outcome, reading,
}
use vlor_ql.Schema.Types.{DataType, SqlDialect}
use vlor_ql.Schema.Plan.{
  OptExpressions, OptOrderByTerms, Ctes, no_exprs, some_exprs, no_terms, some_terms, ctes_nil,
  ctes_cons,
}

module _ {Value : Type 0} where
  abbrev pub cast_with : Option Text → Render Value → Render Value
  cast_with none placeholder = placeholder
  cast_with (some type) placeholder =
      push_str "CAST(" ⊕ placeholder ⊕ push_str " AS " ⊕ push_code type ⊕ push_str ")"

  abbrev pub distinct_word : Bool → Render Value
  distinct_word true = push_str "DISTINCT "
  distinct_word false = nothing

  abbrev pub space_if : Bool → Render Value
  space_if true = push_str " "
  space_if false = nothing

  abbrev pub direction : Bool → Render Value
  direction true = push_str " DESC"
  direction false = push_str " ASC"

  abbrev pub function_name : Text → Render Value
  function_name name = push_outcome (render_function_name name)

  -- Whether the window specification wrote something before its ORDER BY, and before its frame.
  abbrev pub is_some_exprs : OptExpressions Value → Bool
  is_some_exprs no_exprs = false
  is_some_exprs (some_exprs _) = true

  abbrev pub is_some_terms : OptOrderByTerms Value → Bool
  is_some_terms no_terms = false
  is_some_terms (some_terms _) = true

  -- `ctes.iter().any(|cte| cte.recursive)`
  abbrev pub any_recursive : Ctes Value → Bool
  any_recursive ctes_nil = false
  any_recursive (ctes_cons _ recursive _ ctes) = recursive || any_recursive ctes

  abbrev pub with_words : Bool → Render Value
  with_words true = push_str "WITH RECURSIVE "
  with_words false = push_str "WITH "

  -- `in_cte` is set for the query of a CTE, and put back afterwards.
  unfoldable pub within_cte : Render Value → Render Value
  within_cte r = reading (λ b. set_in_cte true ⊕ r ⊕ set_in_cte b.in_cte)

  abbrev pub on_clause : Bool → Render Value → Render Value
  on_clause true on = nothing
  on_clause false on = push_str " ON " ⊕ on

  -- An operand of a set operation has no ORDER BY, LIMIT and OFFSET.
  abbrev pub unless_operand : Bool → Render Value → Render Value
  unless_operand true r = nothing
  unless_operand false r = r

module _ {Value : Type 0} (context : Context Value) where
  -- A literal: its placeholder, behind `render_cte_cast` in a CTE.
  abbrev pub place_literal : Bool → Value → DataType → Render Value
  place_literal true v type =
      cast_with (cast_type context.dialect type) (add_parameter context v type)
  place_literal false v type = add_parameter context v type

  unfoldable pub render_literal : Value → DataType → Render Value
  render_literal v type = reading (λ b. place_literal b.in_cte v type)

  unfoldable pub render_column : Option Text → Text → Render Value
  render_column qualifier name =
      reading (λ b. push_outcome (render_qualified_identifier context qualifier name b))

  -- An identifier with the words before it, or nothing.
  unfoldable pub render_alias : Option Text → Render Value
  render_alias none = nothing
  render_alias (some alias) = push_str " AS " ⊕ push_outcome (render_identifier context alias)

  unfoldable pub render_star : Option Text → Render Value
  render_star none = push_str "*"
  render_star (some name) =
      reading (λ b. push_outcome (render_qualifier context name b)) ⊕ push_str ".*"

  abbrev pub number : ℕ → Render Value
  number n = add_parameter context (context.json.from_u64 n) DataType.int

  unfoldable pub build_limit_offset : SqlDialect → Option ℕ → Option ℕ → Render Value
  build_limit_offset SqlDialect.mysql (some limit) (some offset) =
      push_str " LIMIT " ⊕ number offset ⊕ push_str ", " ⊕ number limit
  build_limit_offset SqlDialect.mysql (some limit) none = push_str " LIMIT " ⊕ number limit
  build_limit_offset SqlDialect.mysql none (some offset) =
      push_str " LIMIT " ⊕ number offset ⊕ push_str ", 18446744073709551615"
  build_limit_offset SqlDialect.sqlite none (some offset) =
      push_str " LIMIT -1 OFFSET " ⊕ number offset
  build_limit_offset _ (some limit) (some offset) =
      push_str " LIMIT " ⊕ number limit ⊕ push_str " OFFSET " ⊕ number offset
  build_limit_offset _ (some limit) none = push_str " LIMIT " ⊕ number limit
  build_limit_offset _ none (some offset) = push_str " OFFSET " ⊕ number offset
  build_limit_offset _ none none = nothing

  -- The test of `build_select` before `DISTINCT ON`.
  abbrev pub require_postgres : Render Value
  require_postgres =
      if is_postgres context.dialect
      then nothing
      else fail (compilation_error "unsupported_distinct_on")

  abbrev pub enclose_cte : Text → Render Value → Render Value
  enclose_cte name r =
      push_outcome (render_identifier context name) ⊕ push_str " AS (" ⊕ within_cte r ⊕ push_str ")"
