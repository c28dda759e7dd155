-- ===== src/Compile/Builder/Placeholders/Clauses.antt =====
-- The parts of clauses (crates/vlorql-core/src/compile/builder/clause.rs and expr.rs) keep the parameters
-- and the placeholders in step.
use vlor_ql.Common.{ℕ, Bool, true, false, Option, none, some, ◌≡◌, inl, inr, Bool-cases}
use vlor_ql.Common.Text.{Text}
use vlor_ql.Compile.Builder.{Context, add_parameter}
use vlor_ql.Compile.Builder.Clauses.{
  cast_with, place_literal, render_literal, render_column, render_alias, render_star, number,
  build_limit_offset, distinct_word, space_if, direction, require_postgres, with_words, enclose_cte,
  on_clause, unless_operand,
}
use vlor_ql.Compile.Builder.Keywords.{is_postgres, cast_type}
use vlor_ql.Compile.Builder.Cache.{add_parameter-IsSound}
use vlor_ql.Compile.Dialect.{is_indexed}
use vlor_ql.Compile.Sql.{Render}
use vlor_ql.Schema.Types.{DataType, SqlDialect}
use vlor_ql.Compile.Builder.Placeholders.Scopes.{
  Keeps, ◌▷◌, Keeps-nothing, Keeps-fail, Keeps-push_code, Keeps-push_str, Keeps-push_outcome,
  Keeps-reading, Keeps-within_cte,
}

module _ {Value : Type 0} {context : Context Value} where
  pub Keeps-distinct_word : (b : Bool) → Keeps context (distinct_word b)
  Keeps-distinct_word true = Keeps-push_str _
  Keeps-distinct_word false = Keeps-nothing

  pub Keeps-space_if : (b : Bool) → Keeps context (space_if b)
  Keeps-space_if true = Keeps-push_str _
  Keeps-space_if false = Keeps-nothing

  pub Keeps-direction : (b : Bool) → Keeps context (direction b)
  Keeps-direction true = Keeps-push_str _
  Keeps-direction false = Keeps-push_str _

  pub Keeps-with_words : (b : Bool) → Keeps context (with_words b)
  Keeps-with_words true = Keeps-push_str _
  Keeps-with_words false = Keeps-push_str _

  pub Keeps-on_clause :
      (b : Bool) {r : Render Value} → Keeps context r → Keeps context (on_clause b r)
  Keeps-on_clause true k = Keeps-nothing
  Keeps-on_clause false k = Keeps-push_str _ ▷ k

  pub Keeps-unless_operand :
      (b : Bool) {r : Render Value} → Keeps context r → Keeps context (unless_operand b r)
  Keeps-unless_operand true k = Keeps-nothing
  Keeps-unless_operand false k = k

  pub Keeps-require_postgres : Keeps context (require_postgres context)
  Keeps-require_postgres = elim (Bool-cases (is_postgres context.dialect)) [
    | inl e ↦ rw e Keeps-nothing
    | inr e ↦ rw e (Keeps-fail _)
  ]

  pub Keeps-render_column :
      (qualifier : Option Text) (name : Text) → Keeps context (render_column context qualifier name)
  unfolding render_column
  Keeps-render_column qualifier name = Keeps-reading (λ b. Keeps-push_outcome _)

  pub Keeps-render_alias : (alias : Option Text) → Keeps context (render_alias context alias)
  unfolding render_alias
  Keeps-render_alias none = Keeps-nothing
  Keeps-render_alias (some alias) = Keeps-push_str _ ▷ Keeps-push_outcome _

  pub Keeps-render_star : (name : Option Text) → Keeps context (render_star context name)
  unfolding render_star
  Keeps-render_star none = Keeps-push_str _
  Keeps-render_star (some name) = Keeps-reading (λ b. Keeps-push_outcome _) ▷ Keeps-push_str _

  pub Keeps-enclose_cte :
      (name : Text) {r : Render Value}
      → Keeps context r
      → Keeps context (enclose_cte context name r)
  Keeps-enclose_cte name k =
      Keeps-push_outcome _ ▷ Keeps-push_str _ ▷ Keeps-within_cte k ▷ Keeps-push_str _

module _ {Value : Type 0} (context : Context Value)
    (indexed : is_indexed context.config ≡ true) where
  pub Keeps-add_parameter :
      (v : Value) (type : DataType) → Keeps context (add_parameter context v type)
  Keeps-add_parameter v type = record { sound = add_parameter-IsSound context indexed v type }

  Keeps-cast_with :
      (type : Option Text) {r : Render Value} → Keeps context r → Keeps context (cast_with type r)
  Keeps-cast_with none k = k
  Keeps-cast_with (some type) k =
      Keeps-push_str _ ▷ k ▷ Keeps-push_str _ ▷ Keeps-push_code _ ▷ Keeps-push_str _

  Keeps-place_literal :
      (in_cte : Bool) (v : Value) (type : DataType)
      → Keeps context (place_literal context in_cte v type)
  Keeps-place_literal true v type =
      Keeps-cast_with (cast_type context.dialect type) (Keeps-add_parameter v type)
  Keeps-place_literal false v type = Keeps-add_parameter v type

  pub Keeps-render_literal :
      (v : Value) (type : DataType) → Keeps context (render_literal context v type)
  unfolding render_literal
  Keeps-render_literal v type = Keeps-reading (λ b. Keeps-place_literal b.in_cte v type)

  Keeps-number : (n : ℕ) → Keeps context (number context n)
  Keeps-number n = Keeps-add_parameter _ DataType.int

  pub Keeps-build_limit_offset :
      (dialect : SqlDialect) (limit offset : Option ℕ)
      → Keeps context (build_limit_offset context dialect limit offset)
  unfolding build_limit_offset
  Keeps-build_limit_offset SqlDialect.mysql (some l) (some o) =
      Keeps-push_str _ ▷ Keeps-number o ▷ Keeps-push_str _ ▷ Keeps-number l
  Keeps-build_limit_offset SqlDialect.mysql (some l) none = Keeps-push_str _ ▷ Keeps-number l
  Keeps-build_limit_offset SqlDialect.mysql none (some o) =
      Keeps-push_str _ ▷ Keeps-number o ▷ Keeps-push_str _
  Keeps-build_limit_offset SqlDialect.mysql none none = Keeps-nothing
  Keeps-build_limit_offset SqlDialect.sqlite none (some o) = Keeps-push_str _ ▷ Keeps-number o
  Keeps-build_limit_offset SqlDialect.postgres none (some o) = Keeps-push_str _ ▷ Keeps-number o
  Keeps-build_limit_offset SqlDialect.sqlite (some l) (some o) =
      Keeps-push_str _ ▷ Keeps-number l ▷ Keeps-push_str _ ▷ Keeps-number o
  Keeps-build_limit_offset SqlDialect.postgres (some l) (some o) =
      Keeps-push_str _ ▷ Keeps-number l ▷ Keeps-push_str _ ▷ Keeps-number o
  Keeps-build_limit_offset SqlDialect.sqlite (some l) none = Keeps-push_str _ ▷ Keeps-number l
  Keeps-build_limit_offset SqlDialect.postgres (some l) none = Keeps-push_str _ ▷ Keeps-number l
  Keeps-build_limit_offset SqlDialect.sqlite none none = Keeps-nothing
  Keeps-build_limit_offset SqlDialect.postgres none none = Keeps-nothing
