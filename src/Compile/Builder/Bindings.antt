-- ===== src/Compile/Builder/Bindings.antt =====
-- The placeholders of a built query against its parameters: `build` and `add_parameter` of
-- crates/vlorql-core/src/compile/builder/mod.rs, and `build_query` of clause.rs.
use vlor_ql.Common.{
  ℕ, zero, suc, ◌≤◌, ◌<◌, true, false, some, [], ◌∷◌, ◌≡◌, refl, ap, ◌∙◌, ◌↔◌, inl, inr, arith,
  Option-cases, length, get_elem?, All-Member, Member,
}
use vlor_ql.Compile.Builder.{Json, Context, cache_get, add_parameter, push_alias_scope, alias_scope}
use vlor_ql.Compile.Builder.Cache.{add_parameter-binds}
use vlor_ql.Compile.Builder.Clauses.{render_literal, place_literal}
use vlor_ql.Compile.Builder.Parameters.{IsCached, HasKey, Extends, InRange, Runs-then}
use vlor_ql.Compile.Builder.Placeholders.{build_query_impl-Keeps}
use vlor_ql.Compile.Builder.Placeholders.Scopes.{Runs-push_alias_scope}
use vlor_ql.Compile.Builder.Queries.{render_expression, build_query, build, empty_builder}
use vlor_ql.Compile.Dialect.{DialectConfig, is_indexed, dialect_from_name}
use vlor_ql.Compile.Sql.{placeholder, Sql, Parameter, Builder, done, reading}
use vlor_ql.Schema.Plan.{QueryPlan, literal}
use vlor_ql.Schema.Types.{DataType}

-- Under a placeholder with an index, `build_query` keeps the cache in agreement with the parameters, keeps
-- every parameter at its place, and leaves the alias scopes and the CTE flag as they were.
pub build_query-keeps :
    {Value : Type 0} (context : Context Value) (plan : QueryPlan Value) (b c : Builder Value)
    (sql : Sql)
    → is_indexed context.config ≡ true
    → IsCached context.json b
    → build_query context plan b ≡ done sql c
    → IsCached context.json c
      × ((i : ℕ) (p : Parameter Value)
          → get_elem? b.parameters i ≡ some p
          → get_elem? c.parameters i ≡ some p)
      × (c.alias_stack ≡ b.alias_stack)
      × (c.in_cte ≡ b.in_cte)
unfolding build_query
build_query-keeps context plan b c sql indexed h e =
    let x = (build_query_impl-Keeps context indexed plan false).sound b c sql h e in
    (x.cached, x.keeps, x.stack_after, x.flag_after)

empty_builder-IsCached : {Value : Type 0} (json : Json Value) → IsCached json empty_builder
unfolding empty_builder cache_get
empty_builder-IsCached json = record {
  found = λ text type i e. absurd cc;
  listed = λ i p e. absurd cc;
}

build-Extends :
    {Value : Type 0} (json : Json Value) (config : DialectConfig) (plan : QueryPlan Value)
    (b : Builder Value) (sql : Sql)
    → is_indexed config ≡ true
    → build json config plan ≡ done sql b
    → Extends json (λ s. alias_scope plan ∷ s) (λ f. f) empty_builder b sql
unfolding build build_query
build-Extends {Value} json config plan b sql indexed e =
    elim (Option-cases (dialect_from_name config.name)) [
      | inl unknown ↦ absurd (let x = rw unknown at e in cc)
      | inr (dialect, known) ↦
          let context : Context Value = record {
            json = json;
            config = config;
            dialect = dialect;
          } in
          Runs-then json (λ s. alias_scope plan ∷ s) (λ s. s) (λ f. f) (λ f. f)
            (push_alias_scope plan) (build_query context plan) (Runs-push_alias_scope context plan)
            (build_query_impl-Keeps context indexed plan false).sound empty_builder b sql
            (empty_builder-IsCached json) (rw known at e)
    ]

-- Under a placeholder with an index, the indices of the placeholders in a built query are exactly the
-- numbers from 1 to the number of its parameters: every placeholder has a parameter, and every parameter
-- has a placeholder.
pub build-placeholders :
    {Value : Type 0} (json : Json Value) (config : DialectConfig) (plan : QueryPlan Value)
    (b : Builder Value) (sql : Sql)
    → is_indexed config ≡ true
    → build json config plan ≡ done sql b
    → (i : ℕ) → Member (placeholder i) sql ↔ ((1 ≤ i) × (i ≤ length b.parameters))
unfolding empty_builder
build-placeholders json config plan b sql indexed e i =
    let x = build-Extends json config plan b sql indexed e in
    (λ m. All-Member (InRange json (length b.parameters)) sql x.in_range m, placed i x.used)
  where
    placed :
        (i : ℕ)
        → ((k : ℕ) → 0 ≤ k → k < length b.parameters → Member (placeholder (suc k)) sql)
        → (1 ≤ i) × (i ≤ length b.parameters)
        → Member (placeholder i) sql
    placed zero used h = absurd (let l = h.0 in omega arith)
    placed (suc k) used h = used k (omega arith) (let u = h.1 in omega arith)

-- Under a placeholder with an index, no two parameters of a built query have the same JSON text and the
-- same type.
pub build-distinct :
    {Value : Type 0} (json : Json Value) (config : DialectConfig) (plan : QueryPlan Value)
    (b : Builder Value) (sql : Sql)
    → is_indexed config ≡ true
    → build json config plan ≡ done sql b
    → (i j : ℕ) (p q : Parameter Value) → get_elem? b.parameters i ≡ some p
    → get_elem? b.parameters j ≡ some q
    → json.to_string p.value ≡ json.to_string q.value
    → p.data_type ≡ q.data_type
    → i ≡ j
build-distinct json config plan b sql indexed e i j p q at_i at_j text type =
    let x = build-Extends json config plan b sql indexed e in
    let first = x.cached.listed i p at_i in
    let second = x.cached.listed j q at_j in let same : some i ≡ some j = cc in cc

literal_outside :
    {Value : Type 0} (context : Context Value) (v : Value) (type : DataType) (b : Builder Value)
    → b.in_cte ≡ false
    → render_literal context v type b ≡ add_parameter context v type b
unfolding render_literal reading
literal_outside context v type b outside = ap (λ flag. place_literal context flag v type b) outside

literal_rendered :
    {Value : Type 0} (context : Context Value) (v : Value) (type : DataType) (b : Builder Value)
    → render_expression context (literal v type) b ≡ render_literal context v type b
unfolding render_expression
literal_rendered context v type b = refl

-- Under a placeholder with an index, a literal that is rendered outside a CTE becomes the placeholder of a
-- parameter that has the text and the type of the literal.
pub render_literal-binds :
    {Value : Type 0} (context : Context Value) (v : Value) (type : DataType) (b : Builder Value)
    → is_indexed context.config ≡ true
    → IsCached context.json b
    → b.in_cte ≡ false
    → (i : ℕ) × (c : Builder Value) × (render_expression context (literal v type) b
        ≡ done (placeholder (suc i) ∷ []) c)
      × HasKey context.json c.parameters i (context.json.to_string v) type
render_literal-binds context v type b indexed h outside =
    let (i, c, e, key) = add_parameter-binds context indexed v type b h in
    (i, c, literal_rendered context v type b ∙ literal_outside context v type b outside ∙ e, key)
