-- ===== src/Compile/Builder.antt =====
-- The state of the query builder, its parameters, its alias scopes and its identifiers:
-- crates/vlorql-core/src/compile/builder/mod.rs, and the helpers of clause.rs beside it.
pub mod Keywords
pub mod Clauses
pub mod Queries
pub mod Parameters
pub mod Placeholders
pub mod Cache
pub mod Bindings
pub mod Names
use vlor_ql.Common.{
  ℕ, zero, suc, Bool, true, false, ◌&&◌, Option, none, some, List, [], ◌∷◌, ◌++◌, map,
  if◌then◌else◌, any, length, is_empty,
}
use vlor_ql.Common.Text.{Text, bytes, ◌==◌}
use vlor_ql.Compile.Dialect.{DialectConfig, is_indexed, quote_with, is_word, upper}
use vlor_ql.Compile.Sql.{
  Fragment, placeholder, Parameter, ParamCache, AliasMap, Builder, done, Render, ◌⊕◌, nothing,
  Outcome, ok, err, compilation_error, push_code, fail, reading,
}
use vlor_ql.Schema.Plan.{
  FromClause, JoinClauses, OptJoinClauses, QueryPlan, joins_nil, joins_cons, no_joins, some_joins,
  query_plan,
}
use vlor_ql.Schema.Types.{DataType, SqlDialect, type_eq}

-- What the builder uses of `serde_json`: the text of a value, and the values of a number and a string.
pub record Json (Value : Type 0) : Type 0 where
  pub to_string : Value → Text
  pub from_u64 : ℕ → Value
  pub from_string : Text → Value

-- The part of a builder that does not change.
pub record Context (Value : Type 0) : Type 0 where
  pub json : Json Value
  pub config : DialectConfig
  pub dialect : SqlDialect

-- `param_cache.get(&key)`
unfoldable pub cache_get : ParamCache → Text → DataType → Option ℕ
cache_get [] text type = none
cache_get ((key, key_type, index) ∷ cache) text type =
    let rest = cache_get cache text type in
    if key == text && type_eq key_type type then some index else rest

-- `map.get(name)`
unfoldable pub alias_get : AliasMap → Text → Option Text
alias_get [] name = none
alias_get ((key, effective) ∷ entries) name =
    let rest = alias_get entries name in if key == name then some effective else rest

-- `map.entry(name).or_insert_with(..)`
abbrev or_insert_found : Option Text → Text → Text → AliasMap → AliasMap
or_insert_found (some _) name effective entries = entries
or_insert_found none name effective entries = (name, effective) ∷ entries

unfoldable pub or_insert : Text → Text → AliasMap → AliasMap
unfolding alias_get
or_insert name effective entries = or_insert_found (alias_get entries name) name effective entries

unfoldable pub collect_aliases : {Value : Type 0} → FromClause Value → AliasMap → AliasMap
unfolding or_insert
collect_aliases (FromClause.table name none) entries = or_insert name name entries
collect_aliases (FromClause.table name (some alias)) entries =
    (alias, alias) ∷ or_insert name alias entries
collect_aliases (FromClause.subquery _ none) entries = entries
collect_aliases (FromClause.subquery _ (some alias)) entries = (alias, alias) ∷ entries

unfoldable pub collect_join_aliases : {Value : Type 0} → JoinClauses Value → AliasMap → AliasMap
unfolding collect_aliases
collect_join_aliases joins_nil entries = entries
collect_join_aliases (joins_cons _ right _ joins) entries =
    collect_join_aliases joins (collect_aliases right entries)

unfoldable pub alias_scope : {Value : Type 0} → QueryPlan Value → AliasMap
unfolding collect_join_aliases
alias_scope (query_plan _ _ _ from _ _ _ _ _ _ no_joins _ _) = collect_aliases from []
alias_scope (query_plan _ _ _ from _ _ _ _ _ _ (some_joins joins) _ _) =
    collect_join_aliases joins (collect_aliases from [])

-- `find_map` over the scopes from the top of the stack, at most `max_depth` of them.
abbrev or_else : Option Text → Option Text → Option Text
or_else none o = o
or_else (some t) o = some t

unfoldable pub find_alias : Option ℕ → List AliasMap → Text → Option Text
unfolding alias_get
find_alias depth [] name = none
find_alias none (m ∷ ms) name = or_else (alias_get m name) (find_alias none ms name)
find_alias (some zero) (m ∷ ms) name = none
find_alias (some (suc n)) (m ∷ ms) name = or_else (alias_get m name) (find_alias (some n) ms name)

abbrev alias_or_self : Option Text → Text → Text
alias_or_self none name = name
alias_or_self (some effective) name = effective

unfoldable pub resolve_alias : List AliasMap → Text → Option ℕ → Text
unfolding find_alias
resolve_alias scopes name depth = alias_or_self (find_alias depth scopes name) name

abbrev pub reserved_keywords : List Text
reserved_keywords =
    bytes "ALL"
    ∷ bytes "AND"
    ∷ bytes "AS"
    ∷ bytes "BETWEEN"
    ∷ bytes "BY"
    ∷ bytes "CASE"
    ∷ bytes "CROSS"
    ∷ bytes "DELETE"
    ∷ bytes "DESC"
    ∷ bytes "DISTINCT"
    ∷ bytes "DROP"
    ∷ bytes "ELSE"
    ∷ bytes "END"
    ∷ bytes "ESCAPE"
    ∷ bytes "EXCEPT"
    ∷ bytes "EXISTS"
    ∷ bytes "FALSE"
    ∷ bytes "FROM"
    ∷ bytes "FULL"
    ∷ bytes "GROUP"
    ∷ bytes "HAVING"
    ∷ bytes "IN"
    ∷ bytes "INDEX"
    ∷ bytes "INNER"
    ∷ bytes "INSERT"
    ∷ bytes "INTERSECT"
    ∷ bytes "INTO"
    ∷ bytes "IS"
    ∷ bytes "JOIN"
    ∷ bytes "LEFT"
    ∷ bytes "LIKE"
    ∷ bytes "LIMIT"
    ∷ bytes "NOT"
    ∷ bytes "NULL"
    ∷ bytes "OFFSET"
    ∷ bytes "ON"
    ∷ bytes "OR"
    ∷ bytes "ORDER"
    ∷ bytes "OUTER"
    ∷ bytes "RIGHT"
    ∷ bytes "SELECT"
    ∷ bytes "SET"
    ∷ bytes "TABLE"
    ∷ bytes "THEN"
    ∷ bytes "TRUE"
    ∷ bytes "UNION"
    ∷ bytes "UNIQUE"
    ∷ bytes "UPDATE"
    ∷ bytes "VALUES"
    ∷ bytes "WHEN"
    ∷ bytes "WHERE"
    ∷ bytes "WITH"
    ∷ []

-- The binary search of the source in its sorted list.
unfoldable pub is_reserved_keyword : Text → Bool
is_reserved_keyword ident = any (λ keyword. keyword == map upper ident) reserved_keywords

-- `validate_unquoted_identifier`, and then the identifier itself.
unfoldable pub unquoted_identifier : Text → Outcome
unfolding is_word is_reserved_keyword compilation_error
unquoted_identifier ident =
    if is_word ident
    then (if is_reserved_keyword ident
        then err (compilation_error "reserved_keyword_unquoted")
        else ok ident)
    else err (compilation_error "invalid_unquoted_identifier")

-- `QueryBuilder::quote_identifier`
unfoldable pub quote_identifier : DialectConfig → Text → Outcome
unfolding unquoted_identifier quote_with compilation_error
quote_identifier config ident =
    if is_empty ident
    then err (compilation_error "empty_identifier")
    else (if config.identifier_quote == bytes "never"
        then unquoted_identifier ident
        else ok (quote_with config.identifier_quote ident))

abbrev dotted : Outcome → Outcome → Outcome
dotted (err e) q = err e
dotted (ok t) (err e) = err e
dotted (ok t) (ok q) = ok (q ++ bytes "." ++ t)

-- `None` in a CTE, else one scope.
abbrev max_depth : Bool → Option ℕ
max_depth true = none
max_depth false = some 1

abbrev pub pop : List AliasMap → List AliasMap
pop [] = []
pop (m ∷ ms) = ms

module _ {Value : Type 0} where
  unfoldable pub push_alias_scope : QueryPlan Value → Render Value
  unfolding alias_scope
  push_alias_scope plan b = done [] (record b { alias_stack = alias_scope plan ∷ b.alias_stack })

  -- `self.alias_stack.pop()`
  unfoldable pub pop_alias_scope : Render Value
  pop_alias_scope b = done [] (record b { alias_stack = pop b.alias_stack })

  unfoldable pub set_in_cte : Bool → Render Value
  set_in_cte flag b = done [] (record b { in_cte = flag })

module _ {Value : Type 0} (context : Context Value) where
  abbrev placeholder_of : Option ℕ → Value → Text → DataType → Render Value
  placeholder_of (some index) v text type b =
      done (placeholder (if is_indexed context.config then suc index else 0) ∷ []) b
  placeholder_of none v text type b =
      let index = length b.parameters in
      done (placeholder (suc index) ∷ []) (record b {
        parameters = b.parameters ++ record { value = v; data_type = type } ∷ [];
        param_cache = (text, type, index) ∷ b.param_cache;
      })

  -- The placeholder that it returns is what it writes.
  unfoldable pub add_parameter : Value → DataType → Render Value
  unfolding is_indexed cache_get
  add_parameter v type b =
      let text = context.json.to_string v in
      placeholder_of (cache_get b.param_cache text type) v text type b

  -- An identifier as it is, quoted.
  unfoldable pub render_identifier : Text → Outcome
  unfolding quote_identifier
  render_identifier ident = quote_identifier context.config ident

  -- A qualifier, resolved and quoted.
  unfoldable pub render_qualifier : Text → Builder Value → Outcome
  unfolding quote_identifier resolve_alias
  render_qualifier qualifier b =
      quote_identifier context.config (resolve_alias b.alias_stack qualifier (max_depth b.in_cte))

  unfoldable pub render_qualified_identifier : Option Text → Text → Builder Value → Outcome
  unfolding render_identifier render_qualifier
  render_qualified_identifier none ident b = render_identifier ident
  render_qualified_identifier (some qualifier) ident b =
      dotted (render_identifier ident) (render_qualifier qualifier b)
