-- ===== src/Compile/Sql.antt =====
-- What the query builder writes and keeps: the text in fragments, the bind parameters, and the results
-- of rendering. `QueryBuilder` is in crates/vlorql-core/src/compile/builder/mod.rs. A function of the
-- source that appends to a buffer is a value of `Render`, which returns what it appends; `◌⊕◌` runs one
-- after the other, and `?` ends the rendering at the first error.
use vlor_ql.Common.{ℕ, Bool, List, [], ◌∷◌, ◌++◌}
use vlor_ql.Common.Text.{Text, bytes}
use vlor_ql.Compile.Dialect.{DialectConfig, placeholder_str}
use vlor_ql.Errors.{VlorQlError, compilation, unsupported_dialect_feature, no_details}
use vlor_ql.Schema.Types.{DataType}
use Prim.Native.String.{String}

-- A piece of text, or `placeholder_str` of an index.
pub data Fragment : Type 0 where
  code : Text → Fragment
  placeholder : ℕ → Fragment

abbrev pub Sql : Type 0
Sql = List Fragment

-- The `String` that the fragments stand for.
unfoldable pub sql_text : DialectConfig → Sql → Text
sql_text config [] = []
sql_text config (code t ∷ sql) = t ++ sql_text config sql
sql_text config (placeholder i ∷ sql) = placeholder_str config i ++ sql_text config sql

pub record Parameter (Value : Type 0) : Type 0 where
  pub value : Value
  pub data_type : DataType

-- `HashMap<(String, DataType), usize>`
abbrev pub ParamCache : Type 0
ParamCache = List (Text × DataType × ℕ)

-- `HashMap<String, String>`: an association list, the newest entry of a key in front.
abbrev pub AliasMap : Type 0
AliasMap = List (Text × Text)

-- The part of a builder that changes. The top of the alias stack is its head.
pub record Builder (Value : Type 0) : Type 0 where
  pub parameters : List (Parameter Value)
  pub alias_stack : List AliasMap
  pub param_cache : ParamCache
  pub in_cte : Bool

pub data Rendered (Value : Type 0) : Type 0 where
  done : Sql → Builder Value → Rendered Value
  failed : VlorQlError → Rendered Value

abbrev pub Render : Type 0 → Type 0
Render Value = Builder Value → Rendered Value

-- `Result<String, VlorQLError>`
pub data Outcome : Type 0 where
  ok : Text → Outcome
  err : VlorQlError → Outcome

-- `compilation_error(feature, ..)`, without its details
unfoldable pub compilation_error : String → VlorQlError
compilation_error feature = compilation (unsupported_dialect_feature (bytes feature)) no_details

-- What the rest of a rendering does with the text written so far.
abbrev pub prefix_with : {Value : Type 0} → Sql → Rendered Value → Rendered Value
prefix_with sql (done rest b) = done (sql ++ rest) b
prefix_with sql (failed e) = failed e

abbrev pub continue_with : {Value : Type 0} → Rendered Value → Render Value → Rendered Value
continue_with (done sql b) r = prefix_with sql (r b)
continue_with (failed e) r = failed e

infixr 20 ◌⊕◌
unfoldable pub ◌⊕◌ : {Value : Type 0} → Render Value → Render Value → Render Value
◌⊕◌ r s b = continue_with (r b) s

module _ {Value : Type 0} where
  unfoldable pub nothing : Render Value
  nothing b = done [] b

  unfoldable pub push_code : Text → Render Value
  push_code t b = done (code t ∷ []) b

  -- `buf.push_str("..")`
  unfoldable pub push_str : String → Render Value
  push_str s = push_code (bytes s)

  unfoldable pub fail : VlorQlError → Render Value
  fail e b = failed e

  abbrev pub push_outcome : Outcome → Render Value
  push_outcome (ok t) = push_code t
  push_outcome (err e) = fail e

  -- `buf.push(..)` of the value of an expression that reads the builder.
  unfoldable pub reading : (Builder Value → Render Value) → Render Value
  reading f b = f b b
