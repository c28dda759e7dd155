-- ===== src/Schema/Dialect.antt =====
-- What a SQL dialect allows: crates/vlorql-core/src/schema/dialect.rs.
use vlor_ql.Common.{ℕ, Bool, Option, List}
use vlor_ql.Common.Text.{Text}
use vlor_ql.Schema.Types.{SqlDialect, JoinType, IdentifierQuoting}

pub record DialectProfile : Type 0 where
  pub dialect : SqlDialect
  pub quote_style : IdentifierQuoting
  pub supports_cte : Bool
  pub supports_window_functions : Bool
  pub supports_json_operations : Bool
  pub max_joins : Option ℕ
  pub allowed_join_types : List JoinType
  pub allowed_functions : List Text
  pub denied_functions : List Text
  pub max_group_by_columns : Option ℕ
  pub allow_distinct : Bool
  pub allow_select_distinct : Bool
  pub supports_offset : Bool
  pub supports_fetch : Bool
