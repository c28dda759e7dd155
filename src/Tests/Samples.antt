-- ===== src/Tests/Samples.antt =====
-- A schema of two tables, a policy that hides one column, and small plans. A JSON value is a number
-- here.
use vlor_ql.Common.{ℕ, length, true, false, none, some, [], ◌∷◌}
use vlor_ql.Common.Text.{Text, bytes}
use vlor_ql.Compile.Builder.{Json, Context}
use vlor_ql.Compile.Dialect.{default_postgres, default_sqlite}
use vlor_ql.Policy.Config.{PolicyConfig, RowFilter}
use vlor_ql.Schema.Snapshot.{ColumnSchema, TableSchema, SchemaMetadata, SchemaSnapshot, new}
use vlor_ql.Schema.Types.{DataType, ComparisonOperator, SetOperation, SqlDialect}
use vlor_ql.Schema.Plan.{
  Expression, Predicate, OptPredicate, Projection, FromClause, QueryPlan, literal, column_ref,
  no_exprs, no_terms, comparison, exists, no_pred, some_pred, select_nil, select_cons, no_joins,
  no_ctes, no_set_operation, some_set_operation, query_plan,
}

abbrev pub text_column : Text → ColumnSchema
text_column n = record {
  name = n;
  data_type = DataType.string;
  nullable = false;
  description = none;
  is_primary_key = false;
  foreign_key = none;
}

abbrev pub id : Text
id = bytes "id"

abbrev pub email : Text
email = bytes "email"

abbrev pub secret : Text
secret = bytes "secret"

abbrev pub users : TableSchema
users = record {
  name = bytes "users";
  columns = text_column id ∷ text_column email ∷ text_column secret ∷ [];
  description = none;
  primary_key = none;
}

abbrev pub accounts : TableSchema
accounts = record {
  name = bytes "accounts";
  columns = text_column id ∷ [];
  description = none;
  primary_key = none;
}

abbrev pub metadata : SchemaMetadata
metadata = record { version = none; source = none; generated_at = none }

abbrev pub snapshot : SchemaSnapshot
snapshot = new (users ∷ accounts ∷ []) metadata

abbrev pub column_of : Text → Text → Expression ℕ
column_of t c = column_ref (some t) c

abbrev pub equals : Expression ℕ → ℕ → Predicate ℕ
equals e v = comparison e ComparisonOperator.eq (literal v DataType.int)

-- Rows of the tenant 7.
abbrev pub tenant : RowFilter ℕ
tenant = record { condition = equals (column_of users.name id) 7; description = [] }

abbrev pub config : PolicyConfig ℕ
config = record {
  table_policies =
      (
        users.name,
        record {
          allowed = true;
          allowed_columns = none;
          denied_columns = [];
          row_filter = some tenant;
        },
      )
      ∷ [];
  global_denied_columns = bytes "users.secret" ∷ [];
  row_filters = tenant ∷ [];
}

abbrev pub no_policy : PolicyConfig ℕ
no_policy = record { table_policies = []; global_denied_columns = []; row_filters = [] }

-- `SELECT users.<col> FROM users <filter>`
abbrev pub select_from_users : Text → OptPredicate ℕ → QueryPlan ℕ
select_from_users c filter =
    query_plan (select_cons (Projection.column (some users.name) c none) select_nil) false no_exprs
      (FromClause.table users.name none) filter no_exprs no_pred no_terms none none no_joins no_ctes
      no_set_operation

abbrev pub emails : QueryPlan ℕ
emails = select_from_users email no_pred

abbrev pub secrets : QueryPlan ℕ
secrets = select_from_users secret no_pred

-- A plan whose `WHERE` reads secrets in a subquery.
abbrev pub hidden_secrets : QueryPlan ℕ
hidden_secrets = select_from_users email (some_pred (exists secrets))

-- `SELECT users.email FROM users UNION SELECT users.secret FROM users`
abbrev pub union_secrets : QueryPlan ℕ
union_secrets =
    query_plan (select_cons (Projection.column (some users.name) email none) select_nil) false
      no_exprs (FromClause.table users.name none) no_pred no_exprs no_pred no_terms none none
      no_joins no_ctes (some_set_operation SetOperation.union secrets)

abbrev pub json : Json ℕ
json = record { to_string = λ v. v ∷ []; from_u64 = λ n. n; from_string = λ t. length t }

abbrev pub postgres_context : Context ℕ
postgres_context = record { json = json; config = default_postgres; dialect = SqlDialect.postgres }

abbrev pub sqlite_context : Context ℕ
sqlite_context = record { json = json; config = default_sqlite; dialect = SqlDialect.sqlite }
