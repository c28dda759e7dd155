-- ===== src/Errors.antt =====
-- Structured errors: crates/vlorql-core/src/errors/kinds.rs and vlorql_error.rs.
pub mod Codes
use vlor_ql.Common.{ℕ, Bool, true, false, List}
use vlor_ql.Common.Text.{Text}

pub data ValidationErrorKind : Type 0 where
  invalid_json : ValidationErrorKind
  missing_field : Text → ValidationErrorKind
  invalid_table : Text → List Text → ValidationErrorKind
  invalid_column : Text → Text → List Text → ValidationErrorKind
  invalid_function : Text → List Text → ValidationErrorKind
  type_mismatch : Text → Text → Text → ValidationErrorKind
  dialect_feature_disabled : Text → ValidationErrorKind
  too_many_joins : ℕ → ℕ → ValidationErrorKind
  aggregation_mismatch : Text → ValidationErrorKind
  multiple_errors : ℕ → ValidationErrorKind

pub data PolicyErrorKind : Type 0 where
  table_denied : Text → PolicyErrorKind
  column_denied : Text → Text → PolicyErrorKind

pub data CompilationErrorKind : Type 0 where
  unsupported_dialect_feature : Text → CompilationErrorKind
  invalid_placeholder : ℕ → CompilationErrorKind

pub data SchemaErrorKind : Type 0 where
  table_not_found : Text → SchemaErrorKind
  table_not_in_scope : Text → SchemaErrorKind
  column_not_found : Text → Text → SchemaErrorKind

pub data AuditErrorKind : Type 0 where
  identifier_not_found : Text → Text → AuditErrorKind
  suspicious_pattern : Text → Text → AuditErrorKind

pub data LlmErrorKind : Type 0 where
  api_error : ℕ → Text → LlmErrorKind
  timeout : LlmErrorKind
  parse_error : Text → LlmErrorKind

pub data ConfigErrorKind : Type 0 where
  missing_llm_client missing_schema : ConfigErrorKind
  invalid_dialect missing_api_key : Text → ConfigErrorKind
  empty_model : ConfigErrorKind
  config_file_error : Text → Text → ConfigErrorKind
  internal_error : Text → ConfigErrorKind

-- The static strings by which the policy engine names a reason or a kind of report.
pub data Label : Type 0 where
  schema_label policy_label table_policy_denied global_denied_column table_denied_column : Label
  column_not_in_allowlist : Label

-- The `json!` objects that accompany an error.
pub data Details : Type 0 where
  no_details : Details
  table_reason : Text → Label → Details
  column_reason : Text → Text → Label → Details
  available_tables : Text → List Text → Details
  available_columns : Text → Text → List Text → Details

pub data VlorQlError : Type 0 where
  validation : ValidationErrorKind → Details → VlorQlError
  audit : AuditErrorKind → Details → VlorQlError
  policy : PolicyErrorKind → Details → VlorQlError
  compilation : CompilationErrorKind → Details → VlorQlError
  schema : SchemaErrorKind → Details → VlorQlError
  llm : LlmErrorKind → Details → VlorQlError
  config : ConfigErrorKind → Details → VlorQlError

unfoldable pub is_retryable : VlorQlError → Bool
is_retryable (validation (dialect_feature_disabled _) _) = false
is_retryable (validation (too_many_joins _ _) _) = false
is_retryable (validation (multiple_errors _) _) = false
is_retryable (validation _ _) = true
is_retryable (audit (identifier_not_found _ _) _) = true
is_retryable (audit (suspicious_pattern _ _) _) = false
is_retryable (schema _ _) = true
is_retryable (policy _ _) = false
is_retryable (compilation _ _) = false
is_retryable (llm _ _) = true
is_retryable (config _ _) = false
