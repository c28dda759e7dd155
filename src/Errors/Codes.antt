-- ===== src/Errors/Codes.antt =====
-- Codes and category names of errors: crates/vlorql-core/src/errors/vlorql_error.rs.
use vlor_ql.Common.{◌≡◌, refl, List, [], ◌∷◌}
use vlor_ql.Common.Lists.{any}
use vlor_ql.Common.Text.{Text, bytes, ◌==◌}
use vlor_ql.Errors.{
  aggregation_mismatch, api_error, audit, column_denied, column_not_found, compilation, config,
  config_file_error, dialect_feature_disabled, empty_model, identifier_not_found, internal_error,
  invalid_column, invalid_dialect, invalid_function, invalid_json, invalid_placeholder,
  invalid_table, llm, missing_api_key, missing_field, missing_llm_client, missing_schema,
  multiple_errors, parse_error, policy, schema, suspicious_pattern, table_denied, table_not_found,
  table_not_in_scope, timeout, too_many_joins, type_mismatch, unsupported_dialect_feature,
  validation, VlorQlError, is_retryable,
}

unfoldable pub error_code : VlorQlError → Text
error_code (validation invalid_json _) = bytes "V001"
error_code (validation (missing_field _) _) = bytes "V002"
error_code (validation (invalid_table _ _) _) = bytes "V003"
error_code (validation (invalid_column _ _ _) _) = bytes "V004"
error_code (validation (invalid_function _ _) _) = bytes "V005"
error_code (validation (type_mismatch _ _ _) _) = bytes "V006"
error_code (validation (dialect_feature_disabled _) _) = bytes "V007"
error_code (validation (too_many_joins _ _) _) = bytes "V008"
error_code (validation (aggregation_mismatch _) _) = bytes "V009"
error_code (validation (multiple_errors _) _) = bytes "V010"
error_code (audit (identifier_not_found _ _) _) = bytes "A001"
error_code (audit (suspicious_pattern _ _) _) = bytes "A002"
error_code (policy (table_denied _) _) = bytes "P001"
error_code (policy (column_denied _ _) _) = bytes "P002"
error_code (compilation (unsupported_dialect_feature _) _) = bytes "C001"
error_code (compilation (invalid_placeholder _) _) = bytes "C002"
error_code (schema (table_not_found _) _) = bytes "S001"
error_code (schema (column_not_found _ _) _) = bytes "S002"
error_code (schema (table_not_in_scope _) _) = bytes "S003"
error_code (llm (api_error _ _) _) = bytes "L001"
error_code (llm timeout _) = bytes "L002"
error_code (llm (parse_error _) _) = bytes "L003"
error_code (config missing_llm_client _) = bytes "G001"
error_code (config missing_schema _) = bytes "G002"
error_code (config (invalid_dialect _) _) = bytes "G003"
error_code (config (missing_api_key _) _) = bytes "G004"
error_code (config empty_model _) = bytes "G005"
error_code (config (config_file_error _ _) _) = bytes "G006"
error_code (config (internal_error _) _) = bytes "G007"

unfoldable pub kind_name : VlorQlError → Text
kind_name (validation _ _) = bytes "validation"
kind_name (audit _ _) = bytes "audit"
kind_name (policy _ _) = bytes "policy"
kind_name (compilation _ _) = bytes "compilation"
kind_name (schema _ _) = bytes "schema"
kind_name (llm _ _) = bytes "llm"
kind_name (config _ _) = bytes "config"

-- The codes after which the query is put to the model again.
abbrev pub retryable_codes : List Text
retryable_codes =
    bytes "V001"
    ∷ bytes "V002"
    ∷ bytes "V003"
    ∷ bytes "V004"
    ∷ bytes "V005"
    ∷ bytes "V006"
    ∷ bytes "V009"
    ∷ bytes "A001"
    ∷ bytes "S001"
    ∷ bytes "S002"
    ∷ bytes "S003"
    ∷ bytes "L001"
    ∷ bytes "L002"
    ∷ bytes "L003"
    ∷ []

-- Whether an error can be retried is told by its code.
error_code-is_retryable :
    (e : VlorQlError) → is_retryable e ≡ any (λ c. error_code e == c) retryable_codes
unfolding error_code is_retryable any ◌==◌
error_code-is_retryable (validation invalid_json _) = refl
error_code-is_retryable (validation (missing_field _) _) = refl
error_code-is_retryable (validation (invalid_table _ _) _) = refl
error_code-is_retryable (validation (invalid_column _ _ _) _) = refl
error_code-is_retryable (validation (invalid_function _ _) _) = refl
error_code-is_retryable (validation (type_mismatch _ _ _) _) = refl
error_code-is_retryable (validation (dialect_feature_disabled _) _) = refl
error_code-is_retryable (validation (too_many_joins _ _) _) = refl
error_code-is_retryable (validation (aggregation_mismatch _) _) = refl
error_code-is_retryable (validation (multiple_errors _) _) = refl
error_code-is_retryable (audit (identifier_not_found _ _) _) = refl
error_code-is_retryable (audit (suspicious_pattern _ _) _) = refl
error_code-is_retryable (policy (table_denied _) _) = refl
error_code-is_retryable (policy (column_denied _ _) _) = refl
error_code-is_retryable (compilation (unsupported_dialect_feature _) _) = refl
error_code-is_retryable (compilation (invalid_placeholder _) _) = refl
error_code-is_retryable (schema (table_not_found _) _) = refl
error_code-is_retryable (schema (column_not_found _ _) _) = refl
error_code-is_retryable (schema (table_not_in_scope _) _) = refl
error_code-is_retryable (llm (api_error _ _) _) = refl
error_code-is_retryable (llm timeout _) = refl
error_code-is_retryable (llm (parse_error _) _) = refl
error_code-is_retryable (config missing_llm_client _) = refl
error_code-is_retryable (config missing_schema _) = refl
error_code-is_retryable (config (invalid_dialect _) _) = refl
error_code-is_retryable (config (missing_api_key _) _) = refl
error_code-is_retryable (config empty_model _) = refl
error_code-is_retryable (config (config_file_error _ _) _) = refl
error_code-is_retryable (config (internal_error _) _) = refl
