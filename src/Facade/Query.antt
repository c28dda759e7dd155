-- ===== src/Facade/Query.antt =====
-- `VlorQl::query`: crates/vlorql/src/lib.rs. The model, the optimizer, the compiler and the stores of the
-- caches are parameters; the validation is that of `Validate`.
-- Prompts, durations, and the JSON details of the errors of the query itself are left out.
pub mod Attempts
use vlor_ql.Common.{
  ℕ, zero, suc, ◌+◌, ◌-◌, List, [], ◌∷◌, ◌++◌, Bool, true, false, not, ◌&&◌, if◌then◌else◌, ltb,
  nat_eq, is_empty, Option, none, some,
}
use vlor_ql.Common.Lists.{all}
use vlor_ql.Common.Text.{Text, bytes}
use vlor_ql.Errors.{
  VlorQlError, is_retryable, config, missing_llm_client, invalid_dialect, no_details,
}
use vlor_ql.Facade.Feedback.{
  Texts, format_retry_question, format_retry_question_str, validation_errors_to_error,
}
use vlor_ql.Schema.Plan.{QueryPlan}
use vlor_ql.Validate.Pipeline.{ValidationPipeline, Validated, valid, invalid}
use vlor_ql.Validate.Repairing.{Optimized, validate_repairing, recheck}

pub record TokenUsage : Type 0 where
  pub prompt_tokens : ℕ
  pub completion_tokens : ℕ

-- What the model answers to a question.
pub data Reply (Value : Type 0) : Type 0 where
  planned : QueryPlan Value → TokenUsage → Reply Value
  failed : VlorQlError → Reply Value

-- A cache: a store that answers a key or not.
pub record Cache (K V : Type 0) : Type 1 where
  pub Store : Type 0
  pub get : Store → K → Option V
  pub insert : Store → K → V → Store

-- The counters of `VlorqMetrics`; durations are left out.
pub record Metrics : Type 0 where
  pub active_queries : ℕ
  pub query_counter : ℕ
  pub error_counter : ℕ
  pub cache_hit_counter : ℕ
  pub cache_miss_counter : ℕ
  pub llm_prompt_tokens : ℕ
  pub llm_completion_tokens : ℕ

-- The outcome of the compiler, and of a query. A query may end in a panic.
pub data Compilation (Sql : Type 0) : Type 0 where
  compiled : Sql → Compilation Sql
  compile_failed : VlorQlError → Compilation Sql

pub data Answer (Sql : Type 0) : Type 0 where
  ok : Sql → TokenUsage → Answer Sql
  err : VlorQlError → Answer Sql
  panicked : Answer Sql

pub record Facade (Value Sql : Type 0) : Type 1 where
  pub texts : Texts
  -- `generate_plan`, by the attempt, which gives the temperature, and the question
  pub llm_client : Option (ℕ → Text → Reply Value)
  pub pipeline : ValidationPipeline Value
  pub optimizer : Option (QueryPlan Value → Optimized Value)
  pub compile_only : QueryPlan Value → Compilation Sql
  pub compile_cache : Cache (QueryPlan Value) Sql
  pub has_compile_cache : Bool
  -- the key is the question with the version of the schema and the model
  pub llm_cache : Cache Text (QueryPlan Value)
  pub to_lowercase : Text → Text
  pub max_retries : ℕ

-- What a query changes, and the questions that it sent.
pub record State {Value Sql : Type 0} (facade : Facade Value Sql) : Type 0 where
  pub metrics : Option Metrics
  pub compiled_plans : facade.compile_cache.Store
  pub known_plans : facade.llm_cache.Store
  pub sent : List Text

abbrev pub no_usage : TokenUsage
no_usage = record { prompt_tokens = 0; completion_tokens = 0 }

-- `m.active_queries.add(..)` and the other counters.
unfoldable pub start_query : Metrics → Metrics
start_query m = record m {
  active_queries = m.active_queries + 1;
  query_counter = m.query_counter + 1;
}

unfoldable pub end_query : Metrics → Metrics
end_query m = record m { active_queries = m.active_queries - 1 }

unfoldable pub count_error : Metrics → Metrics
count_error m = record m { error_counter = m.error_counter + 1 }

unfoldable pub count_miss : Metrics → Metrics
count_miss m = record m { cache_miss_counter = m.cache_miss_counter + 1 }

unfoldable pub count_tokens : TokenUsage → Metrics → Metrics
count_tokens usage m = record m {
  llm_prompt_tokens = m.llm_prompt_tokens + usage.prompt_tokens;
  llm_completion_tokens = m.llm_completion_tokens + usage.completion_tokens;
}

unfoldable pub count_hit : TokenUsage → Metrics → Metrics
count_hit usage m = count_tokens usage (record m { cache_hit_counter = m.cache_hit_counter + 1 })
