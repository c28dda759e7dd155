-- ===== src/Facade/Query/Attempts.antt =====
-- The attempts of `VlorQl::query` in crates/vlorql/src/lib.rs.
pub mod Steps
pub mod Bounds
pub mod Sound
pub mod Answered
pub mod Gauge
use vlor_ql.Common.{
  ℕ, zero, suc, ◌+◌, List, [], ◌∷◌, ◌++◌, Bool, true, false, not, ◌&&◌, if◌then◌else◌, ltb, nat_eq,
  is_empty, Option, none, some,
}
use vlor_ql.Common.Lists.{all}
use vlor_ql.Common.Text.{Text, bytes}
use vlor_ql.Errors.{
  VlorQlError, is_retryable, config, missing_llm_client, invalid_dialect, no_details,
}
use vlor_ql.Facade.Feedback.{
  format_retry_question, format_retry_question_str, validation_errors_to_error,
}
use vlor_ql.Facade.Query.{
  TokenUsage, Reply, planned, failed, Metrics, compiled, compile_failed, Answer, ok, err, panicked,
  Facade, State, no_usage, start_query, end_query, count_error, count_miss, count_tokens, count_hit,
}
use vlor_ql.Schema.Plan.{QueryPlan}
use vlor_ql.Validate.Pipeline.{Validated, valid, invalid}
use vlor_ql.Validate.Repairing.{Optimized, validate_repairing, recheck}

module _ {Value Sql : Type 0} (facade : Facade Value Sql) where
  -- `if let Some(ref m) = self.metrics { .. }`
  unfoldable pub counting : (Metrics → Metrics) → State facade → State facade
  counting f st = elim st.metrics [ none ↦ st | some m ↦ record st { metrics = some (f m) } ]

  -- `client.generate_plan(..)`
  unfoldable pub ask :
      (ℕ → Text → Reply Value) → ℕ → Text → State facade → State facade × Reply Value
  ask client attempt question st =
      (record st { sent = st.sent ++ question ∷ [] }, client attempt question)

  -- The plan of an attempt: the first may be in the cache of responses.
  unfoldable pub obtain :
      (ℕ → Text → Reply Value)
      → Option (QueryPlan Value)
      → ℕ
      → Text
      → TokenUsage
      → State facade
      → State facade × Reply Value
  obtain client none attempt question usage st = ask client attempt question st
  obtain client (some plan) zero question usage st = (st, planned plan usage)
  obtain client (some plan) (suc n) question usage st = ask client (suc n) question st

  unfoldable pub cached_sql : QueryPlan Value → State facade → Option Sql
  cached_sql q st =
      if facade.has_compile_cache then facade.compile_cache.get st.compiled_plans q else none

  -- The two caches take the SQL of `q` and the plan of the model.
  unfoldable pub remember :
      Text → QueryPlan Value → QueryPlan Value → Sql → State facade → State facade
  remember key plan q sql st = record st {
    compiled_plans =
        if facade.has_compile_cache
        then facade.compile_cache.insert st.compiled_plans q sql
        else st.compiled_plans;
    known_plans = facade.llm_cache.insert st.known_plans key plan;
  }

  -- From the look-up in the cache of compiled plans on.
  unfoldable pub compile_step :
      Text
      → QueryPlan Value
      → TokenUsage
      → QueryPlan Value
      → State facade
      → State facade × Answer Sql
  compile_step key plan usage q st = elim (cached_sql q st) [
    | some sql ↦ (counting (count_hit usage) st, ok sql usage)
    | none ↦ elim (facade.compile_only q) [
      | compile_failed e ↦ (counting count_miss st, err e)
      | compiled sql ↦ (
        counting end_query
            (counting (count_tokens usage) (remember key plan q sql (counting count_miss st))),
        ok sql usage,
      )
    ]
  ]

  unfoldable pub after_optimizer :
      Text
      → QueryPlan Value
      → TokenUsage
      → Validated Value
      → State facade
      → State facade × Answer Sql
  after_optimizer key plan usage (valid o) st = compile_step key plan usage o st
  after_optimizer key plan usage (invalid es) st =
      (st, err (validation_errors_to_error facade.texts es))

  -- `match &self.optimizer`
  unfoldable pub optimize_with :
      Option (QueryPlan Value → Optimized Value)
      → Text
      → QueryPlan Value
      → TokenUsage
      → QueryPlan Value
      → State facade
      → State facade × Answer Sql
  optimize_with none key plan usage q st = compile_step key plan usage q st
  optimize_with (some optimize) key plan usage q st =
      after_optimizer key plan usage (recheck facade.pipeline (optimize q)) st

  unfoldable pub optimize_step :
      Text
      → QueryPlan Value
      → TokenUsage
      → QueryPlan Value
      → State facade
      → State facade × Answer Sql
  optimize_step key plan usage q st = optimize_with facade.optimizer key plan usage q st

  unfoldable pub can_retry : ℕ → List VlorQlError → Bool
  can_retry attempt errors =
      ltb attempt facade.max_retries && not (is_empty errors) && all is_retryable errors

  -- `for attempt in ..` with `left` attempts to go; `none` is the end of the loop.
  unfoldable pub attempts_from :
      (ℕ → Text → Reply Value)
      → Text
      → Option (QueryPlan Value)
      → (left attempt : ℕ) → Text
      → TokenUsage
      → State facade
      → State facade × Option (Answer Sql)
  attempts_from client question cached zero attempt llm_question usage st = (st, none)
  attempts_from client question cached (suc left) attempt llm_question usage st =
      let asked = obtain client cached attempt llm_question usage st in
      elim asked.1 [
        | failed e ↦
            let again =
              attempts_from client question cached left (suc attempt)
                (format_retry_question_str facade.texts llm_question e attempt) usage asked.0 in
            if is_retryable e && ltb attempt facade.max_retries
            then again
            else (asked.0, some (err e))
        | planned plan new_usage ↦ elim (validate_repairing facade.pipeline plan) [
          | none ↦ (asked.0, some panicked)
          | some (valid q) ↦
              let done = optimize_step (facade.to_lowercase question) plan new_usage q asked.0 in
              (done.0, some done.1)
          | some (invalid errors) ↦
              let st1 = counting count_error asked.0 in
              let again =
                attempts_from client question cached left (suc attempt)
                  (format_retry_question facade.texts question errors attempt) new_usage st1 in
              if can_retry attempt errors
              then again
              else (st1, some (err (validation_errors_to_error facade.texts errors)))
        ]
      ]

  -- After the loop.
  unfoldable pub or_loop_error : State facade × Option (Answer Sql) → State facade × Answer Sql
  or_loop_error (st, some answer) = (st, answer)
  or_loop_error (st, none) = (
    counting end_query st,
    err (config (invalid_dialect (bytes "validation retry loop did not terminate")) no_details),
  )

  -- With the client, if there is one.
  unfoldable pub query_with :
      Option (ℕ → Text → Reply Value) → Text → State facade → State facade × Answer Sql
  query_with none question started =
      (counting end_query started, err (config missing_llm_client no_details))
  query_with (some client) question started =
      let cached = facade.llm_cache.get started.known_plans (facade.to_lowercase question) in
      or_loop_error
        (attempts_from client question cached (suc facade.max_retries) 0 question no_usage started)

  unfoldable pub query : Text → State facade → State facade × Answer Sql
  query question st = query_with facade.llm_client question (counting start_query st)
