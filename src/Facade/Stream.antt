-- ===== src/Facade/Stream.antt =====
-- The streaming query: `run_stream_with_retry` and `process_assembled_text` of crates/vlorql/src/retry.rs. The
-- JSON details of its own errors are left out.
pub mod Events
use vlor_ql.Common.{
  ℕ, zero, suc, ◌+◌, List, [], ◌∷◌, ◌++◌, Bool, true, false, ◌&&◌, if◌then◌else◌, ltb, Option, none,
  some,
}
use vlor_ql.Common.Lists.{length}
use vlor_ql.Common.Text.{Text}
use vlor_ql.Errors.{VlorQlError, is_retryable, llm, parse_error, no_details}
use vlor_ql.Facade.Feedback.{Texts, format_retry_question_str, validation_errors_to_error}
use vlor_ql.Facade.Query.{TokenUsage, Compilation, compiled, compile_failed}
use vlor_ql.Schema.Plan.{QueryPlan}
use vlor_ql.Validate.Pipeline.{ValidationPipeline, Validated, valid, invalid}
use vlor_ql.Validate.Repairing.{validate_repairing}

-- What is sent to the caller: `Result<StreamEvent, VlorQLError>`.
pub data StreamEvent (Value : Type 0) : Type 0 where
  text_chunk : Text → StreamEvent Value
  plan_complete : QueryPlan Value → StreamEvent Value
  token_usage : TokenUsage → StreamEvent Value
  error : VlorQlError → StreamEvent Value
  failure : VlorQlError → StreamEvent Value

-- An item of the model's stream.
pub data Item : Type 0 where
  chunk : Text → Item
  broken : VlorQlError → Item

-- What the model answers: a stream with the usage known at its end, or an error.
pub data StreamReply : Type 0 where
  streaming : List Item → Option TokenUsage → StreamReply
  refused : VlorQlError → StreamReply

-- The end of reading a stream: the whole text, the error that broke it, or the return from the task because a
-- chunk could not be sent.
pub data Read : Type 0 where
  assembled : Text → Read
  broke : VlorQlError → Read
  gone : Read

pub record Streaming (Value Sql : Type 0) : Type 0 where
  pub texts : Texts
  pub stream_plan : ℕ → Text → StreamReply
  -- `detect_template_leak`, `parse_query_plan` and the messages of their errors
  pub template_leak : Text → Option Text
  pub parse_query_plan : Text → Option (QueryPlan Value)
  pub not_a_plan : Text → Text
  pub pipeline : ValidationPipeline Value
  pub compile : QueryPlan Value → Compilation Sql
  pub max_retries : ℕ
  -- `event_tx.send(..).is_err()` after so many events: the caller has dropped the receiver
  pub receiver_gone : ℕ → Bool

module _ {Value : Type 0} where
  -- `while let Some(item) = stream.next().await`, after `sent` events: the chunks that are sent, and the end.
  unfoldable pub read_stream : (ℕ → Bool) → ℕ → Text → List Item → List (StreamEvent Value) × Read
  read_stream is_gone sent buffer [] = ([], assembled buffer)
  read_stream is_gone sent buffer (chunk text ∷ items) =
      let rest = read_stream is_gone (suc sent) (buffer ++ text) items in
      if is_gone sent then ([], gone) else (text_chunk text ∷ rest.0, rest.1)
  read_stream is_gone sent buffer (broken e ∷ items) = ([], broke e)

  -- `let _ = event_tx.send(..)`: events that a receiver that is gone does not get.
  unfoldable pub deliver : (ℕ → Bool) → ℕ → List (StreamEvent Value) → List (StreamEvent Value)
  deliver is_gone sent [] = []
  deliver is_gone sent (event ∷ events) =
      let rest = deliver is_gone (suc sent) events in if is_gone sent then [] else event ∷ rest

  unfoldable pub usage_event : Option TokenUsage → List (StreamEvent Value)
  usage_event none = []
  usage_event (some usage) = token_usage usage ∷ []

module _ {Value Sql : Type 0} (s : Streaming Value Sql) where
  unfoldable pub compiled_event : QueryPlan Value → Compilation Sql → StreamEvent Value
  compiled_event plan (compiled sql) = plan_complete plan
  compiled_event plan (compile_failed e) = error e

  -- `none` is a panic of the validation.
  unfoldable pub validated_event :
      QueryPlan Value → Option (Validated Value) → Option (StreamEvent Value)
  validated_event plan none = none
  validated_event plan (some (valid q)) = some (compiled_event plan (s.compile q))
  validated_event plan (some (invalid es)) = some (error (validation_errors_to_error s.texts es))

  unfoldable pub parsed_event : Text → Option (QueryPlan Value) → Option (StreamEvent Value)
  parsed_event buffer none = some (error (llm (parse_error (s.not_a_plan buffer)) no_details))
  parsed_event buffer (some plan) = validated_event plan (validate_repairing s.pipeline plan)

  unfoldable pub process_assembled_text : Text → Option (StreamEvent Value)
  process_assembled_text buffer = elim (s.template_leak buffer) [
    | some details ↦ some (error (llm (parse_error details) no_details))
    | none ↦ parsed_event buffer (s.parse_query_plan buffer)
  ]

  -- The error after which the question is put again.
  unfoldable pub retry_error : ℕ → VlorQlError → Bool
  retry_error attempt e = is_retryable e && ltb attempt s.max_retries

  -- The events of the attempts that are left, in the order in which the caller gets them, after `sent`
  -- events.
  unfoldable pub run_stream : (left attempt : ℕ) → Text → (sent : ℕ) → List (StreamEvent Value)
  run_stream zero attempt question sent = []
  run_stream (suc left) attempt question sent = elim (s.stream_plan attempt question) [
    | refused e ↦
        let again =
          run_stream left (suc attempt) (format_retry_question_str s.texts question e attempt)
            sent in
        if retry_error attempt e then again else deliver s.receiver_gone sent (failure e ∷ [])
    | streaming items usage ↦
        let read = read_stream s.receiver_gone sent [] items in
        let now = sent + length read.0 in
        elim read.1 [
          | gone ↦ read.0
          | broke e ↦
              let again =
                run_stream left (suc attempt) (format_retry_question_str s.texts question e attempt)
                  now in
              read.0
              ++ (if retry_error attempt e
                  then again
                  else deliver s.receiver_gone now (failure e ∷ []))
          | assembled buffer ↦ elim (process_assembled_text buffer) [
            | none ↦ read.0
            | some (error e) ↦
                let again =
                  run_stream left (suc attempt)
                    (format_retry_question_str s.texts question e attempt) now in
                read.0
                ++ (if retry_error attempt e
                    then again
                    else deliver s.receiver_gone now (error e ∷ usage_event usage))
            | some event ↦ read.0 ++ deliver s.receiver_gone now (event ∷ usage_event usage)
          ]
        ]
  ]

  unfoldable pub run_stream_with_retry : Text → List (StreamEvent Value)
  run_stream_with_retry question = run_stream (suc s.max_retries) 0 question 0
