-- ===== src/Tests/StreamRuns.antt =====
-- Streams, requests and audits at concrete inputs, and the results about them.
use vlor_ql.Common.{
  ℕ, zero, suc, ◌<◌, ◌≡◌, ◌↔◌, refl, ap, List, [], ◌∷◌, ◌++◌, false, not, Option, none, some, map,
  arith,
}
use vlor_ql.Common.Lists.{any, find}
use vlor_ql.Common.Text.{Text, bytes, starts_with}
use vlor_ql.Compile.Dialect.{contains_text, upper}
use vlor_ql.Validate.Warnings.{has_suspicious_pattern, to_uppercase_from, special_at}
use vlor_ql.Facade.Query.{compiled}
use vlor_ql.Facade.Stream.{
  plan_complete, chunk, streaming, Streaming, compiled_event, validated_event, parsed_event,
  process_assembled_text,
}
use vlor_ql.Facade.Stream.Events.{process_assembled_text-plan}
use vlor_ql.Llm.Retry.{
  Sent, responded, HttpClient, parsed, generate_with_retry, failed_attempt, settled, is_success,
  status_error, is_retryable,
}
use vlor_ql.Llm.Retry.Answered.{delays, FailsFor, generate_with_retry-settled}
use vlor_ql.Llm.Sse.{line, Consumer, payload_of, drive_sse_consumer_with}
use vlor_ql.Llm.Sse.Ends.{is_done, deltas_before_done, drive_sse_consumer_with-lines}
use vlor_ql.Llm.Sse.Lines.{
  Inner, bytes_ready, inner_pending, inner_error, poll_next, line_or_inner, poll_inner,
  line_or_pending, take_line, cut, strip_cr,
}
use vlor_ql.Llm.Sse.Lines.Chunks.{bytes_of, lines_polled, after_poll, lines_from, poll_next-lines}
use vlor_ql.Policy.Engine.Nested.{accepted}
use vlor_ql.Schema.Plan.{QueryPlan}
use vlor_ql.Validate.Audit.{audit_plan}
use vlor_ql.Validate.Audit.Clean.{CleanPlan, audit_plan_iff}
use vlor_ql.Validate.Pipeline.{valid}
use vlor_ql.Validate.Repairing.{validate_repairing}
use vlor_ql.Tests.FacadeRuns.{texts, usage, emails-accepted}
use vlor_ql.Tests.PolicyRuns.{pipeline_with}
use vlor_ql.Tests.Samples.{snapshot, emails}

-- A stream of one chunk, read as the given plan.
abbrev stream_of : Option (QueryPlan ℕ) → Streaming ℕ ℕ
stream_of plan = record {
  texts = texts;
  stream_plan = λ attempt question. streaming (chunk (bytes "{}") ∷ []) (some usage);
  template_leak = λ text. none;
  parse_query_plan = λ text. plan;
  not_a_plan = λ text. [];
  pipeline = pipeline_with [];
  compile = λ plan. compiled 42;
  max_retries = 2;
  receiver_gone = λ n. false;
}

emails_complete :
    process_assembled_text (stream_of (some emails)) (bytes "{}") ≡ some (plan_complete emails)
unfolding process_assembled_text parsed_event validated_event compiled_event
emails_complete = ap (validated_event (stream_of (some emails)) emails) emails-accepted

process_assembled_text-plan_example :
    (some emails ≡ some emails)
    × ((q : QueryPlan ℕ) × (validate_repairing (pipeline_with []) emails ≡ some (valid q))
        × ((sql : ℕ) × (compiled 42 ≡ compiled sql)))
process_assembled_text-plan_example =
    process_assembled_text-plan (stream_of (some emails)) (bytes "{}") emails emails_complete

-- The first response is a 503, the second a success.
abbrev server : HttpClient ℕ
server = record {
  max_attempts = 3;
  provider_label = bytes "model";
  send_request = busy_once;
  parse_response = λ text. parsed emails;
  parse_usage = λ text. usage;
  response_message = λ text. text;
}
  where
    busy_once : ℕ → Sent
    busy_once zero = responded 503 []
    busy_once (suc n) = responded 200 []

busy-FailsFor : (i : ℕ) → i < 1 → FailsFor server i
unfolding failed_attempt is_success is_retryable status_error
busy-FailsFor zero h = (_, refl, refl)
busy-FailsFor (suc i) h = elim (never i h) [ ]
  where
    never : (i : ℕ) → ¬ (suc i < 1)
    never i h = omega arith

generate_with_retry-settled_example :
    generate_with_retry server ≡ (delays 0 1, settled server (responded 200 []))
unfolding failed_attempt is_success
generate_with_retry-settled_example =
    generate_with_retry-settled server 1 (omega arith) busy-FailsFor refl

abbrev verbatim : Consumer
verbatim = record { max_attempts = 3; extract = λ text. some text; receiver_gone = λ n. false }

drive_sse_consumer_with-lines_example :
    drive_sse_consumer_with verbatim (map line (bytes "data: a" ∷ bytes "data: [DONE]" ∷ [])) ≡ (
      deltas_before_done verbatim (bytes "data: a" ∷ bytes "data: [DONE]" ∷ []),
      not (
          any
            (λ t. is_done verbatim (payload_of verbatim t))
            (bytes "data: a" ∷ bytes "data: [DONE]" ∷ [])),
    )
drive_sse_consumer_with-lines_example =
    drive_sse_consumer_with-lines verbatim (λ n. refl) (bytes "data: a" ∷ bytes "data: [DONE]" ∷ [])

audit_plan_iff_example : (audit_plan snapshot emails ≡ accepted) ↔ CleanPlan snapshot emails
audit_plan_iff_example = audit_plan_iff snapshot emails

-- Two lines, in three chunks with a pause and an error between them.
abbrev chunks : List Inner
chunks =
    bytes_ready (bytes "data: a")
    ∷ inner_pending
    ∷ bytes_ready (13 ∷ 10 ∷ bytes "da")
    ∷ inner_error (bytes "reset")
    ∷ bytes_ready (bytes "ta: b")
    ∷ []

chunk_lines :
    lines_polled (λ b. b) 30 (record { inner = chunks; buffer = [] })
    ≡ some (bytes "data: a" ∷ bytes "data: b" ∷ [])
unfolding lines_polled after_poll poll_next line_or_inner poll_inner line_or_pending take_line cut
    strip_cr
chunk_lines = refl

poll_next-lines_example :
    lines_polled (λ b. b) 30 (record { inner = chunks; buffer = [] })
    ≡ some (lines_from (λ b. b) [] (bytes_of chunks))
poll_next-lines_example = poll_next-lines (λ b. b) 30 chunks [] (omega arith)

-- Lower case, and a dotless `i`.
finds_patterns :
    (has_suspicious_pattern (bytes "x; drop t") ≡ some (bytes ";"))
    × (has_suspicious_pattern (bytes "drop t") ≡ some (bytes "DROP "))
    × (has_suspicious_pattern (bytes "un" ++ 196 ∷ 177 ∷ bytes "on select")
        ≡ some (bytes "UNION SELECT"))
    × (has_suspicious_pattern (bytes "users") ≡ none)
unfolding has_suspicious_pattern to_uppercase_from special_at contains_text upper find starts_with
finds_patterns = (refl, refl, refl, refl)
