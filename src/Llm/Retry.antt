-- ===== src/Llm/Retry.antt =====
-- Requests with retries: `generate_with_retry` of crates/vlorql-llm/src/retry_client.rs, and the retry
-- class, the backoff and the shortened texts of crates/vlorql-llm/src/sse.rs.
-- The JSON details of an error are left out.
pub mod Backoff
pub mod Answered
use vlor_ql.Common.{
  ℕ, zero, suc, ◌+◌, ◌-◌, List, [], ◌∷◌, ◌++◌, Bool, true, false, ◌&&◌, ◌||◌, if◌then◌else◌, ltb,
  leb, nat_eq, length, take, Option, none, some,
}
use Prim.Native.Nat.{◌*◌, ◌^◌}
use vlor_ql.Common.Text.{Text, bytes}
use vlor_ql.Errors.{
  VlorQlError, LlmErrorKind, llm, api_error, timeout, parse_error, Details, no_details,
}
use vlor_ql.Facade.Feedback.{min}
use vlor_ql.Facade.Query.{TokenUsage}
use vlor_ql.Schema.Plan.{QueryPlan}

unfoldable pub is_retryable : VlorQlError → Bool
is_retryable (llm timeout _) = true
is_retryable (llm (api_error status _) _) = nat_eq status 0 || nat_eq status 429 || leb 500 status
is_retryable _ = false

-- The text is the list of its characters.
unfoldable pub truncate : List ℕ → ℕ → List ℕ
truncate value max_chars =
    if ltb max_chars (length value) then take max_chars value ++ 8230 ∷ [] else take max_chars value

-- `Duration::MAX`, in nanoseconds.
abbrev pub duration_max : ℕ
duration_max = 18_446_744_073_709_551_615_999_999_999

-- `DEFAULT_RETRY_DELAY`
abbrev pub default_retry_delay : ℕ
default_retry_delay = 1_000_000_000

unfoldable pub retry_backoff : ℕ → ℕ → ℕ
retry_backoff base retry_index =
    let multiplied = base * 2 ^ min retry_index 31 in
    if leb multiplied duration_max then multiplied else duration_max

-- What comes back from a request: a status and a body, no body, or no response.
pub data Sent : Type 0 where
  responded : (status : ℕ) → Text → Sent
  body_failed : VlorQlError → Sent
  send_failed : VlorQlError → Sent

pub data Parsed (Value : Type 0) : Type 0 where
  parsed : QueryPlan Value → Parsed Value
  unparsed : VlorQlError → Parsed Value

pub data Generated (Value : Type 0) : Type 0 where
  generated : QueryPlan Value → TokenUsage → Generated Value
  gave_up : VlorQlError → Generated Value

pub record HttpClient (Value : Type 0) : Type 0 where
  pub max_attempts : ℕ
  pub provider_label : Text
  -- the answer to the request of each attempt
  pub send_request : ℕ → Sent
  pub parse_response : Text → Parsed Value
  pub parse_usage : Text → TokenUsage
  pub response_message : Text → Text

-- `StatusCode::is_success`
unfoldable pub is_success : ℕ → Bool
is_success status = leb 200 status && leb status 299

module _ {Value : Type 0} (client : HttpClient Value) where
  unfoldable pub can_retry : ℕ → VlorQlError → Bool
  can_retry attempt error = is_retryable error && ltb (attempt + 1) client.max_attempts

  unfoldable pub status_error : ℕ → Text → VlorQlError
  status_error status text = llm (api_error status (client.response_message text)) no_details

  unfoldable pub accept : Text → Parsed Value → Generated Value
  accept text (parsed plan) = generated plan (client.parse_usage text)
  accept text (unparsed e) = gave_up e

  unfoldable pub or_no_result : Option VlorQlError → VlorQlError
  or_no_result (some e) = e
  or_no_result none =
      llm (api_error 0 (client.provider_label ++ bytes " request did not produce a result"))
        no_details

  -- The error of an attempt that may be repeated.
  unfoldable pub failed_attempt : Sent → Option VlorQlError
  failed_attempt (responded status text) =
      if is_success status then none else some (status_error status text)
  failed_attempt (body_failed e) = none
  failed_attempt (send_failed e) = some e

  -- An answer that ends the loop.
  unfoldable pub settled : Sent → Generated Value
  settled (responded status text) = accept text (client.parse_response text)
  settled (body_failed e) = gave_up e
  settled (send_failed e) = gave_up e

  -- The delays that were slept, and the result, with `left` attempts to go.
  unfoldable pub generate_from : (left attempt : ℕ) → Option VlorQlError → List ℕ × Generated Value
  generate_from zero attempt last_error = ([], gave_up (or_no_result last_error))
  generate_from (suc left) attempt last_error =
      elim (failed_attempt (client.send_request attempt)) [
        | none ↦ ([], settled (client.send_request attempt))
        | some error ↦
            let again = generate_from left (suc attempt) (some error) in
            if can_retry attempt error
            then (retry_backoff default_retry_delay attempt ∷ again.0, again.1)
            else ([], gave_up error)
      ]

  unfoldable pub generate_with_retry : List ℕ × Generated Value
  generate_with_retry = generate_from client.max_attempts 0 none
