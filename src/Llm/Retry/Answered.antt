-- ===== src/Llm/Retry/Answered.antt =====
-- After failures that can be retried, the request loop of crates/vlorql-llm/src/retry_client.rs takes the
-- first settled answer.
use vlor_ql.Common.{
  never, ℕ, zero, suc, ◌+◌, ◌≤◌, ◌<◌, ◌≡◌, refl, ap, ◌∙◌, List, [], ◌∷◌, true, Nat-cases, inl, inr,
  Option, none, some, arith,
}
use vlor_ql.Errors.{VlorQlError}
use vlor_ql.Llm.Retry.{
  is_retryable, default_retry_delay, retry_backoff, HttpClient, can_retry, failed_attempt, settled,
  generate_from, generate_with_retry,
}

-- The delays after the attempts from `i` on.
abbrev pub delays : ℕ → ℕ → List ℕ
delays i zero = []
delays i (suc n) = retry_backoff default_retry_delay i ∷ delays (suc i) n

module _ {Value : Type 0} (client : HttpClient Value) where
  -- An attempt whose error can be retried.
  abbrev pub FailsFor : ℕ → Type 0
  FailsFor i =
      (e : VlorQlError) × (failed_attempt client (client.send_request i) ≡ some e)
      × (is_retryable e ≡ true)

  generate_from-settled :
      (n left attempt : ℕ) (last_error : Option VlorQlError)
      → n ≤ left
      → attempt + n < client.max_attempts
      → ((i : ℕ) → attempt ≤ i → i < attempt + n → FailsFor i)
      → failed_attempt client (client.send_request (attempt + n)) ≡ none
      → generate_from client (suc left) attempt last_error
        ≡ (delays attempt n, settled client (client.send_request (attempt + n)))
  unfolding generate_from can_retry
  generate_from-settled zero left attempt last_error room small fails good =
      let now : attempt + 0 ≡ attempt = omega arith in
      rw now (rw (generate_from, (rw now at good)) refl)
  generate_from-settled (suc n) zero attempt last_error room small fails good = elim room [ ]
  generate_from-settled (suc n) (suc left) attempt last_error room small fails good =
      let (e, failed, again) = fails attempt (omega arith) (omega arith) in
      let test : can_retry client attempt e ≡ true = ground arith in
      let shift : attempt + suc n ≡ suc attempt + n = omega arith in
      let rest =
        generate_from-settled n left (suc attempt) (some e) (omega arith) (omega arith)
          (λ i above below. fails i (omega arith) (omega arith)) (rw shift at good) in
      rw (generate_from, failed, test)
        (ap (λ r. (retry_backoff default_retry_delay attempt ∷ r.0, r.1)) (rw (← shift) at rest))

  -- If the first `n` attempts, fewer than are allowed, fail with errors that can be retried, and the next
  -- gets a successful status, or a body that cannot be read, then the loop sleeps the `n` delays and
  -- returns what that answer gives.
  pub generate_with_retry-settled :
      (n : ℕ)
      → n < client.max_attempts
      → ((i : ℕ) → i < n → FailsFor i)
      → failed_attempt client (client.send_request n) ≡ none
      → generate_with_retry client ≡ (delays 0 n, settled client (client.send_request n))
  unfolding generate_with_retry
  generate_with_retry-settled n small fails good = elim (Nat-cases client.max_attempts) [
    | inl z ↦ elim (never 0 (omega arith)) [ ]
    | inr (left, e) ↦
        let start : 0 + n ≡ n = omega arith in
        let loop =
          generate_from-settled n left 0 none (omega arith) (omega arith)
            (λ i above below. fails i (omega arith)) (rw (← start) at good) in
        ap (λ k. generate_from client k 0 none) e ∙ rw start at loop
  ]
