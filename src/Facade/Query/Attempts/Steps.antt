-- ===== src/Facade/Query/Attempts/Steps.antt =====
-- One attempt of `VlorQl::query` in crates/vlorql/src/lib.rs: it ends the loop or goes on.
use vlor_ql.Common.{
  ℕ, suc, ◌<◌, ◌≡◌, refl, ◌⊎◌, inl, inr, List, ◌&&◌, ltb, Option, none, some, arith, Bool-cases,
}
use vlor_ql.Facade.Query.{
  TokenUsage, Reply, planned, failed, Compilation, compiled, compile_failed, Answer, ok, err,
  panicked, Facade, State, count_error,
}
use vlor_ql.Facade.Query.Attempts.{counting, obtain, optimize_step, can_retry, attempts_from}
use vlor_ql.Facade.Feedback.{
  format_retry_question, format_retry_question_str, validation_errors_to_error,
}
use vlor_ql.Errors.{VlorQlError, is_retryable}
use vlor_ql.Common.Text.{Text}
use vlor_ql.Schema.Plan.{QueryPlan}
use vlor_ql.Validate.Pipeline.{Validated, valid, invalid}
use vlor_ql.Validate.Repairing.{validate_repairing}

pub Reply-cases :
    {Value : Type 0} (r : Reply Value)
    → ((plan : QueryPlan Value) × (usage : TokenUsage) × (r ≡ planned plan usage))
      ⊎ ((e : VlorQlError) × (r ≡ failed e))
Reply-cases (planned plan usage) = inl (plan, usage, refl)
Reply-cases (failed e) = inr (e, refl)

pub Compilation-cases :
    {Sql : Type 0} (c : Compilation Sql)
    → ((sql : Sql) × (c ≡ compiled sql)) ⊎ ((e : VlorQlError) × (c ≡ compile_failed e))
Compilation-cases (compiled sql) = inl (sql, refl)
Compilation-cases (compile_failed e) = inr (e, refl)

pub Validation-cases :
    {Value : Type 0} (v : Validated Value)
    → ((q : QueryPlan Value) × (v ≡ valid q)) ⊎ ((es : List VlorQlError) × (v ≡ invalid es))
Validation-cases (valid q) = inl (q, refl)
Validation-cases (invalid es) = inr (es, refl)

Validated-cases :
    {Value : Type 0} (o : Option (Validated Value))
    → (o ≡ none)
      ⊎ (((q : QueryPlan Value) × (o ≡ some (valid q)))
          ⊎ ((es : List VlorQlError) × (o ≡ some (invalid es))))
Validated-cases none = inl refl
Validated-cases (some (valid q)) = inr (inl (q, refl))
Validated-cases (some (invalid es)) = inr (inr (es, refl))

abbrev pub IsOk : {Sql : Type 0} → Answer Sql → Type 0
IsOk (ok sql usage) = Unit
IsOk (err e) = ⊥
IsOk panicked = ⊥

module _ {Value Sql : Type 0} (facade : Facade Value Sql) where
  -- The state after an attempt that compiles nothing.
  pub data Idle (asked : State facade × Reply Value) : State facade → Type 0 where
    unchanged : Idle asked asked.0
    counted : Idle asked (counting facade count_error asked.0)

  -- How an attempt ends the loop.
  pub data Ends (key : Text) (asked : State facade × Reply Value)
      : State facade × Answer Sql → Type 0 where
    completed :
        (plan : QueryPlan Value) (usage : TokenUsage) (q : QueryPlan Value)
        → asked.1 ≡ planned plan usage
        → validate_repairing facade.pipeline plan ≡ some (valid q)
        → Ends key asked (optimize_step facade key plan usage q asked.0)
    stopped :
        {st : State facade} {a : Answer Sql} → Idle asked st → ¬ (IsOk a) → Ends key asked (st, a)

  pub attempts_from-step :
      (client : ℕ → Text → Reply Value) (question : Text) (cached : Option (QueryPlan Value))
      (left attempt : ℕ) (llm_question : Text) (usage : TokenUsage) (st : State facade)
      → let asked = obtain facade client cached attempt llm_question usage st in
        let result =
          attempts_from facade client question cached (suc left) attempt llm_question usage st in
        ((end : State facade × Answer Sql) × Ends (facade.to_lowercase question) asked end
          × (result ≡ (end.0, some end.1)))
        ⊎ ((next : Text) × (spent : TokenUsage) × (st1 : State facade) × Idle asked st1
            × (attempt < facade.max_retries)
            × (result
                ≡ attempts_from facade client question cached left (suc attempt) next spent st1))
  unfolding attempts_from can_retry
  attempts_from-step client question cached left attempt llm_question usage st =
      let asked = obtain facade client cached attempt llm_question usage st in
      elim (Reply-cases asked.1) [
        | inr (e, r) ↦ elim (Bool-cases (is_retryable e && ltb attempt facade.max_retries)) [
          | inl again ↦ inr (
            format_retry_question_str facade.texts llm_question e attempt,
            usage,
            asked.0,
            unchanged,
            ground arith,
            rw (attempts_from, r, again) refl,
          )
          | inr stop ↦
              inl ((asked.0, err e), stopped unchanged (λ x. x), rw (attempts_from, r, stop) refl)
        ]
        | inl (plan, spent, r) ↦ elim (Validated-cases (validate_repairing facade.pipeline plan)) [
          | inl p ↦
              inl ((asked.0, panicked), stopped unchanged (λ x. x), rw (attempts_from, r, p) refl)
          | inr (inl (q, v)) ↦ inl (
            optimize_step facade (facade.to_lowercase question) plan spent q asked.0,
            completed plan spent q r v,
            rw (attempts_from, r, v) refl,
          )
          | inr (inr (es, v)) ↦ elim (Bool-cases (can_retry facade attempt es)) [
            | inl again ↦ inr (
              format_retry_question facade.texts question es attempt,
              spent,
              counting facade count_error asked.0,
              counted,
              ground arith,
              rw (attempts_from, r, v, again) refl,
            )
            | inr stop ↦ inl (
              (
                counting facade count_error asked.0,
                err (validation_errors_to_error facade.texts es),
              ),
              stopped counted (λ x. x),
              rw (attempts_from, r, v, stop) refl,
            )
          ]
        ]
      ]
