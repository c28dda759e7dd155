-- ===== src/Facade/Query/Attempts/Answered.antt =====
-- After failures that can be retried, `VlorQl::query` of crates/vlorql/src/lib.rs answers with the first
-- good plan.
use vlor_ql.Common.{
  ℕ, zero, suc, ◌+◌, ◌≤◌, ◌<◌, ◌≡◌, refl, ap, subst, ◌∙◌, inl, inr, List, Bool, true, false, ◌&&◌,
  if◌then◌else◌, ltb, is_empty, Option, none, some, arith, Option-cases,
}
use vlor_ql.Facade.Query.{
  TokenUsage, Reply, planned, failed, Metrics, compiled, Answer, ok, Facade, State, no_usage,
  start_query, count_error,
}
use vlor_ql.Facade.Query.Attempts.{
  counting, ask, obtain, cached_sql, compile_step, after_optimizer, optimize_with, optimize_step,
  can_retry, attempts_from, or_loop_error, query_with, query,
}
use vlor_ql.Facade.Query.Attempts.Sound.{Chosen}
use vlor_ql.Facade.Query.Attempts.Steps.{Reply-cases}
use vlor_ql.Facade.Feedback.{format_retry_question, format_retry_question_str}
use vlor_ql.Errors.{VlorQlError, is_retryable}
use vlor_ql.Common.Lists.{all}
use vlor_ql.Common.Text.{Text}
use vlor_ql.Schema.Plan.{QueryPlan}
use vlor_ql.Validate.Pipeline.{valid, invalid}
use vlor_ql.Validate.Repairing.{Optimized, validate_repairing}

module _ {Value Sql : Type 0} (facade : Facade Value Sql) where
  -- A reply after which the query is put again.
  abbrev pub IsRetried : Reply Value → Type 0
  IsRetried (failed e) = is_retryable e ≡ true
  IsRetried (planned plan usage) =
      (es : List VlorQlError) × (validate_repairing facade.pipeline plan ≡ some (invalid es))
      × (is_empty es ≡ false)
      × (all is_retryable es ≡ true)

  obtain-none :
      (client : ℕ → Text → Reply Value) (attempt : ℕ) (asked : Text) (usage : TokenUsage)
      (st : State facade)
      → (obtain facade client none attempt asked usage st).1 ≡ client attempt asked
  unfolding obtain ask
  obtain-none client attempt asked usage st = refl

  can_retry-true :
      (attempt : ℕ) (es : List VlorQlError)
      → attempt < facade.max_retries
      → is_empty es ≡ false
      → all is_retryable es ≡ true
      → can_retry facade attempt es ≡ true
  unfolding can_retry
  can_retry-true attempt es more some_errors all_retried = ground arith

  -- An attempt with such a reply goes on.
  attempts_from-retry :
      (client : ℕ → Text → Reply Value) (question : Text) (left attempt : ℕ) (asked : Text)
      (usage : TokenUsage) (st : State facade)
      → attempt < facade.max_retries
      → IsRetried (client attempt asked)
      → (next : Text) × (spent : TokenUsage) × (st1 : State facade) × (attempts_from facade client
            question none
            (suc left)
            attempt
            asked
            usage
            st
          ≡ attempts_from facade client question none left (suc attempt) next spent st1)
  unfolding attempts_from obtain ask can_retry
  attempts_from-retry client question left attempt asked usage st more h =
      elim (Reply-cases (client attempt asked)) [
        | inr (e, r) ↦
            let retried = rw r at h in
            let test : (is_retryable e && ltb attempt facade.max_retries) ≡ true = ground arith in
            (
              format_retry_question_str facade.texts asked e attempt,
              usage,
              (ask facade client attempt asked st).0,
              rw (attempts_from, r, test) refl,
            )
        | inl (plan, spent, r) ↦
            let (es, v, some_errors, all_retried) = rw r at h in
            let test : can_retry facade attempt es ≡ true =
              can_retry-true attempt es more some_errors all_retried in
            (
              format_retry_question facade.texts question es attempt,
              spent,
              counting facade count_error (ask facade client attempt asked st).0,
              rw (attempts_from, r, v, test) refl,
            )
      ]

  missed : (b : Bool) (o : Option Sql) → b ≡ false → (if b then o else none) ≡ none
  missed true o h = cc
  missed false o h = refl

  or_loop_error-some :
      (r : State facade × Option (Answer Sql)) (a : Answer Sql)
      → r.1 ≡ some a
      → (or_loop_error facade r).1 ≡ a
  unfolding or_loop_error
  or_loop_error-some (st, none) a h = cc
  or_loop_error-some (st, some b) a h = cc

  counting-known :
      (f : Metrics → Metrics) (st : State facade)
      → (counting facade f st).known_plans ≡ st.known_plans
  unfolding counting
  counting-known f st = elim (Option-cases st.metrics) [
    | inl e ↦ rw e refl
    | inr (m, e) ↦ rw e refl
  ]

  module _ (plan q o : QueryPlan Value) (usage : TokenUsage) (sql : Sql)
      (accepted : validate_repairing facade.pipeline plan ≡ some (valid q))
      (chosen : Chosen facade facade.optimizer q o) (made : facade.compile_only o ≡ compiled sql)
      (no_cache : facade.has_compile_cache ≡ false) where
    compile_step-ok :
        (key : Text) (st : State facade)
        → (compile_step facade key plan usage o st).1 ≡ ok sql usage
    unfolding compile_step cached_sql
    compile_step-ok key st =
        let nothing : cached_sql facade o st ≡ none = missed facade.has_compile_cache _ no_cache in
        rw (compile_step, nothing, made) refl

    optimize_with-ok :
        (optimizer : Option (QueryPlan Value → Optimized Value)) (key : Text) (st : State facade)
        → Chosen facade optimizer q o
        → (optimize_with facade optimizer key plan usage q st).1 ≡ ok sql usage
    unfolding optimize_with after_optimizer
    optimize_with-ok none key st same = rw same (compile_step-ok key st)
    optimize_with-ok (some optimize) key st h = rw h (compile_step-ok key st)

    attempts_from-ok :
        (client : ℕ → Text → Reply Value) (question : Text) (n left attempt : ℕ) (asked : Text)
        (spent : TokenUsage) (st : State facade)
        → n ≤ left
        → attempt + n ≤ facade.max_retries
        → ((i : ℕ) → attempt ≤ i → i < attempt + n → (asked : Text) → IsRetried (client i asked))
        → ((asked : Text) → client (attempt + n) asked ≡ planned plan usage)
        → (attempts_from facade client question none (suc left) attempt asked spent st).1
          ≡ some (ok sql usage)
    unfolding attempts_from obtain ask optimize_step
    attempts_from-ok client question zero left attempt asked spent st room small fails good =
        let now : attempt + 0 ≡ attempt = omega arith in
        let r = subst (λ k. client k asked ≡ planned plan usage) now (good asked) in
        let done =
          optimize_with-ok facade.optimizer (facade.to_lowercase question)
            (ask facade client attempt asked st).0 chosen in
        rw (attempts_from, r, accepted) (ap some done)
    attempts_from-ok client question (suc n) zero attempt asked spent st room small fails good =
        elim room [ ]
    attempts_from-ok client question (suc n) (suc left) attempt asked spent st room small fails
          good =
        let (next, paid, st1, e) =
          attempts_from-retry client question (suc left) attempt asked spent st (omega arith)
            (fails attempt (omega arith) (omega arith) asked) in
        let shift : attempt + suc n ≡ suc attempt + n = omega arith in
        ap (λ r. r.1) e
        ∙ attempts_from-ok client question n left (suc attempt) next paid st1 (omega arith)
            (omega arith) (λ i above below. fails i (omega arith) (omega arith))
            (λ text. subst (λ k. client k text ≡ planned plan usage) shift (good text))

    -- Without a cached plan and without a cache of SQL: if the model's first `n` answers, at most as many
    -- as may be retried, are failures that can be retried, and its next is a plan that the validation
    -- accepts, whose chosen form the compiler accepts, then the query answers with that SQL.
    pub query-ok :
        (client : ℕ → Text → Reply Value) (question : Text) (n : ℕ) (st : State facade)
        → facade.llm_client ≡ some client
        → facade.llm_cache.get st.known_plans (facade.to_lowercase question) ≡ none
        → n ≤ facade.max_retries
        → ((i : ℕ) → i < n → (asked : Text) → IsRetried (client i asked))
        → ((asked : Text) → client n asked ≡ planned plan usage)
        → (query facade question st).1 ≡ ok sql usage
    unfolding query query_with
    query-ok client question n st has_client unknown small fails good =
        let started = counting facade start_query st in
        let same : facade.llm_cache.get started.known_plans (facade.to_lowercase question) ≡ none =
          rw (counting-known start_query st) unknown in
        let start : 0 + n ≡ n = omega arith in
        let loop =
          attempts_from-ok client question n facade.max_retries 0 question no_usage started small
            (omega arith) (λ i above below. fails i (omega arith))
            (λ asked.
              subst (λ k. client k asked ≡ planned plan usage) (omega arith) (good asked)) in
        ap (λ c. (query_with facade c question started).1) has_client
        ∙ rw same (or_loop_error-some _ _ loop)
