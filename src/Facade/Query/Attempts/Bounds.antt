-- ===== src/Facade/Query/Attempts/Bounds.antt =====
-- How often `VlorQl::query` of crates/vlorql/src/lib.rs asks the model, and that it answers.
use vlor_ql.Common.{
  ℕ, zero, suc, ◌+◌, ◌≤◌, ◌<◌, ◌≡◌, refl, ap, ◌∙◌, inl, inr, length, Option, none, some, arith,
  Option-cases,
}
use vlor_ql.Common.Positions.{length-append_one}
use vlor_ql.Facade.Query.{
  TokenUsage, Reply, Metrics, Answer, Facade, State, no_usage, start_query, end_query, count_error,
  count_miss, count_tokens,
}
use vlor_ql.Facade.Query.Attempts.{
  counting, ask, obtain, cached_sql, remember, compile_step, after_optimizer, optimize_with,
  optimize_step, attempts_from, or_loop_error, query_with, query,
}
use vlor_ql.Facade.Query.Attempts.Steps.{
  Compilation-cases, Validation-cases, Idle, unchanged, counted, Ends, completed, stopped,
  attempts_from-step,
}
use vlor_ql.Common.Text.{Text}
use vlor_ql.Schema.Plan.{QueryPlan}
use vlor_ql.Validate.Repairing.{Optimized, recheck}

lt_irrefl : (n : ℕ) → ¬ (n < n)
lt_irrefl n h = omega arith

module _ {Value Sql : Type 0} (facade : Facade Value Sql) where
  abbrev pub sends : State facade → ℕ
  sends st = length st.sent

  counting-sends :
      (f : Metrics → Metrics) (st : State facade) → sends (counting facade f st) ≡ sends st
  unfolding counting
  counting-sends f st = elim (Option-cases st.metrics) [
    | inl e ↦ rw e refl
    | inr (m, e) ↦ rw e refl
  ]

  obtain-sends :
      (client : ℕ → Text → Reply Value) (cached : Option (QueryPlan Value)) (attempt : ℕ)
      (question : Text) (usage : TokenUsage) (st : State facade)
      → sends (obtain facade client cached attempt question usage st).0 ≤ suc (sends st)
  unfolding obtain ask
  obtain-sends client none attempt question usage st =
      let one = length-append_one st.sent question in omega arith
  obtain-sends client (some plan) zero question usage st = omega arith
  obtain-sends client (some plan) (suc n) question usage st =
      let one = length-append_one st.sent question in omega arith

  compile_step-sends :
      (key : Text) (plan q : QueryPlan Value) (usage : TokenUsage) (st : State facade)
      → sends (compile_step facade key plan usage q st).0 ≡ sends st
  unfolding compile_step remember
  compile_step-sends key plan q usage st = elim (Option-cases (cached_sql facade q st)) [
    | inr (sql, e) ↦ rw (compile_step, e) (counting-sends _ st)
    | inl e ↦ elim (Compilation-cases (facade.compile_only q)) [
      | inr (x, f) ↦ rw (compile_step, e, f) (counting-sends _ st)
      | inl (sql, f) ↦
          rw (compile_step, e, f)
            (counting-sends end_query _
              ∙ counting-sends (count_tokens usage) _
              ∙ counting-sends count_miss st)
    ]
  ]

  optimize_with-sends :
      (optimizer : Option (QueryPlan Value → Optimized Value)) (key : Text)
      (plan q : QueryPlan Value) (usage : TokenUsage) (st : State facade)
      → sends (optimize_with facade optimizer key plan usage q st).0 ≡ sends st
  unfolding optimize_with after_optimizer
  optimize_with-sends none key plan q usage st = compile_step-sends key plan q usage st
  optimize_with-sends (some optimize) key plan q usage st =
      elim (Validation-cases (recheck facade.pipeline (optimize q))) [
        | inl (o, f) ↦ rw f (compile_step-sends key plan o usage st)
        | inr (es, f) ↦ rw f refl
      ]

  Idle-sends :
      (asked : State facade × Reply Value) (st : State facade)
      → Idle facade asked st
      → sends st ≡ sends asked.0
  Idle-sends asked st unchanged = refl
  Idle-sends asked st counted = counting-sends count_error asked.0

  Ends-sends :
      (key : Text) (asked : State facade × Reply Value) (end : State facade × Answer Sql)
      → Ends facade key asked end
      → sends end.0 ≡ sends asked.0
  unfolding optimize_step
  Ends-sends key asked end (completed plan usage q r v) =
      optimize_with-sends facade.optimizer key plan q usage asked.0
  Ends-sends key asked end (stopped idle fails) = Idle-sends asked _ idle

  attempts_from-sends :
      (client : ℕ → Text → Reply Value) (question : Text) (cached : Option (QueryPlan Value))
      (left attempt : ℕ) (asked : Text) (usage : TokenUsage) (st : State facade)
      → sends (attempts_from facade client question cached left attempt asked usage st).0
        ≤ left + sends st
  unfolding attempts_from
  attempts_from-sends client question cached zero attempt asked usage st = omega arith
  attempts_from-sends client question cached (suc left) attempt asked usage st =
      let once = obtain-sends client cached attempt asked usage st in
      elim (attempts_from-step facade client question cached left attempt asked usage st) [
        | inl (end, ends, e) ↦ let same = Ends-sends _ _ end ends in rw e (omega arith)
        | inr (next, spent, st1, idle, more, e) ↦
            let same = Idle-sends _ st1 idle in
            let rest =
              attempts_from-sends client question cached left (suc attempt) next spent st1 in
            rw e (omega arith)
      ]

  -- While the attempts made and the retries left are within the bound, the loop ends with an answer.
  pub attempts_from-returns :
      (client : ℕ → Text → Reply Value) (question : Text) (cached : Option (QueryPlan Value))
      (left attempt : ℕ) (asked : Text) (usage : TokenUsage) (st : State facade)
      → facade.max_retries ≡ left + attempt
      → (a : Answer Sql) × ((attempts_from facade client question cached
            (suc left)
            attempt
            asked
            usage
            st).1
          ≡ some a)
  attempts_from-returns client question cached zero attempt asked usage st h =
      elim (attempts_from-step facade client question cached 0 attempt asked usage st) [
        | inl (end, ends, e) ↦ (end.1, ap (λ r. r.1) e)
        | inr (next, spent, st1, idle, more, e) ↦ elim (lt_irrefl attempt (omega arith)) [ ]
      ]
  attempts_from-returns client question cached (suc left) attempt asked usage st h =
      elim (attempts_from-step facade client question cached (suc left) attempt asked usage st) [
        | inl (end, ends, e) ↦ (end.1, ap (λ r. r.1) e)
        | inr (next, spent, st1, idle, more, e) ↦
            let (a, rest) =
              attempts_from-returns client question cached left (suc attempt) next spent st1
                (omega arith) in
            (a, ap (λ r. r.1) e ∙ rest)
      ]

  or_loop_error-sends :
      (r : State facade × Option (Answer Sql)) → sends (or_loop_error facade r).0 ≡ sends r.0
  unfolding or_loop_error
  or_loop_error-sends (st, none) = counting-sends end_query st
  or_loop_error-sends (st, some a) = refl

  query_with-sends :
      (client : Option (ℕ → Text → Reply Value)) (question : Text) (st : State facade)
      → sends (query_with facade client question st).0 ≤ suc facade.max_retries + sends st
  unfolding query_with
  query_with-sends none question st = let ended = counting-sends end_query st in omega arith
  query_with-sends (some client) question st =
      let cached = facade.llm_cache.get st.known_plans (facade.to_lowercase question) in
      let loop =
        attempts_from-sends client question cached (suc facade.max_retries) 0 question no_usage
          st in
      let same = or_loop_error-sends (
        attempts_from facade client question cached (suc facade.max_retries) 0 question no_usage
          st) in
      omega arith

  -- A query asks the model at most once more than it may retry.
  pub query-sends :
      (question : Text) (st : State facade)
      → sends (query facade question st).0 ≤ suc facade.max_retries + sends st
  unfolding query
  query-sends question st =
      let started = counting-sends start_query st in
      let loop = query_with-sends facade.llm_client question (counting facade start_query st) in
      omega arith
