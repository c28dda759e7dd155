-- ===== src/Facade/Query/Attempts/Gauge.antt =====
-- What `VlorQl::query` of crates/vlorql/src/lib.rs does to the gauge of active queries.
use vlor_ql.Common.{
  ℕ, zero, suc, ◌≡◌, refl, sym, ap, subst, ◌∙◌, inl, inr, Option, none, some, arith, Option-cases,
  some-injective,
}
use vlor_ql.Facade.Query.{
  TokenUsage, Reply, Metrics, Answer, ok, err, panicked, Facade, State, no_usage, start_query,
  count_error, count_miss,
}
use vlor_ql.Facade.Query.Attempts.{
  counting, ask, obtain, cached_sql, compile_step, after_optimizer, optimize_with, optimize_step,
  attempts_from, or_loop_error, query_with, query,
}
use vlor_ql.Facade.Query.Attempts.Bounds.{attempts_from-returns}
use vlor_ql.Facade.Query.Attempts.Steps.{
  Compilation-cases, Validation-cases, Idle, unchanged, counted, Ends, completed, stopped,
  attempts_from-step,
}
use vlor_ql.Errors.{VlorQlError}
use vlor_ql.Common.Text.{Text}
use vlor_ql.Schema.Plan.{QueryPlan}
use vlor_ql.Validate.Repairing.{Optimized, recheck}

module _ {Value Sql : Type 0} (facade : Facade Value Sql) where
  -- `active_queries`, where metrics are kept.
  abbrev pub gauge_of : Option Metrics → ℕ
  gauge_of none = 0
  gauge_of (some m) = m.active_queries

  abbrev pub gauge : State facade → ℕ
  gauge st = gauge_of st.metrics

  abbrev pub IsErr : Answer Sql → Type 0
  IsErr (ok sql usage) = ⊥
  IsErr (err e) = Unit
  IsErr panicked = ⊥

  counting-gauge :
      (f : Metrics → Metrics) (st : State facade)
      → ((m : Metrics) → (f m).active_queries ≡ m.active_queries)
      → gauge (counting facade f st) ≡ gauge st
  unfolding counting
  counting-gauge f st same = elim (Option-cases st.metrics) [
    | inl e ↦ rw e refl
    | inr (m, e) ↦ rw e (same m)
  ]

  Keeps : ℕ → State facade × Answer Sql → Type 0
  Keeps n r = IsErr r.1 → gauge r.0 ≡ n

  compile_step-Keeps :
      (key : Text) (plan q : QueryPlan Value) (usage : TokenUsage) (st : State facade)
      → Keeps (gauge st) (compile_step facade key plan usage q st)
  unfolding compile_step Keeps count_miss
  compile_step-Keeps key plan q usage st = elim (Option-cases (cached_sql facade q st)) [
    | inr (sql, e) ↦ rw (compile_step, e) (λ h. elim h [ ])
    | inl e ↦ elim (Compilation-cases (facade.compile_only q)) [
      | inr (x, f) ↦ rw (compile_step, e, f) (λ h. counting-gauge count_miss st (λ m. refl))
      | inl (sql, f) ↦ rw (compile_step, e, f) (λ h. elim h [ ])
    ]
  ]

  optimize_with-Keeps :
      (optimizer : Option (QueryPlan Value → Optimized Value)) (key : Text)
      (plan q : QueryPlan Value) (usage : TokenUsage) (st : State facade)
      → Keeps (gauge st) (optimize_with facade optimizer key plan usage q st)
  unfolding optimize_with after_optimizer Keeps
  optimize_with-Keeps none key plan q usage st = compile_step-Keeps key plan q usage st
  optimize_with-Keeps (some optimize) key plan q usage st =
      elim (Validation-cases (recheck facade.pipeline (optimize q))) [
        | inl (o, f) ↦ rw f (compile_step-Keeps key plan o usage st)
        | inr (es, f) ↦ rw f (λ h. refl)
      ]

  Idle-gauge :
      (asked : State facade × Reply Value) (st : State facade)
      → Idle facade asked st
      → gauge st ≡ gauge asked.0
  unfolding count_error
  Idle-gauge asked st unchanged = refl
  Idle-gauge asked st counted = counting-gauge count_error asked.0 (λ m. refl)

  Ends-Keeps :
      (key : Text) (asked : State facade × Reply Value) (end : State facade × Answer Sql)
      → Ends facade key asked end
      → Keeps (gauge asked.0) end
  unfolding Keeps optimize_step
  Ends-Keeps key asked end (completed plan usage q r v) =
      optimize_with-Keeps facade.optimizer key plan q usage asked.0
  Ends-Keeps key asked end (stopped idle fails) = λ h. Idle-gauge asked _ idle

  obtain-gauge :
      (client : ℕ → Text → Reply Value) (cached : Option (QueryPlan Value)) (attempt : ℕ)
      (question : Text) (usage : TokenUsage) (st : State facade)
      → gauge (obtain facade client cached attempt question usage st).0 ≡ gauge st
  unfolding obtain ask
  obtain-gauge client none attempt question usage st = refl
  obtain-gauge client (some plan) zero question usage st = refl
  obtain-gauge client (some plan) (suc n) question usage st = refl

  attempts_from-gauge :
      (client : ℕ → Text → Reply Value) (question : Text) (cached : Option (QueryPlan Value))
      (left attempt : ℕ) (asked : Text) (usage : TokenUsage) (st : State facade)
      (st' : State facade) (a : Answer Sql)
      → attempts_from facade client question cached left attempt asked usage st ≡ (st', some a)
      → IsErr a
      → gauge st' ≡ gauge st
  unfolding attempts_from Keeps
  attempts_from-gauge client question cached zero attempt asked usage st st' a h fails = cc
  attempts_from-gauge client question cached (suc left) attempt asked usage st st' a h fails =
      let same = obtain-gauge client cached attempt asked usage st in
      elim (attempts_from-step facade client question cached left attempt asked usage st) [
        | inl (end, ends, e) ↦
            let final : (end.0, some end.1) ≡ (st', some a) = sym e ∙ h in
            let same_answer : end.1 ≡ a = some-injective (ap (λ r. r.1) final) in
            let keeps = Ends-Keeps _ _ end ends (subst IsErr (sym same_answer) fails) in
            ap (λ r. gauge r.0) (sym final) ∙ keeps ∙ same
        | inr (next, spent, st1, idle, more, e) ↦
            attempts_from-gauge client question cached left (suc attempt) next spent st1 st' a
              (sym e ∙ h) fails
            ∙ Idle-gauge _ st1 idle
            ∙ same
      ]

  start_query-gauge :
      (st : State facade) (m : Metrics)
      → st.metrics ≡ some m
      → gauge (counting facade start_query st) ≡ suc (gauge st)
  unfolding counting start_query
  start_query-gauge st m kept = rw (kept) (omega arith)

  -- With metrics and a client: a query that ends in an error counts as active for ever.
  pub query-gauge :
      (client : ℕ → Text → Reply Value) (question : Text) (st : State facade) (m : Metrics)
      (e : VlorQlError)
      → facade.llm_client ≡ some client
      → st.metrics ≡ some m
      → (query facade question st).1 ≡ err e
      → gauge (query facade question st).0 ≡ suc (gauge st)
  unfolding query query_with or_loop_error
  query-gauge client question st m e has_client kept failed_with =
      let started = counting facade start_query st in
      let cached = facade.llm_cache.get started.known_plans (facade.to_lowercase question) in
      let loop =
        attempts_from facade client question cached (suc facade.max_retries) 0 question no_usage
          started in
      let with_client : query facade question st ≡ or_loop_error facade loop =
        ap (λ c. query_with facade c question started) has_client in
      let (a, returns) =
        attempts_from-returns facade client question cached facade.max_retries 0 question no_usage
          started (omega arith) in
      let whole : loop ≡ (loop.0, some a) = ap (λ o. (loop.0, o)) returns in
      let end : query facade question st ≡ (loop.0, a) =
        with_client ∙ ap (or_loop_error facade) whole in
      let fails : a ≡ err e = sym (ap (λ r. r.1) end) ∙ failed_with in
      ap (λ r. gauge r.0) end
      ∙ attempts_from-gauge client question cached (suc facade.max_retries) 0 question no_usage
          started loop.0 a whole (subst IsErr (sym fails) tt)
      ∙ start_query-gauge st m kept
