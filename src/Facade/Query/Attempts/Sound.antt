-- ===== src/Facade/Query/Attempts/Sound.antt =====
-- From what plan the SQL of `VlorQl::query` in crates/vlorql/src/lib.rs is compiled.
use vlor_ql.Common.{
  ℕ, zero, suc, ◌≡◌, refl, subst, ◌⊎◌, inl, inr, Bool, true, false, if◌then◌else◌, Option, none,
  some, Option-cases,
}
use vlor_ql.Facade.Query.{
  TokenUsage, Reply, Metrics, compiled, Answer, ok, err, panicked, Facade, State, no_usage,
  start_query, end_query, count_error, count_miss, count_tokens,
}
use vlor_ql.Facade.Query.Attempts.{
  counting, ask, obtain, cached_sql, remember, compile_step, after_optimizer, optimize_with,
  optimize_step, attempts_from, or_loop_error, query_with, query,
}
use vlor_ql.Facade.Query.Attempts.Steps.{
  Compilation-cases, Validation-cases, IsOk, Idle, unchanged, counted, Ends, completed, stopped,
  attempts_from-step,
}
use vlor_ql.Common.Text.{Text}
use vlor_ql.Schema.Plan.{QueryPlan}
use vlor_ql.Validate.Pipeline.{valid}
use vlor_ql.Validate.Repairing.{Optimized, validate_repairing, recheck}

module _ {Value Sql : Type 0} (facade : Facade Value Sql) where
  -- What is compiled for the accepted plan `q`: itself, or what the optimizer makes of it and the policy
  -- accepts.
  abbrev pub Chosen :
      Option (QueryPlan Value → Optimized Value) → QueryPlan Value → QueryPlan Value → Type 0
  Chosen none q o = q ≡ o
  Chosen (some optimize) q o = recheck facade.pipeline (optimize q) ≡ valid o

  -- `sql` was compiled from what was chosen for a plan that the validation accepted.
  abbrev pub FromValid : Sql → Type 0
  FromValid sql =
      (plan : QueryPlan Value) × (q : QueryPlan Value) × (o : QueryPlan Value) × (validate_repairing
          facade.pipeline plan
        ≡ some (valid q))
      × Chosen facade.optimizer q o
      × (facade.compile_only o ≡ compiled sql)

  -- Whatever SQL the cache of compiled plans gives, for whatever plan, was compiled in that way.
  pub record SoundCache (store : facade.compile_cache.Store) : Type 0 where
    pub holds :
        (q : QueryPlan Value) (sql : Sql)
        → facade.compile_cache.get store q ≡ some sql
        → FromValid sql

  -- The SQL of an answer satisfies `P`.
  abbrev pub Answers : (Sql → Type 0) → Answer Sql → Type 0
  Answers P (ok sql usage) = P sql
  Answers P (err e) = Unit
  Answers P panicked = Unit

  counting-plans :
      (f : Metrics → Metrics) (st : State facade)
      → (counting facade f st).compiled_plans ≡ st.compiled_plans
  unfolding counting
  counting-plans f st = elim (Option-cases st.metrics) [
    | inl e ↦ rw e refl
    | inr (m, e) ↦ rw e refl
  ]

  counting-SoundCache :
      (f : Metrics → Metrics) (st : State facade)
      → SoundCache st.compiled_plans
      → SoundCache (counting facade f st).compiled_plans
  counting-SoundCache f st h = rw (counting-plans f st) h

  either-SoundCache :
      (b : Bool) (s t : facade.compile_cache.Store)
      → SoundCache s
      → SoundCache t
      → SoundCache (if b then s else t)
  either-SoundCache true s t h k = h
  either-SoundCache false s t h k = k

  hit_of :
      (b : Bool) (o : Option Sql) (sql : Sql) → (if b then o else none) ≡ some sql → o ≡ some sql
  hit_of true o sql h = h
  hit_of false o sql h = cc

  Idle-SoundCache :
      (asked : State facade × Reply Value) (st : State facade)
      → SoundCache asked.0.compiled_plans
      → Idle facade asked st
      → SoundCache st.compiled_plans
  Idle-SoundCache asked st h unchanged = h
  Idle-SoundCache asked st h counted = counting-SoundCache count_error asked.0 h

  fails-Answers : (P : Sql → Type 0) (a : Answer Sql) → ¬ (IsOk a) → Answers P a
  fails-Answers P (ok sql usage) fails = elim (fails tt) [ ]
  fails-Answers P (err e) fails = tt
  fails-Answers P panicked fails = tt

  module _
      (law : (s : facade.compile_cache.Store) (k : QueryPlan Value) (v : Sql) (q : QueryPlan Value)
          (w : Sql)
        → facade.compile_cache.get (facade.compile_cache.insert s k v) q ≡ some w
        → (v ≡ w) ⊎ (facade.compile_cache.get s q ≡ some w)) where
    insert-SoundCache :
        (store : facade.compile_cache.Store) (q : QueryPlan Value) (sql : Sql)
        → SoundCache store
        → FromValid sql
        → SoundCache (facade.compile_cache.insert store q sql)
    insert-SoundCache store q sql h made = record {
      holds = λ p w e. elim (law store q sql p w e) [
        | inl same ↦ subst FromValid same made
        | inr old ↦ h.holds p w old
      ];
    }

    remember-SoundCache :
        (key : Text) (plan q : QueryPlan Value) (sql : Sql) (st : State facade)
        → SoundCache st.compiled_plans
        → FromValid sql
        → SoundCache (remember facade key plan q sql st).compiled_plans
    unfolding remember
    remember-SoundCache key plan q sql st h made =
        either-SoundCache facade.has_compile_cache _ _
          (insert-SoundCache st.compiled_plans q sql h made) h

    Sound : State facade × Answer Sql → Type 0
    Sound r = SoundCache r.0.compiled_plans × Answers FromValid r.1

    compile_step-Sound :
        (key : Text) (plan q : QueryPlan Value) (usage : TokenUsage) (st : State facade)
        → SoundCache st.compiled_plans
        → ((sql : Sql) → facade.compile_only q ≡ compiled sql → FromValid sql)
        → Sound (compile_step facade key plan usage q st)
    unfolding compile_step cached_sql Sound
    compile_step-Sound key plan q usage st h good = elim (Option-cases (cached_sql facade q st)) [
      | inr (sql, e) ↦
          rw (compile_step, e)
            (counting-SoundCache _ st h, h.holds q sql (hit_of facade.has_compile_cache _ sql e))
      | inl e ↦ elim (Compilation-cases (facade.compile_only q)) [
        | inr (x, f) ↦ rw (compile_step, e, f) (counting-SoundCache count_miss st h, tt)
        | inl (sql, f) ↦
            rw (compile_step, e, f)
              (
                counting-SoundCache end_query _ (
                    counting-SoundCache (count_tokens usage) _ (
                      remember-SoundCache key plan q sql _ (counting-SoundCache count_miss st h)
                        (good sql f))),
                good sql f,
              )
      ]
    ]

    optimize_with-Sound :
        (optimizer : Option (QueryPlan Value → Optimized Value)) (key : Text)
        (plan q : QueryPlan Value) (usage : TokenUsage) (st : State facade)
        → SoundCache st.compiled_plans
        → ((o : QueryPlan Value) (sql : Sql)
            → Chosen optimizer q o
            → facade.compile_only o ≡ compiled sql
            → FromValid sql)
        → Sound (optimize_with facade optimizer key plan usage q st)
    unfolding Sound optimize_with after_optimizer
    optimize_with-Sound none key plan q usage st h good =
        compile_step-Sound key plan q usage st h (λ sql. good q sql refl)
    optimize_with-Sound (some optimize) key plan q usage st h good =
        elim (Validation-cases (recheck facade.pipeline (optimize q))) [
          | inl (o, f) ↦ rw f (compile_step-Sound key plan o usage st h (λ sql. good o sql f))
          | inr (es, f) ↦ rw f (h, tt)
        ]

    Ends-Sound :
        (key : Text) (asked : State facade × Reply Value) (end : State facade × Answer Sql)
        → SoundCache asked.0.compiled_plans
        → Ends facade key asked end
        → Sound end
    unfolding Sound optimize_step
    Ends-Sound key asked end h (completed plan usage q r v) =
        optimize_with-Sound facade.optimizer key plan q usage asked.0 h
          (λ o sql chosen e. (plan, q, o, v, chosen, e))
    Ends-Sound key asked end h (stopped {a} idle fails) =
        (Idle-SoundCache asked _ h idle, fails-Answers FromValid a fails)

    obtain-plans :
        (client : ℕ → Text → Reply Value) (cached : Option (QueryPlan Value)) (attempt : ℕ)
        (question : Text) (usage : TokenUsage) (st : State facade)
        → (obtain facade client cached attempt question usage st).0.compiled_plans
          ≡ st.compiled_plans
    unfolding obtain ask
    obtain-plans client none attempt question usage st = refl
    obtain-plans client (some plan) zero question usage st = refl
    obtain-plans client (some plan) (suc n) question usage st = refl

    attempts_from-Sound :
        (client : ℕ → Text → Reply Value) (question : Text) (cached : Option (QueryPlan Value))
        (left attempt : ℕ) (asked : Text) (usage : TokenUsage) (st : State facade)
        → SoundCache st.compiled_plans
        → Sound (
            or_loop_error facade
              (attempts_from facade client question cached left attempt asked usage st))
    unfolding attempts_from or_loop_error Sound
    attempts_from-Sound client question cached zero attempt asked usage st h =
        (counting-SoundCache end_query st h, tt)
    attempts_from-Sound client question cached (suc left) attempt asked usage st h =
        let begun : SoundCache
            (obtain facade client cached attempt asked usage st).0.compiled_plans =
          rw (obtain-plans client cached attempt asked usage st) h in
        elim (attempts_from-step facade client question cached left attempt asked usage st) [
          | inl (end, ends, e) ↦ rw e (Ends-Sound _ _ end begun ends)
          | inr (next, spent, st1, idle, more, e) ↦ rw e (
              attempts_from-Sound client question cached left (suc attempt) next spent st1
                (Idle-SoundCache _ st1 begun idle))
        ]

    query_with-Sound :
        (client : Option (ℕ → Text → Reply Value)) (question : Text) (st : State facade)
        → SoundCache st.compiled_plans
        → Sound (query_with facade client question st)
    unfolding query_with Sound
    query_with-Sound none question st h = (counting-SoundCache end_query st h, tt)
    query_with-Sound (some client) question st h =
        attempts_from-Sound client question
          (facade.llm_cache.get st.known_plans (facade.to_lowercase question))
          (suc facade.max_retries) 0 question no_usage st h

    -- If after an insertion the cache of compiled plans gives for each plan what was inserted, or what it gave
    -- before, or nothing, then a query keeps it so that all SQL that the cache gives was compiled from a plan
    -- that the validation accepted, or from what the optimizer made of such a plan and the policy accepted;
    -- and so was the SQL that the query answers. That the cache tells plans apart is not assumed.
    pub query-FromValid :
        (question : Text) (st : State facade)
        → SoundCache st.compiled_plans
        → SoundCache (query facade question st).0.compiled_plans
          × Answers FromValid (query facade question st).1
    unfolding query Sound
    query-FromValid question st h =
        query_with-Sound facade.llm_client question _ (counting-SoundCache start_query st h)
