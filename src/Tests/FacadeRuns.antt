-- ===== src/Tests/FacadeRuns.antt =====
-- Queries at concrete models and plans, and the results about them.
use vlor_ql.Common.{
  ℕ, zero, suc, ◌+◌, ◌≤◌, ◌<◌, ◌≡◌, ◌↔◌, refl, ◌⊎◌, inl, inr, List, [], ◌∷◌, true, false,
  if◌then◌else◌, Option, none, some, arith, nat_eq, Bool-cases, some-injective,
}
use vlor_ql.Common.Lists.{keep}
use vlor_ql.Common.Text.{Text, bytes, ◌==◌}
use vlor_ql.Errors.{VlorQlError, is_retryable, llm, timeout, policy, table_denied, no_details}
use vlor_ql.Errors.Codes.{error_code}
use vlor_ql.Facade.Feedback.{Texts, shown_errors, min}
use vlor_ql.Facade.Query.{
  TokenUsage, Reply, planned, failed, Cache, Metrics, compiled, Answer, ok, err, Facade, State,
  no_usage,
}
use vlor_ql.Facade.Query.Attempts.{
  counting, ask, obtain, attempts_from, or_loop_error, query_with, query,
}
use vlor_ql.Facade.Query.Attempts.Bounds.{query-sends, attempts_from-returns, sends}
use vlor_ql.Facade.Query.Attempts.Sound.{SoundCache, FromValid, Answers, query-FromValid}
use vlor_ql.Facade.Query.Attempts.Answered.{IsRetried, query-ok}
use vlor_ql.Facade.Query.Attempts.Gauge.{query-gauge, gauge}
use vlor_ql.Schema.Plan.{
  QueryPlan, FromClause, JoinClauses, OptJoinClauses, some_joins, joins_cons, joins_nil, query_plan,
}
use vlor_ql.Schema.Snapshot.{get_table, index_get, new}
use vlor_ql.Schema.Types.{JoinType}
use vlor_ql.Validate.Pipeline.{valid}
use vlor_ql.Validate.Repairing.{
  validate_repairing, drop_hallucinated_joins, audit_errors, unless_errors,
}
use vlor_ql.Validate.Repairing.Joins.{
  joins_of, with_joins, append_joins, opt_has_subquery_join, validate_repairing-panics,
  validate_repairing-unknown,
}
use vlor_ql.Policy.Engine.Nested.{rejected}
use vlor_ql.Policy.Filters.{inject_row_filters}
use vlor_ql.Tests.PolicyRuns.{pipeline_with, pipeline-valid}
use vlor_ql.Tests.Samples.{config, snapshot, emails, users, equals, column_of, id}

abbrev pub texts : Texts
texts = record {
  to_string = error_code;
  number = λ n. n ∷ [];
  build_hint = λ _. [];
  errors_json = λ _. no_details;
}

-- A cache that keeps its newest entry under any key.
abbrev forgetful : (V : Type 0) → Cache Text V
forgetful V = record { Store = Unit {0}; get = λ _ _. none; insert = λ s _ _. s }

abbrev no_sql_cache : Cache (QueryPlan ℕ) ℕ
no_sql_cache = record { Store = Unit {0}; get = λ _ _. none; insert = λ s _ _. s }

-- A hash that tells plans apart by their limit only.
abbrev hash : QueryPlan ℕ → ℕ
hash (query_plan _ _ _ _ _ _ _ _ (some n) _ _ _ _) = suc n
hash (query_plan _ _ _ _ _ _ _ _ none _ _ _ _) = 0

abbrev stored : List (ℕ × ℕ) → QueryPlan ℕ → Option ℕ
stored [] plan = none
stored ((h, sql) ∷ entries) plan =
    let rest = stored entries plan in if nat_eq h (hash plan) then some sql else rest

-- A cache that is keyed by the hash.
abbrev sql_cache : Cache (QueryPlan ℕ) ℕ
sql_cache = record {
  Store = List (ℕ × ℕ);
  get = stored;
  insert = λ entries plan sql. (hash plan, sql) ∷ entries;
}

sql_cache-law :
    (entries : List (ℕ × ℕ)) (plan : QueryPlan ℕ) (sql : ℕ) (q : QueryPlan ℕ) (found : ℕ)
    → stored ((hash plan, sql) ∷ entries) q ≡ some found
    → (sql ≡ found) ⊎ (stored entries q ≡ some found)
sql_cache-law entries plan sql q found h = elim (Bool-cases (nat_eq (hash plan) (hash q))) [
  | inl t ↦ inl (some-injective (rw t at h))
  | inr f ↦ inr (rw f at h)
]

abbrev pub usage : TokenUsage
usage = record { prompt_tokens = 5; completion_tokens = 8 }

-- The first request times out.
abbrev slow_start : ℕ → Text → Reply ℕ
slow_start zero asked = failed (llm timeout no_details)
slow_start (suc n) asked = planned emails usage

abbrev denied : VlorQlError
denied = policy (table_denied []) no_details

abbrev refusing : ℕ → Text → Reply ℕ
refusing n asked = failed denied

abbrev facade_of : (ℕ → Text → Reply ℕ) → Facade ℕ ℕ
facade_of client = record {
  texts = texts;
  llm_client = some client;
  pipeline = pipeline_with [];
  optimizer = none;
  compile_only = λ plan. compiled 42;
  compile_cache = no_sql_cache;
  has_compile_cache = false;
  llm_cache = forgetful (QueryPlan ℕ);
  to_lowercase = λ t. t;
  max_retries = 2;
}

abbrev idle : Metrics
idle = record {
  active_queries = 0;
  query_counter = 0;
  error_counter = 0;
  cache_hit_counter = 0;
  cache_miss_counter = 0;
  llm_prompt_tokens = 0;
  llm_completion_tokens = 0;
}

abbrev start : (client : ℕ → Text → Reply ℕ) → State (facade_of client)
start client = record { metrics = some idle; compiled_plans = tt; known_plans = tt; sent = [] }

pub emails-accepted :
    validate_repairing (pipeline_with []) emails ≡ some (valid (inject_row_filters config emails))
unfolding validate_repairing drop_hallucinated_joins audit_errors unless_errors keep
emails-accepted = pipeline-valid

abbrev question : Text
question = bytes "who"

first-IsRetried :
    (i : ℕ) → i < 1 → (asked : Text) → IsRetried (facade_of slow_start) (slow_start i asked)
unfolding is_retryable
first-IsRetried zero h asked = refl
first-IsRetried (suc i) h asked = elim (never i h) [ ]
  where
    never : (i : ℕ) → ¬ (suc i < 1)
    never i h = omega arith

query-ok_example : (query (facade_of slow_start) question (start slow_start)).1 ≡ ok 42 usage
query-ok_example =
    query-ok (facade_of slow_start) emails (inject_row_filters config emails)
      (inject_row_filters config emails) usage 42 emails-accepted refl refl refl slow_start question
      1 (start slow_start) refl refl (omega arith) first-IsRetried (λ asked. refl)

query-sends_example :
    sends (facade_of slow_start) (query (facade_of slow_start) question (start slow_start)).0
    ≤ 3 + 0
query-sends_example = query-sends (facade_of slow_start) question (start slow_start)

attempts_from-returns_example :
    (a : Answer ℕ) × ((attempts_from
        (facade_of slow_start)
        slow_start
        question
        none
        3
        0
        question
        no_usage
        (start slow_start)).1
      ≡ some a)
attempts_from-returns_example =
    attempts_from-returns (facade_of slow_start) slow_start question none 2 0 question no_usage
      (start slow_start) (omega arith)

abbrev caching : Facade ℕ ℕ
caching = record {
  texts = texts;
  llm_client = some slow_start;
  pipeline = pipeline_with [];
  optimizer = none;
  compile_only = λ plan. compiled 42;
  compile_cache = sql_cache;
  has_compile_cache = true;
  llm_cache = forgetful (QueryPlan ℕ);
  to_lowercase = λ t. t;
  max_retries = 2;
}

abbrev start_caching : State caching
start_caching = record { metrics = some idle; compiled_plans = []; known_plans = tt; sent = [] }

query-FromValid_example :
    SoundCache caching (query caching question start_caching).0.compiled_plans
    × Answers caching (FromValid caching) (query caching question start_caching).1
query-FromValid_example =
    query-FromValid caching sql_cache-law question start_caching record { holds = λ q sql h. cc }

refusing-err : (query (facade_of refusing) question (start refusing)).1 ≡ err denied
unfolding query query_with attempts_from obtain ask or_loop_error is_retryable counting
refusing-err = refl

query-gauge_example :
    gauge (facade_of refusing) (query (facade_of refusing) question (start refusing)).0 ≡ 1
query-gauge_example =
    query-gauge (facade_of refusing) refusing question (start refusing) idle denied refl refl
      refusing-err

shows_three : shown_errors 5 9 ≡ 3
unfolding shown_errors min
shows_three = refl

abbrev joined_subquery : OptJoinClauses ℕ
joined_subquery = some_joins (
    joins_cons JoinType.inner (FromClause.subquery emails none) (equals (column_of users.name id) 1)
      joins_nil)

validate_repairing-panics_example :
    (validate_repairing (pipeline_with []) (with_joins joined_subquery emails) ≡ none) ↔ (
      (opt_has_subquery_join (joins_of (with_joins joined_subquery emails)) ≡ true)
      ⊎ ((r : QueryPlan ℕ) × (drop_hallucinated_joins snapshot (with_joins joined_subquery emails)
            ≡ some r)
          × (audit_errors (some (λ p. rejected [])) r ≡ [])
          × (some r ≡ none)))
validate_repairing-panics_example =
    validate_repairing-panics (pipeline_with []) (with_joins joined_subquery emails)

-- `INNER JOIN <table> ON users.id = 1`
abbrev joined : Text → JoinClauses ℕ → JoinClauses ℕ
joined table rest =
    joins_cons JoinType.inner (FromClause.table table none) (equals (column_of users.name id) 1)
      rest

validate_repairing-unknown_example :
    validate_repairing (pipeline_with []) (
      with_joins
        (some_joins
          (append_joins (joined (bytes "accounts") joins_nil) (joined (bytes "recent") joins_nil)))
        emails)
    ≡ validate_repairing (pipeline_with []) (
        with_joins
          (some_joins (append_joins (joined (bytes "accounts") joins_nil) joins_nil))
          emails)
unfolding get_table index_get new ◌==◌
validate_repairing-unknown_example =
    validate_repairing-unknown (pipeline_with []) emails (joined (bytes "accounts") joins_nil)
      JoinType.inner (bytes "recent") none (equals (column_of users.name id) 1) joins_nil refl
