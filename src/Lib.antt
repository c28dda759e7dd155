-- ===== src/Lib.antt =====
-- VlorQl: the core of the query orchestrator, and what makes it correct.
--
-- A language model emits a QueryPlan, never SQL. The plan is validated against a schema snapshot and a
-- policy, restricted by row filters, optimised, and compiled to parameterised SQL. The modules follow
-- the crates of the repository:
--
-- Common: shared names, lists, text and the notion of a checking pass (`Common.Checks`).
-- Schema: crates/vlorql-core/src/schema. `Schema.Plan` has the plan language (`Expression`,
--   `Predicate`, `QueryPlan` and the rest), `Schema.Types` the enumerations, `Schema.Snapshot` the
--   tables and the index from names to positions (`new`, `set_tables`, `rebuild_index`, `get_table`).
-- Errors: crates/vlorql-core/src/errors, the error kinds and details of the modelled components.
-- Query: crates/vlorql-core/src/query.rs, the scope of a query level and the references made there.
--   `Query.Mentions` says by the parts of the plan language which columns and stars a query names, and its
--   child that the collection of references finds them.
-- Policy: crates/vlorql-core/src/policy. `Policy.Config` has the rules on tables and columns,
--   `Policy.Report` the state that validation accumulates, `Policy.Engine` the checks of one level,
--   `Policy.Engine.Nested` the recursion of `validate_plan_inner`, `Policy.Filters` the row filters and
--   their injection by the validation pipeline. `Policy.Permitted` states when a plan is permitted, with
--   no reference to errors and reports; its children prove the engine right.
-- Validate: crates/vlorql-core/src/validate. `Validate.Pipeline` is `ValidationPipeline::validate`: the
--   repaired plan goes through the stages, of which the policy engine is that of `Policy` and the others
--   are the interface `Stages`, with the repair, which may panic; their errors are collected, and an accepted
--   plan gets its row filters.
-- Compile: crates/vlorql-core/src/compile. `Compile.Dialect` has the dialect settings and the quoting of
--   identifiers, `Compile.Sql` the text, the parameters and the results of rendering, `Compile.Builder`
--   the state of `QueryBuilder` (parameters, cache, alias scopes, the CTE flag), and its children the
--   words (`Keywords`), the small clauses (`Clauses`) and the recursion over a query (`Queries`). A
--   function of the builder that appends to a buffer returns what it appends, so text is a list of
--   fragments, in which a placeholder keeps its index; `sql_text` is the `String` that they stand for. The
--   builder behind an error is given up, as `build` does. `serde_json` is the interface `Json`. The
--   details that accompany a compilation error are left out.
-- Optimizer: crates/vlorql-core/src/optimizer. `Optimizer.Rules` has the pipeline of rewrite rules,
--   `Optimizer.Conjuncts` the splitting of a predicate at AND, `Optimizer.Columns` the columns that a
--   predicate refers to, as the optimizer sees them, and `Optimizer.Targets` the choice of the CTE into
--   which a conjunct moves. The equality of plans that `repeat_until_stable` tests is a parameter.
-- Validate.Repairing: validation on the execution path (`validate_repairing`, with
--   `drop_hallucinated_joins` of crates/vlorql-core/src/fix/joins.rs) and with an optimizer.
--   `Validate.Audit` is the audit of crates/vlorql-core/src/validate/audit.rs, and
--   `Validate.Warnings` its state.
--   `Validate.Dialect` has the checks of dialect features of crates/vlorql-core/src/validate/dialect.rs,
--   `Validate.Dialect.Walk` their recursion, and `Validate.Dialect.Uses` collects the features that a plan
--   uses, by which the checks are judged. The profile of a dialect is in `Schema.Dialect`.
-- Llm: crates/vlorql-llm/src. `Llm.Recover` is parser_v2/recover, one module for each of its files and
--   the repair and the choice of objects apart; a `str` there is the list of its characters, an offset the
--   number of characters before it, and `serde_json` the interface `JsonParser`. `Llm.Retry` is the loop
--   of requests of retry_client.rs, its result with the delays that it sleeps, and `Llm.Sse` the consumer
--   of server-sent events of sse.rs, and `Llm.Sse.Lines` the lines of its stream of bytes.
-- Facade: crates/vlorql/src. `Facade.Feedback` has the questions of retries, `Facade.Query` the state of
--   `VlorQl::query` (counters, the stores of the two caches, the questions sent), `Facade.Query.Attempts`
--   its loop, and `Facade.Stream` the streaming query, as the list of events that the caller gets before he drops the
--   receiver. The model, the
--   optimizer, the compiler and the caches are parameters; of a cache the theorems ask, where they need
--   it, that a look-up after an insertion gives what was inserted or what was there. A query may end in a
--   panic, which is an answer of its own. Prompts, durations, temperatures and spans are left out.
--
-- How the source is rendered. A `Vec` is a list and an `Option` an option; inside the plan language,
-- where types hold lists of one another, each is a type of its own in one mutual block. `String` is the
-- list of its UTF-8 bytes. `HashSet` and `HashMap` are lists of members and association lists. A
-- `&mut` argument is the last argument, and the result is its value afterwards. `serde_json::Value` is a
-- type parameter. The static strings that name reasons are the constructors of `Label`, and the `json!`
-- objects of errors are the constructors of `Details`, where no module says that they are left out. Recursion is structural. There is fuel in `decimal`,
-- one more than the number, which has no more digits than that. The loops over attempts count down from
-- the number of attempts that the source allows.
--
-- Upper case, in the audit, changes the characters whose upper case has an ASCII letter, which is all that
-- its patterns can match. A depth in the scan of brackets ends the search
-- where it leaves `u32`; the `i32` depth of the repair is the pair of its openers and its closers.
--
-- Not modelled: the repair of plans beside hallucinated joins, the schema and operand stages,
-- constant folding, column pruning and join reordering; the normalisation of parsed plans; HTTP and the
-- formats of the providers, caches (wrappers of a third-party cache), prompts, the command line.
pub mod Common
pub mod Schema
pub mod Query
pub mod Errors
pub mod Policy
pub mod Compile
pub mod Optimizer
pub mod Validate
pub mod Llm
pub mod Facade
mod Tests
