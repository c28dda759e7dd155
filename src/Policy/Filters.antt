-- ===== src/Policy/Filters.antt =====
-- Row filters: `PolicyEngine::apply_row_filters` and its helpers in
-- crates/vlorql-core/src/policy/engine.rs, and the injection of the combined filter into the `WHERE`
-- clause by `ValidationPipeline::validate` in crates/vlorql-core/src/validate/pipeline.rs.
pub mod Enforced
use vlor_ql.Common.{
  Bool, true, false, not, ◌||◌, Option, none, some, List, [], ◌∷◌, ◌++◌, if◌then◌else◌,
}
use vlor_ql.Common.Lists.{any, all, is_empty, for_each}
use vlor_ql.Common.Text.{Text}
use vlor_ql.Policy.Config.{PolicyConfig, RowFilter, get_row_filter}
use vlor_ql.Query.References.{ColumnReference, push, collect_predicate_references}
use vlor_ql.Query.Scope.{QuerySource, QueryScope, from_plan, is_named}
use vlor_ql.Schema.Plan.{
  Predicate, OptPredicate, QueryPlan, and_pred, no_pred, some_pred, query_plan,
}

-- The tables that qualify some reference.
unfoldable pub qualified_tables : List ColumnReference → List Text
qualified_tables [] = []
qualified_tables (r ∷ rs) =
    let rest = qualified_tables rs in elim r.table [ none ↦ rest | some t ↦ t ∷ rest ]

-- The test of `row_filter_matches_sources` on the qualifiers.
abbrev pub matches_tables : List Text → List QuerySource → Bool
matches_tables [] sources = not (is_empty sources)
matches_tables (t ∷ ts) sources = all (λ q. any (is_named q) sources) (t ∷ ts)

module _ {Value : Type 0} where
  unfoldable pub row_filter_matches_sources : RowFilter Value → List QuerySource → Bool
  row_filter_matches_sources filter sources =
      matches_tables (qualified_tables (collect_predicate_references filter.condition [])) sources

  abbrev pub push_filter :
      Option (RowFilter Value) → List (Predicate Value) → List (Predicate Value)
  push_filter none filters = filters
  push_filter (some f) filters = push filters f.condition

  -- The first loop of `apply_row_filters`: the filter of each source's table.
  unfoldable pub push_source_filter :
      PolicyConfig Value → QuerySource → List (Predicate Value) → List (Predicate Value)
  push_source_filter config source filters =
      push_filter (get_row_filter config source.table) filters

  -- The second loop: each global filter that matches the sources.
  unfoldable pub push_matching_filter :
      List QuerySource → RowFilter Value → List (Predicate Value) → List (Predicate Value)
  push_matching_filter sources filter filters =
      if row_filter_matches_sources filter sources then push filters filter.condition else filters

  unfoldable pub collect_filters : PolicyConfig Value → List QuerySource → List (Predicate Value)
  collect_filters config sources =
      for_each (push_matching_filter sources) config.row_filters
        (for_each (push_source_filter config) sources [])

  -- `filters.into_iter().reduce(..)`, from a first predicate on.
  unfoldable pub reduce_and : Predicate Value → List (Predicate Value) → Predicate Value
  reduce_and p [] = p
  reduce_and p (q ∷ qs) = reduce_and (and_pred p q) qs

  unfoldable pub combine_with_and : List (Predicate Value) → Option (Predicate Value)
  combine_with_and [] = none
  combine_with_and (p ∷ ps) = some (reduce_and p ps)

  unfoldable pub apply_row_filters : PolicyConfig Value → QueryPlan Value → Option (Predicate Value)
  apply_row_filters config plan = combine_with_and (collect_filters config (from_plan plan).sources)

  -- The match of the pipeline on the plan's own predicate.
  abbrev pub and_where : OptPredicate Value → Predicate Value → OptPredicate Value
  and_where no_pred row_filter = some_pred row_filter
  and_where (some_pred existing) row_filter = some_pred (and_pred existing row_filter)

  abbrev pub add_filter : OptPredicate Value → Option (Predicate Value) → OptPredicate Value
  add_filter filter none = filter
  add_filter filter (some row_filter) = and_where filter row_filter

  unfoldable pub inject_row_filters : PolicyConfig Value → QueryPlan Value → QueryPlan Value
  inject_row_filters config
        (query_plan select d on from filter group having order l o joins ctes sets) =
      let plan = query_plan select d on from filter group having order l o joins ctes sets in
      query_plan select d on from (add_filter filter (apply_row_filters config plan)) group having
        order l o joins ctes sets

  -- `plan.r#where`
  abbrev pub where_of : QueryPlan Value → OptPredicate Value
  where_of (query_plan _ _ _ _ filter _ _ _ _ _ _ _ _) = filter
