-- ===== src/Query/Scope.antt =====
-- The relations that one query level sees: `QuerySource` and `QueryScope` of
-- crates/vlorql-core/src/query.rs. A `HashSet<String>` is the list of its members.
use vlor_ql.Common.{Bool, false, not, ◌||◌, Option, none, some, List, [], ◌∷◌, ◌++◌, map}
use vlor_ql.Common.Lists.{any, keep, find}
use vlor_ql.Common.Text.{Text, bytes, ◌==◌}
use vlor_ql.Schema.Plan.{
  FromClause, JoinClauses, OptJoinClauses, Ctes, OptCtes, QueryPlan, joins_nil, joins_cons,
  no_joins, some_joins, ctes_nil, ctes_cons, no_ctes, some_ctes, query_plan,
}

pub record QuerySource : Type 0 where
  pub table : Text
  pub alias : Option Text

pub record QueryScope : Type 0 where
  pub sources : List QuerySource
  pub cte_names : List Text

-- `set.contains(name)`
unfoldable pub contains : List Text → Text → Bool
contains names name = any (λ n. n == name) names

-- `alias.as_deref() == Some(name)`
abbrev pub is_some_text : Option Text → Text → Bool
is_some_text none name = false
is_some_text (some a) name = a == name

abbrev pub alias_or : Option Text → Text → Text
alias_or none default = default
alias_or (some a) default = a

-- `QuerySource::from`
unfoldable pub from_clause : {Value : Type 0} → FromClause Value → QuerySource
from_clause (FromClause.table t a) = record { table = t; alias = a }
from_clause (FromClause.subquery _ a) = record {
  table = alias_or a (bytes "<subquery>");
  alias = a;
}

unfoldable pub join_sources : {Value : Type 0} → JoinClauses Value → List QuerySource
join_sources joins_nil = []
join_sources (joins_cons _ right_table _ joins) = from_clause right_table ∷ join_sources joins

unfoldable pub opt_join_sources : {Value : Type 0} → OptJoinClauses Value → List QuerySource
opt_join_sources no_joins = []
opt_join_sources (some_joins joins) = join_sources joins

unfoldable pub names_of_ctes : {Value : Type 0} → Ctes Value → List Text
names_of_ctes ctes_nil = []
names_of_ctes (ctes_cons name _ _ ctes) = name ∷ names_of_ctes ctes

unfoldable pub names_of_opt_ctes : {Value : Type 0} → OptCtes Value → List Text
names_of_opt_ctes no_ctes = []
names_of_opt_ctes (some_ctes ctes) = names_of_ctes ctes

unfoldable pub from_plan : {Value : Type 0} → QueryPlan Value → QueryScope
from_plan (query_plan _ _ _ from _ _ _ _ _ _ joins ctes _) = record {
  sources = from_clause from ∷ opt_join_sources joins;
  cte_names = names_of_opt_ctes ctes;
}

unfoldable pub extend_with_outer : QueryScope → QueryScope → QueryScope
extend_with_outer scope outer =
    let inner_tables = map (λ (s : QuerySource). s.table) scope.sources in
    record scope {
      sources = scope.sources ++ keep (λ s. not (contains inner_tables s.table)) outer.sources;
    }

-- The test of `resolve_source`.
abbrev pub is_named : Text → QuerySource → Bool
is_named qualifier source = source.table == qualifier || is_some_text source.alias qualifier

unfoldable pub resolve_source : QueryScope → Text → Option QuerySource
resolve_source scope qualifier = find (is_named qualifier) scope.sources
