-- ===== src/Optimizer/Targets.antt =====
-- Which conjuncts may move into a CTE: `single_cte_target`, `cte_relation_aliases` and
-- `outer_join_protected_aliases` of crates/vlorql-core/src/optimizer/pushdown.rs. A `HashSet` is the list of
-- its members, and a `HashMap` an association list with the newest entry in front.
pub mod Named
pub mod Protected
pub mod Hidden
use vlor_ql.Common.{
  Bool, true, false, Option, none, some, List, [], ◌∷◌, ◌++◌, if◌then◌else◌, for_each,
}
use vlor_ql.Common.Lists.{any}
use vlor_ql.Common.Text.{Text, bytes, ◌==◌}
use vlor_ql.Optimizer.Columns.{referenced_tables}
use vlor_ql.Schema.Types.{JoinType}
use vlor_ql.Schema.Plan.{
  Predicate, FromClause, JoinClauses, OptJoinClauses, joins_nil, joins_cons, no_joins, some_joins,
}

abbrev pub AliasToCte : Type 0
AliasToCte = List (Text × Text)

unfoldable pub cte_of : AliasToCte → Text → Option Text
cte_of [] alias = none
cte_of ((key, cte) ∷ entries) alias =
    let rest = cte_of entries alias in if key == alias then some cte else rest

unfoldable pub holds_name : List Text → Text → Bool
holds_name names name = any (λ n. n == name) names

abbrev pub is_unqualified : Option Text → Bool
is_unqualified none = true
is_unqualified (some _) = false

abbrev pub name_or : Option Text → Text → Text
name_or none name = name
name_or (some alias) name = alias

-- `tables.len() != 1`, and then the only one.
abbrev pub target_of : List (Option Text) → AliasToCte → List Text → Option Text
target_of (some alias ∷ []) alias_to_cte protected =
    if holds_name protected alias then none else cte_of alias_to_cte alias
target_of _ alias_to_cte protected = none

-- The match on `join_type`: the relations to the left of the join are `from_key` and `earlier`.
unfoldable pub protect_join : JoinType → Text → Text → List Text → List Text → List Text
protect_join JoinType.left from_key right_key earlier protected = protected ++ right_key ∷ []
protect_join JoinType.right from_key right_key earlier protected = protected ++ from_key ∷ earlier
protect_join JoinType.full from_key right_key earlier protected =
    protected ++ from_key ∷ right_key ∷ earlier
protect_join JoinType.inner from_key right_key earlier protected = protected
protect_join JoinType.cross from_key right_key earlier protected = protected

module _ {Value : Type 0} where
  unfoldable pub single_cte_target : Predicate Value → AliasToCte → List Text → Option Text
  single_cte_target conjunct alias_to_cte protected =
      let tables = referenced_tables conjunct in
      if any is_unqualified tables then none else target_of tables alias_to_cte protected

  -- The closure `record`, on what `table_name` and `alias` give.
  unfoldable pub record_relation : List Text → FromClause Value → AliasToCte → AliasToCte
  record_relation cte_names (FromClause.table name alias) entries =
      if holds_name cte_names name then (name_or alias name, name) ∷ entries else entries
  record_relation cte_names (FromClause.subquery _ _) entries = entries

  unfoldable pub record_joins : List Text → JoinClauses Value → AliasToCte → AliasToCte
  record_joins cte_names joins_nil entries = entries
  record_joins cte_names (joins_cons _ right _ joins) entries =
      record_joins cte_names joins (record_relation cte_names right entries)

  unfoldable pub cte_relation_aliases :
      FromClause Value → OptJoinClauses Value → List Text → AliasToCte
  cte_relation_aliases from no_joins cte_names = record_relation cte_names from []
  cte_relation_aliases from (some_joins joins) cte_names =
      record_joins cte_names joins (record_relation cte_names from [])

  -- `from_key` and `right_key`
  unfoldable pub relation_key : FromClause Value → Text
  relation_key (FromClause.table name alias) = name_or alias name
  relation_key (FromClause.subquery _ alias) = name_or alias (bytes "<subquery>")

  -- The loop over the joins, with the keys of those before.
  unfoldable pub protect_joins : JoinClauses Value → Text → List Text → List Text → List Text
  protect_joins joins_nil from_key earlier protected = protected
  protect_joins (joins_cons type right _ joins) from_key earlier protected =
      protect_joins joins from_key (earlier ++ relation_key right ∷ [])
        (protect_join type from_key (relation_key right) earlier protected)

  unfoldable pub outer_join_protected_aliases : FromClause Value → OptJoinClauses Value → List Text
  outer_join_protected_aliases from no_joins = []
  outer_join_protected_aliases from (some_joins joins) =
      protect_joins joins (relation_key from) [] []
