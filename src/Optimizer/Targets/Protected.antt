-- ===== src/Optimizer/Targets/Protected.antt =====
-- No conjunct moves into a relation on the null-supplying side of an outer join
-- (crates/vlorql-core/src/optimizer/pushdown.rs).
use vlor_ql.Common.{
  true, false, Option, none, some, List, [], ◌∷◌, ◌++◌, ◌≡◌, refl, sym, subst, ◌∙◌, inl, inr,
  Bool-cases, Member, here, there,
}
use vlor_ql.Common.Lists.{any, any_complete, Member-append_left, Member-append_right}
use vlor_ql.Common.Text.{Text, ◌==◌, ==_refl}
use vlor_ql.Optimizer.Columns.{referenced_tables}
use vlor_ql.Optimizer.Targets.Named.{Names, referenced_tables-Names}
use vlor_ql.Optimizer.Targets.{
  AliasToCte, cte_of, holds_name, is_unqualified, target_of, single_cte_target, relation_key,
  protect_join, protect_joins, outer_join_protected_aliases,
}
use vlor_ql.Schema.Types.{JoinType}
use vlor_ql.Schema.Plan.{Predicate, FromClause, JoinClauses, joins_nil, joins_cons, some_joins}

-- A join of the type puts nulls in place of the rows of the relation of that name: a LEFT join those of its
-- right side, a RIGHT join those of the relations before it, and a FULL join all of them.
pub data NullSupplies (from right : Text) (earlier : List Text) (name : Text)
    : JoinType → Type 0 where
  left_right : right ≡ name → NullSupplies from right earlier name JoinType.left
  right_from : from ≡ name → NullSupplies from right earlier name JoinType.right
  right_earlier : Member name earlier → NullSupplies from right earlier name JoinType.right
  full_right : right ≡ name → NullSupplies from right earlier name JoinType.full
  full_from : from ≡ name → NullSupplies from right earlier name JoinType.full
  full_earlier : Member name earlier → NullSupplies from right earlier name JoinType.full

-- Some join of the list does so; `earlier` are the relations joined before.
pub data IsNullSupplied {Value : Type 0} (from name : Text)
    : List Text → JoinClauses Value → Type 0 where
  at_join :
      {earlier : List Text} {type : JoinType} {right : FromClause Value} {on : Predicate Value}
      {joins : JoinClauses Value}
      → NullSupplies from (relation_key right) earlier name type
      → IsNullSupplied from name earlier (joins_cons type right on joins)
  later :
      {earlier : List Text} {type : JoinType} {right : FromClause Value} {on : Predicate Value}
      {joins : JoinClauses Value}
      → IsNullSupplied from name (earlier ++ relation_key right ∷ []) joins
      → IsNullSupplied from name earlier (joins_cons type right on joins)

protect_join-keeps :
    (type : JoinType) (from right : Text) (earlier protected : List Text) {name : Text}
    → Member name protected
    → Member name (protect_join type from right earlier protected)
unfolding protect_join
protect_join-keeps JoinType.left from right earlier protected m = Member-append_left protected _ m
protect_join-keeps JoinType.right from right earlier protected m = Member-append_left protected _ m
protect_join-keeps JoinType.full from right earlier protected m = Member-append_left protected _ m
protect_join-keeps JoinType.inner from right earlier protected m = m
protect_join-keeps JoinType.cross from right earlier protected m = m

protect_join-NullSupplies :
    (type : JoinType) (from right : Text) (earlier protected : List Text) {name : Text}
    → NullSupplies from right earlier name type
    → Member name (protect_join type from right earlier protected)
unfolding protect_join
protect_join-NullSupplies JoinType.left from right earlier protected (left_right e) =
    Member-append_right protected _ (here e)
protect_join-NullSupplies JoinType.right from right earlier protected (right_from e) =
    Member-append_right protected _ (here e)
protect_join-NullSupplies JoinType.right from right earlier protected (right_earlier m) =
    Member-append_right protected _ (there m)
protect_join-NullSupplies JoinType.full from right earlier protected (full_right e) =
    Member-append_right protected _ (there (here e))
protect_join-NullSupplies JoinType.full from right earlier protected (full_from e) =
    Member-append_right protected _ (here e)
protect_join-NullSupplies JoinType.full from right earlier protected (full_earlier m) =
    Member-append_right protected _ (there (there m))
protect_join-NullSupplies JoinType.inner from right earlier protected n = elim n [ ]
protect_join-NullSupplies JoinType.cross from right earlier protected n = elim n [ ]

holds_name-Member :
    (names : List Text) {name : Text} → Member name names → holds_name names name ≡ true
unfolding holds_name
holds_name-Member names {name} m = any_complete (λ n. n == name) names m (==_refl name)

target_of-some :
    (tables : List (Option Text)) (m : AliasToCte) (protected : List Text) (cte : Text)
    → target_of tables m protected ≡ some cte
    → (alias : Text) × (tables ≡ some alias ∷ [])
      × (cte_of m alias ≡ some cte)
      × (holds_name protected alias ≡ false)
target_of-some [] m protected cte e = cc
target_of-some (none ∷ []) m protected cte e = cc
target_of-some (none ∷ _ ∷ _) m protected cte e = cc
target_of-some (some alias ∷ _ ∷ _) m protected cte e = cc
target_of-some (some alias ∷ []) m protected cte e =
    elim (Bool-cases (holds_name protected alias)) [
      | inl t ↦ let bad : none ≡ some cte = rw t at e in cc
      | inr f ↦ (alias, refl, rw f at e, f)
    ]

only-Member : {t u : Option Text} → Member t (u ∷ []) → t ≡ u
only-Member (here e) = sym e
only-Member (there m) = elim m [ ]

module _ {Value : Type 0} where
  protect_joins-keeps :
      (joins : JoinClauses Value) (from : Text) (earlier protected : List Text) {name : Text}
      → Member name protected
      → Member name (protect_joins joins from earlier protected)
  unfolding protect_joins
  protect_joins-keeps joins_nil from earlier protected m = m
  protect_joins-keeps (joins_cons type right _ joins) from earlier protected m =
      protect_joins-keeps joins from _ _ (protect_join-keeps type from _ earlier protected m)

  protect_joins-IsNullSupplied :
      (joins : JoinClauses Value) (from : Text) (earlier protected : List Text) {name : Text}
      → IsNullSupplied from name earlier joins
      → Member name (protect_joins joins from earlier protected)
  unfolding protect_joins
  protect_joins-IsNullSupplied joins_nil from earlier protected s = elim s [ ]
  protect_joins-IsNullSupplied (joins_cons type right _ joins) from earlier protected (at_join s) =
      protect_joins-keeps joins from _ _
        (protect_join-NullSupplies type from (relation_key right) earlier protected s)
  protect_joins-IsNullSupplied (joins_cons type right _ joins) from earlier protected (later s) =
      protect_joins-IsNullSupplied joins from _ _ s

  -- If a conjunct of a query with joins is to move into a CTE, then there is an alias by which every column
  -- that is an operand of the conjunct, or of a predicate that it is made of, is qualified; the alias stands
  -- for that CTE; and no outer join of the query can put nulls in place of the rows of the relation. Columns
  -- under operators, functions, `CASE` and in subqueries are not operands.
  pub single_cte_target-safe :
      (conjunct : Predicate Value) (m : AliasToCte) (from : FromClause Value)
      (joins : JoinClauses Value) (cte : Text)
      → single_cte_target conjunct m (outer_join_protected_aliases from (some_joins joins))
        ≡ some cte
      → (alias : Text) × ((t : Option Text) → Names t conjunct → t ≡ some alias)
        × (cte_of m alias ≡ some cte)
        × (¬ IsNullSupplied (relation_key from) alias [] joins)
  unfolding single_cte_target outer_join_protected_aliases
  single_cte_target-safe conjunct m from joins cte e =
      elim (Bool-cases (any is_unqualified (referenced_tables conjunct))) [
        | inl t ↦ let bad : none ≡ some cte = rw t at e in cc
        | inr f ↦
            let (alias, one, found, free) =
              target_of-some (referenced_tables conjunct) m _ cte (rw f at e) in
            (
              alias,
              λ t named.
                  only-Member (subst (Member t) one (referenced_tables-Names t conjunct named)),
              found,
              λ s.
                  let held =
                    holds_name-Member _
                      (protect_joins-IsNullSupplied joins (relation_key from) [] [] s) in
                  let bad : true ≡ false = sym held ∙ free in absurd cc,
            )
      ]
