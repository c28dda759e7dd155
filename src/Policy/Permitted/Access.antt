-- ===== src/Policy/Permitted/Access.antt =====
-- What acceptance means for the data that a plan reads: every column that a visited level reads is
-- allowed by the public `is_column_allowed`.
use vlor_ql.Common.{Bool, true, false, Option, none, some, List, [], ◌∷◌, ◌≡◌, refl, if◌then◌else◌}
use mathlib.Core.Path.{subst}
use vlor_ql.Common.Checks.{Unless}
use vlor_ql.Common.Lists.{All, All-Member, Member, here, there}
use vlor_ql.Common.Text.{Text}
use vlor_ql.Policy.Config.{PolicyConfig, is_column_allowed}
use vlor_ql.Policy.Config.Laws.{is_column_allowed_iff}
use vlor_ql.Policy.Engine.{is_cte, has_column, candidates, add_candidate}
use vlor_ql.Policy.Engine.Nested.{accepted, validate}
use vlor_ql.Policy.Permitted.{
  TablePermitted, ColumnPermitted, FoundPermitted, AllColumnsPermitted, ExistingPermitted,
  SourcePermitted, StarSourcePermitted, StarResolvedPermitted, StarPermitted, ResolvedPermitted,
  CandidatesPermitted, ReferencePermitted, LevelPermitted, QueryLevel, levels,
}
use vlor_ql.Policy.Permitted.Plan.{validate_iff}
use vlor_ql.Query.Mentions.{MentionsColumn, SelectsStar}
use vlor_ql.Query.Mentions.Collected.{
  collect_plan_references-MentionsColumn, collect_plan_references-SelectsStar,
}
use vlor_ql.Query.References.{ColumnReference, collect_plan_references}
use vlor_ql.Query.Scope.{QueryScope, QuerySource, resolve_source}
use vlor_ql.Schema.Snapshot.{SchemaSnapshot, TableSchema, ColumnSchema, get_table}
use vlor_ql.Schema.Plan.{QueryPlan}

-- The source stands for the table of the schema.
pub record SourceOf (snapshot : SchemaSnapshot) (scope : QueryScope) (t : TableSchema)
    : Type 0 where
  pub source : QuerySource
  pub in_scope : Member source scope.sources
  pub no_cte : is_cte scope source ≡ false
  pub found : get_table snapshot source.table ≡ some t

-- The level reads the column of the table: it names the column by a qualifier that stands for the table, or
-- without one where the table can provide it, or it selects a star.
pub data Reads {Value : Type 0} (snapshot : SchemaSnapshot) (level : QueryLevel Value)
    (t : TableSchema) (col : Text) : Type 0 where
  qualified :
      (qualifier : Text) (s : SourceOf snapshot level.scope t)
      → MentionsColumn (record { table = some qualifier; column = col }) level.plan
      → resolve_source level.scope qualifier ≡ some s.source
      → Reads snapshot level t col
  unqualified :
      SourceOf snapshot level.scope t
      → MentionsColumn (record { table = none; column = col }) level.plan
      → has_column t col ≡ true
      → Reads snapshot level t col
  by_star :
      (c : ColumnSchema)
      → SourceOf snapshot level.scope t
      → SelectsStar none level.plan
      → Member c t.columns
      → c.name ≡ col
      → Reads snapshot level t col
  by_table_star :
      (c : ColumnSchema) (qualifier : Text) (s : SourceOf snapshot level.scope t)
      → SelectsStar (some qualifier) level.plan
      → resolve_source level.scope qualifier ≡ some s.source
      → Member c t.columns
      → c.name ≡ col
      → Reads snapshot level t col

if-Member :
    (b : Bool) {t : TableSchema} {ts us : List TableSchema}
    → Member t ts
    → Member t us
    → Member t (if b then ts else us)
if-Member true m n = m
if-Member false m n = n

add_candidate-Member :
    (o : Option TableSchema) (col : Text) {t : TableSchema} {ts : List TableSchema}
    → Member t ts
    → Member t (add_candidate o col ts)
add_candidate-Member none col m = m
add_candidate-Member (some u) col m = if-Member (has_column u col) (there m) m

-- A candidate of an unqualified reference.
candidates-Member :
    (snapshot : SchemaSnapshot) (scope : QueryScope) (sources : List QuerySource) (col : Text)
    (t : TableSchema) (s : QuerySource)
    → Member s sources
    → is_cte scope s ≡ false
    → get_table snapshot s.table ≡ some t
    → has_column t col ≡ true
    → Member t (candidates snapshot scope sources col)
unfolding candidates
candidates-Member snapshot scope [] col t s m n g h = elim m [ ]
candidates-Member snapshot scope (x ∷ xs) col t s (here e) n g h =
    let n' : is_cte scope x ≡ false = rw e n in
    let g' : get_table snapshot x.table ≡ some t = rw e g in rw (n', g', h) (here refl)
candidates-Member snapshot scope (x ∷ xs) col t s (there m) n g h =
    let ih = candidates-Member snapshot scope xs col t s m n g h in
    if-Member (is_cte scope x) ih (add_candidate-Member (get_table snapshot x.table) col ih)

unless_false : {b : Bool} {P : Type 0} → b ≡ false → Unless b P → P
unless_false {b} {P} e h = subst (λ c. Unless c P) e h

module _ {Value : Type 0} (config : PolicyConfig Value) (snapshot : SchemaSnapshot) where
  source-TablePermitted :
      (scope : QueryScope) (t : TableSchema) (s : SourceOf snapshot scope t)
      → All (SourcePermitted config snapshot scope) scope.sources
      → TablePermitted config t
  source-TablePermitted scope t s h =
      let p = unless_false s.no_cte (All-Member _ scope.sources h s.in_scope) in
      subst (FoundPermitted config) s.found p

  candidate-ColumnPermitted :
      (scope : QueryScope) (ts : List TableSchema) (col : Text) (t : TableSchema)
      → CandidatesPermitted config snapshot scope ts col
      → Member t ts
      → ColumnPermitted config col t
  candidate-ColumnPermitted scope [] col t h m = elim m [ ]
  candidate-ColumnPermitted scope (u ∷ us) col t h m =
      All-Member (ColumnPermitted config col) (u ∷ us) h m

  reference-Permitted :
      (level : QueryLevel Value) (r : ColumnReference)
      → LevelPermitted config snapshot level.scope (collect_plan_references level.plan)
      → MentionsColumn r level.plan
      → ReferencePermitted config snapshot level.scope r
  reference-Permitted level r h m =
      All-Member (ReferencePermitted config snapshot level.scope) _ h.1
        (collect_plan_references-MentionsColumn r level.plan m)

  star-Permitted :
      (level : QueryLevel Value) (o : Option Text)
      → LevelPermitted config snapshot level.scope (collect_plan_references level.plan)
      → SelectsStar o level.plan
      → StarPermitted config snapshot level.scope o
  star-Permitted level o h m =
      All-Member (StarPermitted config snapshot level.scope) _ h.0.1
        (collect_plan_references-SelectsStar o level.plan m)

  Reads-ColumnPermitted :
      (level : QueryLevel Value) (t : TableSchema) (col : Text)
      → LevelPermitted config snapshot level.scope (collect_plan_references level.plan)
      → Reads snapshot level t col
      → ColumnPermitted config col t
  Reads-ColumnPermitted level t col h (qualified q s m f) =
      let scope = level.scope in
      let p1 = reference-Permitted level (record { table = some q; column = col }) h m in
      let p2 = subst (λ o. ResolvedPermitted config snapshot scope o col) f p1 in
      (subst (λ o. ExistingPermitted config o col) s.found (unless_false s.no_cte p2)).1
  Reads-ColumnPermitted level t col h (unqualified s m f) =
      let scope = level.scope in
      let p1 = reference-Permitted level (record { table = none; column = col }) h m in
      candidate-ColumnPermitted scope (candidates snapshot scope scope.sources col) col t p1 (
        candidates-Member snapshot scope scope.sources col t s.source s.in_scope s.no_cte s.found f)
  Reads-ColumnPermitted level t col h (by_star c s m n e) =
      let scope = level.scope in
      let p = star-Permitted level none h m in
      let p1 = All-Member (StarSourcePermitted config snapshot scope) scope.sources p s.in_scope in
      let p2 = subst (AllColumnsPermitted config) s.found (unless_false s.no_cte p1) in
      subst (λ x. ColumnPermitted config x t) e
        (All-Member (λ (y : ColumnSchema). ColumnPermitted config y.name t) t.columns p2 n)
  Reads-ColumnPermitted level t col h (by_table_star c q s m f n e) =
      let scope = level.scope in
      let p = star-Permitted level (some q) h m in
      let p1 = subst (StarResolvedPermitted config snapshot scope) f p in
      let p2 = subst (AllColumnsPermitted config) s.found (unless_false s.no_cte p1) in
      subst (λ x. ColumnPermitted config x t) e
        (All-Member (λ (y : ColumnSchema). ColumnPermitted config y.name t) t.columns p2 n)

  Reads-SourceOf :
      (level : QueryLevel Value) (t : TableSchema) (col : Text)
      → Reads snapshot level t col
      → SourceOf snapshot level.scope t
  Reads-SourceOf level t col (qualified q s m f) = s
  Reads-SourceOf level t col (unqualified s m f) = s
  Reads-SourceOf level t col (by_star c s m n e) = s
  Reads-SourceOf level t col (by_table_star c q s m f n e) = s

-- If the policy engine accepts a plan, then every column of a schema table that a level which it visits reads is
-- allowed by `is_column_allowed`. A level reads a column if its select list, its `WHERE`, `GROUP BY`, `HAVING`
-- or `ORDER BY`, or the condition of one of its joins that is not a cross join names the column, with a
-- qualifier or without, at any depth of an expression or a predicate, or if a star of its select list
-- covers it. `DISTINCT ON` and the frames of windows do not count; a subquery is a level of its own.
pub validate-is_column_allowed :
    {Value : Type 0} (config : PolicyConfig Value) (snapshot : SchemaSnapshot)
    (plan : QueryPlan Value) (level : QueryLevel Value) (t : TableSchema) (col : Text)
    → validate config plan snapshot ≡ accepted
    → Member level (levels plan none)
    → Reads snapshot level t col
    → is_column_allowed config t.name col ≡ true
validate-is_column_allowed config snapshot plan level t col ok m r =
    let p = All-Member _ (levels plan none) ((validate_iff config snapshot plan).0 ok) m in
    (is_column_allowed_iff config t.name col).1 (
      source-TablePermitted config snapshot level.scope t
          (Reads-SourceOf config snapshot level t col r) p.0.0,
      Reads-ColumnPermitted config snapshot level t col p r,
    )
