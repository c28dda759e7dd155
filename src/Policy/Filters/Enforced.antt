-- ===== src/Policy/Filters/Enforced.antt =====
-- The injected filters restrict the rows as the policy says. What the database makes of a predicate is a
-- parameter, `holds`, of which `AND` is used: a conjunction holds of a row if both sides do.
use vlor_ql.Common.{
  Bool, true, false, ◌&&◌, Option, none, some, List, [], ◌∷◌, ◌++◌, ◌≡◌, refl, sym, ◌∙◌, arith,
  if◌then◌else◌,
}
use vlor_ql.Common.Lists.{all, Member, Member-append_left, here, there, for_each}
use vlor_ql.Policy.Config.{PolicyConfig, RowFilter, get_row_filter}
use vlor_ql.Policy.Filters.{
  row_filter_matches_sources, push_filter, push_source_filter, push_matching_filter,
  collect_filters, reduce_and, combine_with_and, apply_row_filters, add_filter, inject_row_filters,
  where_of,
}
use vlor_ql.Query.Scope.{QuerySource, from_plan}
use vlor_ql.Schema.Plan.{
  Predicate, OptPredicate, QueryPlan, and_pred, no_pred, some_pred, query_plan,
}

Member-push {ℓ} : {A : Type ℓ} (xs : List A) (a : A) → Member a (xs ++ a ∷ [])
Member-push [] a = here refl
Member-push (x ∷ xs) a = there (Member-push xs a)

all-Member {ℓ} :
    {A : Type ℓ} (p : A → Bool) (xs : List A) {a : A} → all p xs ≡ true → Member a xs → p a ≡ true
unfolding all
all-Member p [] h m = elim m [ ]
all-Member p (x ∷ xs) h (here e) = rw (← e) (ground arith)
all-Member p (x ∷ xs) h (there m) = all-Member p xs (ground arith) m

module _ {Value : Type 0} (config : PolicyConfig Value) where
  -- A filter that is collected stays collected.
  source-kept :
      (sources : List QuerySource) (filters : List (Predicate Value)) {p : Predicate Value}
      → Member p filters
      → Member p (for_each (push_source_filter config) sources filters)
  unfolding push_source_filter
  source-kept [] filters m = m
  source-kept (s ∷ ss) filters m = source-kept ss _ (keep (get_row_filter config s.table) m)
    where
      keep :
          (o : Option (RowFilter Value)) {p : Predicate Value}
          → Member p filters
          → Member p (push_filter o filters)
      keep none m = m
      keep (some f) m = Member-append_left filters _ m

  matching-kept :
      (sources : List QuerySource) (fs : List (RowFilter Value)) (filters : List (Predicate Value))
      {p : Predicate Value}
      → Member p filters
      → Member p (for_each (push_matching_filter sources) fs filters)
  unfolding push_matching_filter
  matching-kept sources [] filters m = m
  matching-kept sources (f ∷ fs) filters m =
      matching-kept sources fs _ (keep (row_filter_matches_sources f sources) m)
    where
      keep :
          (b : Bool) {p : Predicate Value}
          → Member p filters
          → Member p (if b then filters ++ f.condition ∷ [] else filters)
      keep true m = Member-append_left filters _ m
      keep false m = m

  source-collected :
      (sources : List QuerySource) (filters : List (Predicate Value)) (s : QuerySource)
      (f : RowFilter Value)
      → Member s sources
      → get_row_filter config s.table ≡ some f
      → Member f.condition (for_each (push_source_filter config) sources filters)
  unfolding push_source_filter
  source-collected [] filters s f m g = elim m [ ]
  source-collected (x ∷ xs) filters s f (here e) g =
      let g' : get_row_filter config x.table ≡ some f = rw e g in
      source-kept xs _ (rw g' (Member-push filters f.condition))
  source-collected (x ∷ xs) filters s f (there m) g = source-collected xs _ s f m g

  matching-collected :
      (sources : List QuerySource) (fs : List (RowFilter Value)) (filters : List (Predicate Value))
      (f : RowFilter Value)
      → Member f fs
      → row_filter_matches_sources f sources ≡ true
      → Member f.condition (for_each (push_matching_filter sources) fs filters)
  unfolding push_matching_filter
  matching-collected sources [] filters f m g = elim m [ ]
  matching-collected sources (x ∷ xs) filters f (here e) g =
      let g' : row_filter_matches_sources x sources ≡ true = rw e g in
      matching-kept sources xs _ (rw (g', e) (Member-push filters f.condition))
  matching-collected sources (x ∷ xs) filters f (there m) g = matching-collected sources xs _ f m g

-- The filters that apply to the sources of a query.
pub data Applies {Value : Type 0} (config : PolicyConfig Value) (sources : List QuerySource)
    (f : RowFilter Value) : Type 0 where
  of_table :
      (s : QuerySource)
      → Member s sources
      → get_row_filter config s.table ≡ some f
      → Applies config sources f
  of_all :
      Member f config.row_filters
      → row_filter_matches_sources f sources ≡ true
      → Applies config sources f

Applies-collected :
    {Value : Type 0} (config : PolicyConfig Value) (sources : List QuerySource)
    (f : RowFilter Value)
    → Applies config sources f
    → Member f.condition (collect_filters config sources)
unfolding collect_filters
Applies-collected config sources f (of_table s m g) =
    matching-kept config sources config.row_filters _ (source-collected config sources [] s f m g)
Applies-collected config sources f (of_all m g) =
    matching-collected config sources config.row_filters _ f m g

module _ {Value : Type 0} (holds : Predicate Value → Bool)
    (holds-and : (a b : Predicate Value) → holds (and_pred a b) ≡ (holds a && holds b)) where
  -- No predicate lets every row through.
  abbrev pub holds_where : OptPredicate Value → Bool
  holds_where no_pred = true
  holds_where (some_pred p) = holds p

  holds-reduce_and :
      (p : Predicate Value) (qs : List (Predicate Value))
      → holds (reduce_and p qs) ≡ (holds p && all holds qs)
  unfolding reduce_and all
  holds-reduce_and p [] = ground arith
  holds-reduce_and p (q ∷ qs) = ground (arith, holds-reduce_and (and_pred p q) qs, holds-and p q)

  holds-add_filter :
      (filter : OptPredicate Value) (filters : List (Predicate Value))
      → holds_where (add_filter filter (combine_with_and filters))
        ≡ (holds_where filter && all holds filters)
  unfolding combine_with_and all
  holds-add_filter no_pred [] = refl
  holds-add_filter (some_pred w) [] = ground arith
  holds-add_filter no_pred (p ∷ ps) = holds-reduce_and p ps
  holds-add_filter (some_pred w) (p ∷ ps) =
      ground (arith, holds-and w (reduce_and p ps), holds-reduce_and p ps)

  -- The injected `WHERE` lets a row through exactly if the plan's own `WHERE` does and all collected
  -- filters do.
  pub holds-inject_row_filters :
      (config : PolicyConfig Value) (plan : QueryPlan Value)
      → holds_where (where_of (inject_row_filters config plan)) ≡ (
          holds_where (where_of plan)
          && all holds (collect_filters config (from_plan plan).sources))
  unfolding inject_row_filters apply_row_filters
  holds-inject_row_filters config
        (query_plan select d on from filter group having order l o joins ctes sets) =
      let plan = query_plan select d on from filter group having order l o joins ctes sets in
      holds-add_filter filter (collect_filters config (from_plan plan).sources)

  -- A row that the injected `WHERE` lets through satisfies the plan's own `WHERE`, and every policy
  -- filter that applies: the filter of each table in `FROM` and in the joins, and each global filter
  -- whose tables are all there.
  pub inject_row_filters-enforced :
      (config : PolicyConfig Value) (plan : QueryPlan Value) (f : RowFilter Value)
      → holds_where (where_of (inject_row_filters config plan)) ≡ true
      → Applies config (from_plan plan).sources f
      → (holds_where (where_of plan) ≡ true) × (holds f.condition ≡ true)
  inject_row_filters-enforced config plan f h a =
      let filters = collect_filters config (from_plan plan).sources in
      let both : (holds_where (where_of plan) && all holds filters) ≡ true =
        sym (holds-inject_row_filters config plan) ∙ h in
      (ground arith, all-Member holds filters (ground arith) (Applies-collected config _ f a))
