-- ===== src/Policy/Config.antt =====
-- The policy configuration, crates/vlorql-core/src/policy/config.rs, and the questions that the engine
-- asks of it. A `HashMap<String, TablePolicy>` is an association list.
pub mod Laws
use vlor_ql.Common.{
  ℕ, ◌+◌, Bool, true, false, not, ◌&&◌, ◌||◌, Option, none, some, List, [], ◌∷◌, if◌then◌else◌, ltb,
  nat_eq,
}
use vlor_ql.Common.Lists.{length, drop, get_elem?, any}
use vlor_ql.Common.Text.{Text, ◌==◌, starts_with}
use vlor_ql.Errors.{Label, global_denied_column, table_denied_column, column_not_in_allowlist}
use vlor_ql.Query.Scope.{contains}
use vlor_ql.Schema.Plan.{Predicate}

pub record RowFilter (Value : Type 0) : Type 0 where
  pub condition : Predicate Value
  pub description : Text

pub record TablePolicy (Value : Type 0) : Type 0 where
  pub allowed : Bool
  pub allowed_columns : Option (List Text)
  pub denied_columns : List Text
  pub row_filter : Option (RowFilter Value)

pub record PolicyConfig (Value : Type 0) : Type 0 where
  pub table_policies : List (Text × TablePolicy Value)
  pub global_denied_columns : List Text
  pub row_filters : List (RowFilter Value)

module _ {Value : Type 0} where
  unfoldable pub lookup_policy : List (Text × TablePolicy Value) → Text → Option (TablePolicy Value)
  lookup_policy [] name = none
  lookup_policy ((key, policy) ∷ policies) name =
      let rest = lookup_policy policies name in if key == name then some policy else rest

  unfoldable pub get_policy_for_table : PolicyConfig Value → Text → Option (TablePolicy Value)
  unfolding lookup_policy
  get_policy_for_table config name = lookup_policy config.table_policies name

  unfoldable pub get_row_filter : PolicyConfig Value → Text → Option (RowFilter Value)
  unfolding get_policy_for_table
  get_row_filter config name = elim (get_policy_for_table config name) [
    | none ↦ none
    | some policy ↦ policy.row_filter
  ]

-- `bytes.get(i) == Some(&byte)`
abbrev pub is_byte : Option ℕ → ℕ → Bool
is_byte none c = false
is_byte (some b) c = nat_eq b c

-- The test of `is_globally_denied` on one entry: the column, or the table, a dot and the column.
unfoldable pub denies : Text → Text → Text → Bool
unfolding ◌==◌ starts_with
denies name col denied =
    nat_eq (length denied) (length col) && denied == col
    || ltb (length name + 1) (length denied)
      && (starts_with denied name
          && (is_byte (get_elem? denied (length name)) b'.'
              && drop (length name + 1) denied == col))

-- `policy.allowed_columns` forbids the column.
abbrev pub not_in_allowlist : Option (List Text) → Text → Bool
not_in_allowlist none col = false
not_in_allowlist (some allowed) col = not (contains allowed col)

module _ {Value : Type 0} where
  unfoldable pub is_globally_denied : PolicyConfig Value → Text → Text → Bool
  unfolding any denies
  is_globally_denied config name col = any (denies name col) config.global_denied_columns

  -- The part of `is_column_allowed` behind the global test.
  abbrev pub policy_allows : Option (TablePolicy Value) → Text → Bool
  policy_allows none col = true
  policy_allows (some policy) col =
      if not policy.allowed || contains policy.denied_columns col
      then false
      else not (not_in_allowlist policy.allowed_columns col)

  unfoldable pub is_column_allowed : PolicyConfig Value → Text → Text → Bool
  is_column_allowed config name col =
      if is_globally_denied config name col
      then false
      else policy_allows (get_policy_for_table config name) col

  -- The part of `column_denial_reason` behind the global test.
  abbrev pub policy_denial_reason : Option (TablePolicy Value) → Text → Option Label
  policy_denial_reason none col = none
  policy_denial_reason (some policy) col =
      if not policy.allowed
      then none
      else (if contains policy.denied_columns col
          then some table_denied_column
          else (if not_in_allowlist policy.allowed_columns col
              then some column_not_in_allowlist
              else none))

  unfoldable pub column_denial_reason : PolicyConfig Value → Text → Text → Option Label
  column_denial_reason config name col =
      if is_globally_denied config name col
      then some global_denied_column
      else policy_denial_reason (get_policy_for_table config name) col

  -- `validate_table_access`'s test.
  abbrev pub policy_denies_table : Option (TablePolicy Value) → Bool
  policy_denies_table none = false
  policy_denies_table (some policy) = not policy.allowed

  unfoldable pub is_table_denied : PolicyConfig Value → Text → Bool
  is_table_denied config name = policy_denies_table (get_policy_for_table config name)
