-- ===== src/Policy/Report.antt =====
-- What `PolicyEngine::validate_plan_inner` accumulates at one query level: the errors, and the two sets
-- of what was reported already (crates/vlorql-core/src/policy/engine.rs). `insert` on a `HashSet`
-- answers whether the entry is new.
use vlor_ql.Common.{ℕ, Bool, ◌&&◌, List, [], ◌∷◌, ◌++◌, if◌then◌else◌, nat_eq}
use vlor_ql.Common.Lists.{any}
use vlor_ql.Common.Text.{Text, ◌==◌}
use vlor_ql.Errors.{
  Label, schema_label, policy_label, table_policy_denied, global_denied_column, table_denied_column,
  column_not_in_allowlist, VlorQlError,
}

abbrev label_index : Label → ℕ
label_index schema_label = 0
label_index policy_label = 1
label_index table_policy_denied = 2
label_index global_denied_column = 3
label_index table_denied_column = 4
label_index column_not_in_allowlist = 5

pub label_eq : Label → Label → Bool
label_eq a b = nat_eq (label_index a) (label_index b)

pub record Report : Type 0 where
  pub errors : List VlorQlError
  pub reported_tables : List (Label × Text)
  pub reported_columns : List (Text × Text × Label)

-- The state with which a level starts: the errors so far, and two empty sets.
abbrev pub fresh : List VlorQlError → Report
fresh errors = record { errors = errors; reported_tables = []; reported_columns = [] }

abbrev pub is_entry : Label → Text → Label × Text → Bool
is_entry label name (l, n) = label_eq l label && n == name

abbrev pub is_column_entry : Text → Text → Label → Text × Text × Label → Bool
is_column_entry name col label (n, c, l) = n == name && (c == col && label_eq l label)

-- `if reported_tables.insert((label, name)) { errors.push(error) }`
unfoldable pub report_table : Label → Text → VlorQlError → Report → Report
report_table label name error r =
    if any (is_entry label name) r.reported_tables then r else record r {
      errors = r.errors ++ error ∷ [];
      reported_tables = (label, name) ∷ r.reported_tables;
    }

-- `if reported_columns.insert((name, col, label)) { errors.push(error) }`
unfoldable pub report_column : Text → Text → Label → VlorQlError → Report → Report
report_column name col label error r =
    if any (is_column_entry name col label) r.reported_columns then r else record r {
      errors = r.errors ++ error ∷ [];
      reported_columns = (name, col, label) ∷ r.reported_columns;
    }
