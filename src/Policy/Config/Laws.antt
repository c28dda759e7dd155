-- ===== src/Policy/Config/Laws.antt =====
-- The column rules of a policy, read as statements.
use mathlib.Core.Bool.{false≢true}
use native.Mathlib.Numerals.{add-one}
use vlor_ql.Common.{
  ℕ, suc, ◌+◌, ◌<◌, true, false, Option, none, some, [], ◌∷◌, ◌++◌, ◌≡◌, ◌≢◌, refl, ap, ◌↔◌, ◌⊎◌,
  inl, inr, arith, Bool-cases,
}
use vlor_ql.Common.Lists.{length, drop, get_elem?, Member, any_sound, any_complete}
use vlor_ql.Common.Text.{Text, ◌==◌, ==_eq, ==_refl, starts_with}
use vlor_ql.Policy.Config.{
  PolicyConfig, TablePolicy, get_policy_for_table, denies, is_byte, is_globally_denied,
  policy_allows, is_column_allowed, policy_denial_reason, column_denial_reason, policy_denies_table,
  is_table_denied,
}

module _ {Value : Type 0} where
  policy_allows_lem :
      (o : Option (TablePolicy Value)) (col : Text)
      → policy_denies_table o ≡ false
      → policy_denial_reason o col ≡ none
      → policy_allows o col ≡ true
  policy_allows_lem none col d r = refl
  policy_allows_lem (some p) col d r = ground arith

  policy_denies_lem :
      (o : Option (TablePolicy Value)) (col : Text)
      → policy_allows o col ≡ true
      → (policy_denies_table o ≡ false) × (policy_denial_reason o col ≡ none)
  policy_denies_lem none col h = (refl, refl)
  policy_denies_lem (some p) col h = ground arith

  -- A column is allowed exactly if its table is not denied and the engine has no reason against it: the
  -- public question agrees with the two tests that validation makes.
  pub is_column_allowed_iff :
      (config : PolicyConfig Value) (name col : Text)
      → (is_column_allowed config name col ≡ true)
        ↔ ((is_table_denied config name ≡ false) × (column_denial_reason config name col ≡ none))
  unfolding is_column_allowed column_denial_reason is_table_denied
  is_column_allowed_iff config name col =
      let p = get_policy_for_table config name in
      (
        (λ h. ground (arith, policy_denies_lem p col)),
        (λ h. ground (arith, policy_allows_lem p col)),
      )

-- `Denies name col denied`: the entry is the column, or the table, a dot and the column.
abbrev pub Denies : Text → Text → Text → Type 0
Denies name col denied = (denied ≡ col) ⊎ ((denied ≡ name ++ b'.' ∷ col) × (col ≢ []))

dotted_sound :
    (denied name col : Text)
    → starts_with denied name ≡ true
    → is_byte (get_elem? denied (length name)) b'.' ≡ true
    → (drop (suc (length name)) denied == col) ≡ true
    → denied ≡ name ++ b'.' ∷ col
unfolding starts_with
dotted_sound [] [] col s b d = absurd (false≢true b)
dotted_sound (x ∷ xs) [] col s b d = ground (arith, ==_eq xs col)
dotted_sound [] (n ∷ ns) col s b d = absurd (false≢true s)
dotted_sound (x ∷ xs) (n ∷ ns) col s b d = ground (arith, dotted_sound xs ns col)

dotted_complete :
    (name col : Text)
    → (starts_with (name ++ b'.' ∷ col) name ≡ true)
      × (is_byte (get_elem? (name ++ b'.' ∷ col) (length name)) b'.' ≡ true)
      × ((drop (suc (length name)) (name ++ b'.' ∷ col) == col) ≡ true)
unfolding starts_with
dotted_complete [] col = (refl, refl, ==_refl col)
dotted_complete (n ∷ ns) col = let (s, b, d) = dotted_complete ns col in (ground arith, b, d)

length-dotted : (name col : Text) → length (name ++ b'.' ∷ col) ≡ length name + 1 + length col
length-dotted [] col = omega arith
length-dotted (n ∷ ns) col = omega (arith, length-dotted ns col)

-- A dotted entry is longer than its table and the dot only if it names a column.
dotted_ne_nil :
    (name col denied : Text)
    → denied ≡ name ++ b'.' ∷ col
    → length name + 1 < length denied
    → col ≢ []
dotted_ne_nil name [] denied e h =
    absurd (omega (arith, ap (length {A = ℕ}) e, length-dotted name []))
dotted_ne_nil name (c ∷ cs) denied e h = λ n. cc

denies_sound : (name col denied : Text) → denies name col denied ≡ true → Denies name col denied
unfolding denies
denies_sound name col denied h = elim (Bool-cases (denied == col)) [
  | inl e ↦ inl (==_eq denied col e)
  | inr e ↦
      let g = rw add-one at h in
      let same : denied ≡ name ++ b'.' ∷ col =
        dotted_sound denied name col (ground arith) (ground arith) (ground arith) in
      inr (same, dotted_ne_nil name col denied same (ground arith))
]

denies_complete : (name col denied : Text) → Denies name col denied → denies name col denied ≡ true
unfolding denies
denies_complete name col denied (inl e) = rw e (ground (arith, ==_refl col))
denies_complete name [] denied (inr (e, n)) = absurd (n refl)
denies_complete name (c ∷ cs) denied (inr (e, n)) =
    let (s, b, d) = dotted_complete name (c ∷ cs) in
    rw (e, add-one) (ground (arith, length-dotted name (c ∷ cs)))

-- A column is globally denied exactly if some entry of the list is its name, or its table, a dot and
-- its (nonempty) name: the index arithmetic of the test splits an entry at the right dot.
is_globally_denied_iff :
    {Value : Type 0} (config : PolicyConfig Value) (name col : Text)
    → (is_globally_denied config name col ≡ true)
      ↔ ((denied : Text) × Member denied config.global_denied_columns × Denies name col denied)
unfolding is_globally_denied
is_globally_denied_iff config name col = (
  λ h.
      let (d, m, t) = any_sound (denies name col) config.global_denied_columns h in
      (d, m, denies_sound name col d t),
  λ w.
      any_complete (denies name col) config.global_denied_columns w.1
        (denies_complete name col w.0 w.2),
)
