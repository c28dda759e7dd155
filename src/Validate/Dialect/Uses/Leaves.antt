-- ===== src/Validate/Dialect/Uses/Leaves.antt =====
-- When each of the dialect checks of crates/vlorql-core/src/validate/dialect.rs reports nothing.
use vlor_ql.Validate.Dialect.Uses.Pushes.{
  errors_of, Always, Leaves, push-Leaves, push_if_iff, not_iff, without_iff, neither_iff,
  exceeds_iff, kinds_iff,
}
use vlor_ql.Common.{ℕ, ◌≡◌, refl, ◌↔◌, ◌⊎◌, inl, inr, Bool, true, false, not, ◌&&◌, Option, []}
use vlor_ql.Common.Checks.{Checks-none, Checks-then, Checks-iff}
use vlor_ql.Common.Lists.{Member}
use vlor_ql.Common.Tests.{is_some}
use vlor_ql.Common.Text.{Text}
use vlor_ql.Schema.Dialect.{DialectProfile}
use vlor_ql.Schema.Types.{JoinType}
use vlor_ql.Schema.Plan.{
  Expressions, OptExpressions, WindowFrameBound, Projection, Projections, OptJoinClauses, OptCtes,
  literal, column_ref, function_call, binary_op, star, sub_query, case_when, window_function,
  exprs_nil, exprs_cons, no_exprs, some_exprs, unbounded_preceding, preceding, current_row,
  following, unbounded_following, expr, star_of, select_nil, select_cons,
}
use vlor_ql.Validate.Dialect.{
  Errors, count_opt_joins, count_opt_exprs, has_ctes, is_column_in_group_by, check_grouped,
  check_projection, check_projections, validate_select_group_by, validate_frame_bound, is_denied,
  is_allowed, check_call, check_window, check_join_type, check_head, check_tail,
}
use vlor_ql.Validate.Dialect.Uses.{
  Use, level_head, level_tail, join_of, call, window, bound, WithinLimit, Grouped, AllGrouped,
  GroupedSelect, PlainBound, Allowed,
}

projection-Leaves :
    {Value : Type 0} (group : Expressions Value) (p : Projection Value)
    → Leaves (check_projection group p) (Grouped group p)
unfolding check_projection check_grouped
projection-Leaves group (star_of _) = push-Leaves _
projection-Leaves group (Projection.column table c _) =
    push_if_iff _ _ (not_iff (is_column_in_group_by group table c))
projection-Leaves group (expr (column_ref table c) _) =
    push_if_iff _ _ (not_iff (is_column_in_group_by group table c))
projection-Leaves group (expr star _) = push-Leaves _
projection-Leaves group (expr (literal _ _) _) = Checks-none errors_of Always
projection-Leaves group (expr (function_call _ _ _) _) = Checks-none errors_of Always
projection-Leaves group (expr (binary_op _ _ _) _) = Checks-none errors_of Always
projection-Leaves group (expr (sub_query _) _) = Checks-none errors_of Always
projection-Leaves group (expr (case_when _ _ _) _) = Checks-none errors_of Always
projection-Leaves group (expr (window_function _ _ _ _) _) = Checks-none errors_of Always

projections-Leaves :
    {Value : Type 0} (group : Expressions Value) (ps : Projections Value)
    → Leaves (check_projections group ps) (AllGrouped group ps)
unfolding check_projections
projections-Leaves group select_nil = Checks-none errors_of Always
projections-Leaves group (select_cons p ps) =
    Checks-then errors_of Always (check_projection group p) (check_projections group ps)
      (projection-Leaves group p) (projections-Leaves group ps)

select-Leaves :
    {Value : Type 0} (group : OptExpressions Value) (select : Projections Value)
    → Leaves (validate_select_group_by group select) (GroupedSelect group select)
unfolding validate_select_group_by
select-Leaves no_exprs select = Checks-none errors_of Always
select-Leaves (some_exprs exprs_nil) select = Checks-none errors_of Always
select-Leaves (some_exprs (exprs_cons e es)) select = projections-Leaves (exprs_cons e es) select

bound-Leaves :
    {Value : Type 0} (b : WindowFrameBound Value) → Leaves (validate_frame_bound b) (PlainBound b)
unfolding validate_frame_bound
bound-Leaves unbounded_preceding = Checks-none errors_of Always
bound-Leaves current_row = Checks-none errors_of Always
bound-Leaves unbounded_following = Checks-none errors_of Always
bound-Leaves (preceding (sub_query _)) = push-Leaves _
bound-Leaves (following (sub_query _)) = push-Leaves _
bound-Leaves (preceding (literal _ _)) = Checks-none errors_of Always
bound-Leaves (preceding (column_ref _ _)) = Checks-none errors_of Always
bound-Leaves (preceding (function_call _ _ _)) = Checks-none errors_of Always
bound-Leaves (preceding (binary_op _ _ _)) = Checks-none errors_of Always
bound-Leaves (preceding star) = Checks-none errors_of Always
bound-Leaves (preceding (case_when _ _ _)) = Checks-none errors_of Always
bound-Leaves (preceding (window_function _ _ _ _)) = Checks-none errors_of Always
bound-Leaves (following (literal _ _)) = Checks-none errors_of Always
bound-Leaves (following (column_ref _ _)) = Checks-none errors_of Always
bound-Leaves (following (function_call _ _ _)) = Checks-none errors_of Always
bound-Leaves (following (binary_op _ _ _)) = Checks-none errors_of Always
bound-Leaves (following star) = Checks-none errors_of Always
bound-Leaves (following (case_when _ _ _)) = Checks-none errors_of Always
bound-Leaves (following (window_function _ _ _ _)) = Checks-none errors_of Always

module _ (profile : DialectProfile) where
  call-Leaves :
      (name : Text) (distinct : Bool)
      → Leaves (check_call profile name distinct) (
          (is_denied profile name ≡ false)
          × (is_allowed profile name ≡ true)
          × ((distinct ≡ false) ⊎ (profile.allow_distinct ≡ true)))
  unfolding check_call
  call-Leaves name distinct =
      Checks-iff errors_of Always (check_call profile name distinct)
        (λ h. (h.0.0, h.0.1, h.1), λ h. ((h.0, h.1), h.2))
        (Checks-then errors_of Always _ _
          (push_if_iff _ _ (neither_iff (is_denied profile name) (is_allowed profile name)))
          (push_if_iff _ _ (without_iff distinct profile.allow_distinct)))

  head-Leaves :
      {Value : Type 0} (ctes : OptCtes Value) (joins : OptJoinClauses Value)
      → Leaves (check_head profile ctes joins) (
          ((has_ctes ctes ≡ false) ⊎ (profile.supports_cte ≡ true))
          × WithinLimit profile.max_joins (count_opt_joins joins))
  unfolding check_head
  head-Leaves ctes joins =
      Checks-then errors_of Always _ _
        (push_if_iff _ _ (without_iff (has_ctes ctes) profile.supports_cte))
        (push_if_iff _ _ (exceeds_iff profile.max_joins (count_opt_joins joins)))

  offset_iff : (b c : Bool) → (not b && c ≡ false) ↔ ((c ≡ false) ⊎ (b ≡ true))
  offset_iff true c = (λ h. inr refl, λ h. refl)
  offset_iff false c = (λ h. inl h, λ h. elim h [ inl e ↦ e | inr e ↦ cc ])

  tail-Leaves :
      {Value : Type 0} (offset : Option ℕ) (group : OptExpressions Value) (distinct : Bool)
      (select : Projections Value)
      → Leaves (check_tail profile offset group distinct select) (
          ((is_some offset ≡ false) ⊎ (profile.supports_offset ≡ true))
          × WithinLimit profile.max_group_by_columns (count_opt_exprs group)
          × ((distinct ≡ false) ⊎ (profile.allow_select_distinct ≡ true))
          × GroupedSelect group select)
  unfolding check_tail
  tail-Leaves offset group distinct select =
      Checks-iff errors_of Always (check_tail profile offset group distinct select)
        (λ h. (h.0.0.0, h.0.0.1, h.0.1, h.1), λ h. (((h.0, h.1), h.2), h.3))
        (Checks-then errors_of Always _ _
          (Checks-then errors_of Always _ _
            (Checks-then errors_of Always _ _
              (push_if_iff _ _ (offset_iff profile.supports_offset (is_some offset)))
              (push_if_iff _ _ (exceeds_iff profile.max_group_by_columns (count_opt_exprs group))))
            (push_if_iff _ _ (without_iff distinct profile.allow_select_distinct)))
          (select-Leaves group select))

  window-Leaves : Leaves (check_window profile) (profile.supports_window_functions ≡ true)
  unfolding check_window
  window-Leaves = push_if_iff _ _ (not_iff profile.supports_window_functions)

  join-Leaves :
      (kind : JoinType)
      → Leaves
          (check_join_type profile kind)
          ((profile.allowed_join_types ≡ []) ⊎ Member kind profile.allowed_join_types)
  unfolding check_join_type
  join-Leaves kind = push_if_iff _ _ (kinds_iff kind profile.allowed_join_types)

  -- The check of one use.
  abbrev pub check_use : {Value : Type 0} → Use Value → Errors → Errors
  check_use (level_head ctes joins) = check_head profile ctes joins
  check_use (level_tail offset group distinct select) =
      check_tail profile offset group distinct select
  check_use (join_of kind) = check_join_type profile kind
  check_use (call name distinct) = check_call profile name distinct
  check_use window = check_window profile
  check_use (bound b) = validate_frame_bound b

  pub use-Leaves : {Value : Type 0} (u : Use Value) → Leaves (check_use u) (Allowed profile u)
  use-Leaves (level_head ctes joins) = head-Leaves ctes joins
  use-Leaves (level_tail offset group distinct select) = tail-Leaves offset group distinct select
  use-Leaves (join_of kind) = join-Leaves kind
  use-Leaves (call name distinct) = call-Leaves name distinct
  use-Leaves window = window-Leaves
  use-Leaves (bound b) = bound-Leaves b
