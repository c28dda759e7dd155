-- ===== src/Facade/Stream/Events.antt =====
-- What the streaming query of crates/vlorql/src/retry.rs sends.
use vlor_ql.Common.{
  ℕ, suc, ◌<◌, ◌≡◌, refl, subst, inl, inr, List, [], ◌∷◌, ◌++◌, Bool, true, false, if◌then◌else◌,
  Option, none, some, Option-cases, some-injective,
}
use vlor_ql.Common.Text.{Text}
use vlor_ql.Facade.Query.{Compilation, compiled, compile_failed}
use vlor_ql.Facade.Stream.{
  StreamEvent, text_chunk, plan_complete, token_usage, error, failure, Streaming, compiled_event,
  validated_event, parsed_event, process_assembled_text, run_stream,
}
use vlor_ql.Schema.Plan.{QueryPlan}
use vlor_ql.Validate.Pipeline.{Validated, valid, invalid}
use vlor_ql.Validate.Repairing.{validate_repairing}

module _ {Value : Type 0} where
  -- An event that ends the stream: a plan or an error.
  abbrev pub is_final : StreamEvent Value → Bool
  is_final (text_chunk _) = false
  is_final (plan_complete _) = true
  is_final (token_usage _) = false
  is_final (error _) = true
  is_final (failure _) = true

  abbrev pub finals : List (StreamEvent Value) → ℕ
  finals [] = 0
  finals (e ∷ es) = let rest = finals es in if is_final e then suc rest else rest

module _ {Value Sql : Type 0} (s : Streaming Value Sql) where
  -- An attempt ends the stream, or goes on after events that do not end it.
  GoesOn : ℕ → ℕ → List (StreamEvent Value) → Type 0
  GoesOn left attempt events =
      (quiet : List (StreamEvent Value)) × (next : Text) × (now : ℕ) × (finals quiet ≡ 0)
      × (attempt < s.max_retries)
      × (events ≡ quiet ++ run_stream s left (suc attempt) next now)

  compiled_event-plan :
      (p plan : QueryPlan Value) (c : Compilation Sql)
      → compiled_event s p c ≡ plan_complete plan
      → (p ≡ plan) × ((sql : Sql) × (c ≡ compiled sql))
  unfolding compiled_event
  compiled_event-plan p plan (compiled sql) h = (cc, (sql, refl))
  compiled_event-plan p plan (compile_failed e) h = cc

  validated_event-plan :
      (p plan : QueryPlan Value) (v : Option (Validated Value))
      → validated_event s p v ≡ some (plan_complete plan)
      → (p ≡ plan)
        × ((q : QueryPlan Value) × (v ≡ some (valid q))
            × ((sql : Sql) × (s.compile q ≡ compiled sql)))
  unfolding validated_event
  validated_event-plan p plan none h = cc
  validated_event-plan p plan (some (valid q)) h =
      let (same, made) = compiled_event-plan p plan (s.compile q) (some-injective h) in
      (same, (q, refl, made))
  validated_event-plan p plan (some (invalid es)) h = cc

  -- The plan that a streaming query sends is the plan of the text, which the validation accepted; what
  -- the validation made of it is `q`, and only that was compiled.
  pub process_assembled_text-plan :
      (text : Text) (plan : QueryPlan Value)
      → process_assembled_text s text ≡ some (plan_complete plan)
      → (s.parse_query_plan text ≡ some plan)
        × ((q : QueryPlan Value) × (validate_repairing s.pipeline plan ≡ some (valid q))
            × ((sql : Sql) × (s.compile q ≡ compiled sql)))
  unfolding process_assembled_text parsed_event
  process_assembled_text-plan text plan h = elim (Option-cases (s.template_leak text)) [
    | inr (d, e) ↦ let never = rw (process_assembled_text, e) at h in cc
    | inl e ↦ elim (Option-cases (s.parse_query_plan text)) [
      | inl p ↦ let never = rw (process_assembled_text, e, p) at h in cc
      | inr (parsed, p) ↦
          let (same, made) =
            validated_event-plan parsed plan _ (rw (process_assembled_text, e, p) at h) in
          subst
            (λ x.
              (s.parse_query_plan text ≡ some x)
              × ((q : QueryPlan Value) × (validate_repairing s.pipeline x ≡ some (valid q))
                  × ((sql : Sql) × (s.compile q ≡ compiled sql))))
            same (p, made)
    ]
  ]
