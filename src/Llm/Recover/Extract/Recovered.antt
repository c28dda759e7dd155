-- ===== src/Llm/Recover/Extract/Recovered.antt =====
-- What `extract_json_content` of crates/vlorql-llm/src/parser_v2/recover/extract.rs returns.
use vlor_ql.Common.{
  ◌≤◌, ◌≡◌, refl, subst, ◌⊎◌, inl, inr, [], ◌∷◌, true, false, Option, none, some, arith, Bool-cases,
  Option-cases,
}
use vlor_ql.Llm.Recover.Chars.{Str, quote, backslash, len, trim, contains}
use vlor_ql.Llm.Recover.Bracket.{find_outermost_json_obj}
use vlor_ql.Common.Tests.{is_some, is_some_and}
use vlor_ql.Llm.Recover.Json.{
  JsonParser, is_valid_json, is_valid_json_object, is_valid_json_array,
  extract_first_json_obj_from_array, fix_escaped_quotes,
}
use vlor_ql.Llm.Recover.Markdown.{unwrap_or, strip_markdown_fence}
use vlor_ql.Llm.Recover.Best.{find_best_json_obj, looks_like_plan}
use vlor_ql.Llm.Recover.Best.Chosen.{Candidate, find_best_json_obj-parses, find_best_json_obj-plan}
use vlor_ql.Llm.Recover.Extract.{
  ◌or_else◌, unescaped_object, whole_object, wrapped_object, fenced_object, find_longest_valid_json,
  steps, extract_json_content,
}
use vlor_ql.Llm.Recover.Extract.Fallback.{find_longest_valid_json-none}

module _ (serde : JsonParser) where
  -- A text that is a valid JSON object comes back trimmed and otherwise unchanged.
  extract_json_content-object :
      (raw : Str) (v : serde.Value)
      → serde.from_str (trim raw) ≡ some v
      → serde.is_object v ≡ true
      → extract_json_content serde raw ≡ trim raw
  unfolding extract_json_content steps unwrap_or fix_escaped_quotes unescaped_object whole_object
      is_valid_json_object is_some is_some_and
  extract_json_content-object raw v p o =
      elim (Bool-cases (contains (backslash ∷ quote ∷ []) (trim raw))) [
        | inl some_quote ↦ rw (extract_json_content, some_quote, p, o) refl
        | inr plain ↦ rw (extract_json_content, plain, p, o) refl
      ]

  -- If the trimmed text is no JSON, has no backslash before a quote and no code fence, and a balanced
  -- object in it parses as a plan, then what is extracted parses, looks like a plan too, and is at least
  -- as long.
  pub extract_json_content-plan :
      (raw c : Str) (v : serde.Value)
      → contains (backslash ∷ quote ∷ []) (trim raw) ≡ false
      → serde.from_str (trim raw) ≡ none
      → strip_markdown_fence (trim raw) ≡ none
      → Candidate serde (trim raw) c v
      → looks_like_plan serde v ≡ true
      → (w : serde.Value) × (serde.from_str (extract_json_content serde raw) ≡ some w)
        × (looks_like_plan serde w ≡ true)
        × (len c ≤ len (extract_json_content serde raw))
  unfolding extract_json_content steps unwrap_or fix_escaped_quotes unescaped_object whole_object
      wrapped_object fenced_object is_valid_json_object is_valid_json_array is_some_and
  extract_json_content-plan raw c v plain p unfenced h y =
      let (s, w, e, q, z, l) = find_best_json_obj-plan serde (trim raw) c v h y in
      rw (extract_json_content, plain, p, unfenced, e) (w, q, z, l)

  -- A result parses, or it is the first balanced object of some text.
  abbrev pub Recovered : Str → Type 0
  Recovered s =
      ((v : serde.Value) × (serde.from_str s ≡ some v))
      ⊎ ((t : Str) × (find_outermost_json_obj t ≡ some s))

  record Results (o : Option Str) : Type 0 where
    each : (s : Str) → o ≡ some s → Recovered s

  none-Results : Results none
  none-Results = record { each = λ s h. cc }

  or_else-Results : (a b : Option Str) → Results a → Results b → Results (a or_else b)
  or_else-Results none b h k = k
  or_else-Results (some x) b h k = h

  some-Results : (s : Str) → Recovered s → Results (some s)
  some-Results s r = record { each = λ t h. let same : s ≡ t = cc in subst Recovered same r }

  parsed-Recovered : (s : Str) → is_some (serde.from_str s) ≡ true → Recovered s
  unfolding is_some
  parsed-Recovered s h = elim (Option-cases (serde.from_str s)) [
    | inl e ↦ let never : false ≡ true = rw e at h in cc
    | inr f ↦ inl f
  ]

  object-Recovered : (s : Str) → is_valid_json_object serde s ≡ true → Recovered s
  unfolding is_valid_json_object is_some_and is_some
  object-Recovered s h = parsed-Recovered s (ground arith)

  outermost-Results : (t : Str) → Results (find_outermost_json_obj t)
  outermost-Results t = record { each = λ s h. inr (t, h) }

  array-Results : (t : Str) → Results (extract_first_json_obj_from_array serde t)
  unfolding extract_first_json_obj_from_array
  array-Results t = record { each = λ s h. inr (t, ground arith) }

  unescaped-Results : (o : Option Str) → Results (unescaped_object serde o)
  unfolding unescaped_object
  unescaped-Results none = none-Results
  unescaped-Results (some s) = elim (Bool-cases (is_valid_json_object serde s)) [
    | inl y ↦ rw y (some-Results s (object-Recovered s y))
    | inr n ↦ elim (Bool-cases (is_valid_json_array serde s)) [
      | inl y ↦ rw (n, y) (array-Results s)
      | inr k ↦ rw (n, k) none-Results
    ]
  ]

  whole-Results : (t : Str) → Results (whole_object serde t)
  unfolding whole_object
  whole-Results t = elim (Bool-cases (is_valid_json_object serde t)) [
    | inl y ↦ rw y (some-Results t (object-Recovered t y))
    | inr n ↦ rw n none-Results
  ]

  wrapped-Results : (t : Str) → Results (wrapped_object serde t)
  unfolding wrapped_object
  wrapped-Results t = elim (Bool-cases (is_valid_json_array serde t)) [
    | inl y ↦ rw y (array-Results t)
    | inr n ↦ rw n none-Results
  ]

  fenced-Results : (o : Option Str) → Results (fenced_object serde o)
  unfolding fenced_object is_valid_json
  fenced-Results none = none-Results
  fenced-Results (some s) = elim (Bool-cases (is_some (serde.from_str s))) [
    | inl y ↦ rw y (some-Results s (parsed-Recovered s y))
    | inr n ↦ rw n (outermost-Results s)
  ]

  best-Results : (t : Str) → Results (find_best_json_obj serde t)
  best-Results t = record { each = λ s h. inl (find_best_json_obj-parses serde t s h) }

  last-Results :
      (t : Str) → Results (find_best_json_obj serde t or_else find_longest_valid_json serde t)
  last-Results t = elim (Option-cases (find_best_json_obj serde t)) [
    | inl e ↦ rw (e, find_longest_valid_json-none serde t e) none-Results
    | inr (s, e) ↦ let found = best-Results t in rw e (rw e at found)
  ]

  -- The answer is the trimmed input, a text that parses, or the first balanced object of some text.
  extract_json_content-Recovered :
      (raw : Str)
      → (extract_json_content serde raw ≡ trim raw) ⊎ Recovered (extract_json_content serde raw)
  unfolding extract_json_content steps unwrap_or
  extract_json_content-Recovered raw =
      let t = trim raw in
      let all_steps = or_else-Results _ _ (unescaped-Results (fix_escaped_quotes serde t)) (
        or_else-Results _ _ (whole-Results t) (
          or_else-Results _ _ (wrapped-Results t)
            (or_else-Results _ _ (fenced-Results (strip_markdown_fence t)) (last-Results t)))) in
      elim (Option-cases (steps serde t)) [
        | inl e ↦ inl (rw (extract_json_content, e) refl)
        | inr (s, e) ↦ inr (rw (extract_json_content, e) (all_steps.each s e))
      ]
