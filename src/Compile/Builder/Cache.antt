-- ===== src/Compile/Builder/Cache.antt =====
-- `add_parameter` of crates/vlorql-core/src/compile/builder/mod.rs: a literal that has a parameter is given
-- its placeholder again, and a new one is appended.
use vlor_ql.Common.{
  ℕ, suc, true, false, ◌&&◌, none, some, [], ◌∷◌, ◌++◌, ◌≡◌, refl, sym, ap, ◌∙◌, inl, inr, arith,
  Bool-cases, if◌then◌else◌, length, get_elem?, Option-cases, here,
}
use vlor_ql.Common.Positions.{
  length-append_one, get_elem?_bound, get_elem?_append, get_elem?_end, get_elem?_append_cases,
}
use mathlib.Core.Path.{subst}
use vlor_ql.Common.Text.{Text, ◌==◌, ==_eq, ==_refl}
use vlor_ql.Compile.Builder.{Context, cache_get, add_parameter}
use vlor_ql.Compile.Builder.Parameters.{IsCached, HasKey, Extends, IsSound, subst_done}
use vlor_ql.Compile.Dialect.{is_indexed}
use vlor_ql.Compile.Sql.{placeholder, Parameter, ParamCache, Builder, done}
use vlor_ql.Schema.Types.{DataType, type_eq, type_eq_eq, type_eq_refl}

cache_get-cons :
    (key text : Text) (key_type type : DataType) (index : ℕ) (cache : ParamCache)
    → cache_get ((key, key_type, index) ∷ cache) text type
      ≡ (if key == text && type_eq key_type type then some index else cache_get cache text type)
unfolding cache_get
cache_get-cons key text key_type type index cache = refl

same_key : (a b : Text) (s t : DataType) → (a == b && type_eq s t) ≡ true → (a ≡ b) × (s ≡ t)
same_key a b s t h = elim (Bool-cases (a == b)) [
  | inl e ↦ (==_eq a b e, type_eq_eq s t (rw e at h))
  | inr e ↦ let f : false ≡ true = rw e at h in cc
]

same_key_refl : (a : Text) (t : DataType) → (a == a && type_eq t t) ≡ true
same_key_refl a t = rw (==_refl a, type_eq_refl t)

module _ {Value : Type 0} (context : Context Value) where
  -- The builder behind a cache miss.
  abbrev pub extended : Builder Value → Value → DataType → Builder Value
  extended b v type = record b {
    parameters = b.parameters ++ record { value = v; data_type = type } ∷ [];
    param_cache = (context.json.to_string v, type, length b.parameters) ∷ b.param_cache;
  }

  found_after :
      (b : Builder Value) (v : Value) (type : DataType)
      → IsCached context.json b
      → (text : Text) (t : DataType) (i : ℕ)
      → cache_get (extended b v type).param_cache text t ≡ some i
      → HasKey context.json (extended b v type).parameters i text t
  found_after b v type h text t i e =
      let n = length b.parameters in
      let key = context.json.to_string v in
      let e' = sym (cache_get-cons key text type t n b.param_cache) ∙ e in
      elim (Bool-cases (key == text && type_eq type t)) [
        | inl hit ↦
            let (same_text, same_type) = same_key key text type t hit in
            let at : n ≡ i = (let x : some n ≡ some i = rw hit at e' in cc) in
            (
              record { value = v; data_type = type },
              ap (get_elem? (b.parameters ++ record { value = v; data_type = type } ∷ [])) (sym at)
                  ∙ get_elem?_end b.parameters (record { value = v; data_type = type }),
              same_text,
              same_type,
            )
        | inr miss ↦
            let (p, old, k, d) = h.found text t i (rw miss at e') in
            (p, get_elem?_append b.parameters _ i old, k, d)
      ]

  listed_after :
      (b : Builder Value) (v : Value) (type : DataType)
      → IsCached context.json b
      → cache_get b.param_cache (context.json.to_string v) type ≡ none
      → (i : ℕ) (p : Parameter Value) → get_elem? (extended b v type).parameters i ≡ some p
      → cache_get (extended b v type).param_cache (context.json.to_string p.value) p.data_type
        ≡ some i
  listed_after b v type h miss i p e =
      let key = context.json.to_string v in
      let text = context.json.to_string p.value in
      let n = length b.parameters in
      cache_get-cons key text type p.data_type n b.param_cache
      ∙ elim (get_elem?_append_cases b.parameters _ i e) [
        | inl old ↦ elim (Bool-cases (key == text && type_eq type p.data_type)) [
          | inl hit ↦
              let (same_text, same_type) = same_key key text type p.data_type hit in
              let there = h.listed i p old in cc
          | inr other ↦ rw other (h.listed i p old)
        ]
        | inr (at, new) ↦
            subst
              (λ p.
                (if key == context.json.to_string p.value && type_eq type p.data_type
                  then some n
                  else cache_get b.param_cache (context.json.to_string p.value) p.data_type)
                ≡ some i)
              new (rw (same_key_refl key type) (ap some (sym at)))
      ]

  extended-Extends :
      (b : Builder Value) (v : Value) (type : DataType)
      → IsCached context.json b
      → cache_get b.param_cache (context.json.to_string v) type ≡ none
      → Extends context.json
          (λ s. s)
          (λ f. f)
          b
          (extended b v type)
          (placeholder (suc (length b.parameters)) ∷ [])
  extended-Extends b v type h miss =
      let one = length-append_one b.parameters (record { value = v; data_type = type }) in
      record {
        cached = record { found = found_after b v type h; listed = listed_after b v type h miss };
        grows = omega arith;
        keeps = λ i p e. get_elem?_append b.parameters _ i e;
        in_range = ((omega arith, omega arith), tt);
        used = λ i l u.
            let at : i ≡ length b.parameters = omega arith in
            here (ap placeholder (ap suc (sym at)));
        stack_after = refl;
        flag_after = refl;
      }

  pub add_parameter-miss :
      (b : Builder Value) (v : Value) (type : DataType)
      → cache_get b.param_cache (context.json.to_string v) type ≡ none
      → add_parameter context v type b
        ≡ done (placeholder (suc (length b.parameters)) ∷ []) (extended b v type)
  unfolding add_parameter
  add_parameter-miss b v type miss = rw miss

  -- A literal that was just added is found again.
  pub cache_get-extended :
      (b : Builder Value) (v : Value) (type : DataType)
      → cache_get (extended b v type).param_cache (context.json.to_string v) type
        ≡ some (length b.parameters)
  cache_get-extended b v type =
      let text = context.json.to_string v in
      cache_get-cons text text type type (length b.parameters) b.param_cache
      ∙ rw (same_key_refl text type) refl

  pub add_parameter_again :
      (b : Builder Value) (v : Value) (type : DataType) (i : ℕ)
      → is_indexed context.config ≡ false
      → cache_get b.param_cache (context.json.to_string v) type ≡ some i
      → add_parameter context v type b ≡ done (placeholder 0 ∷ []) b
  unfolding add_parameter
  add_parameter_again b v type i plain hit = rw (hit, plain)

  module _ (indexed : is_indexed context.config ≡ true) where
    pub add_parameter-hit :
        (b : Builder Value) (v : Value) (type : DataType) (i : ℕ)
        → cache_get b.param_cache (context.json.to_string v) type ≡ some i
        → add_parameter context v type b ≡ done (placeholder (suc i) ∷ []) b
    unfolding add_parameter
    add_parameter-hit b v type i hit = rw (hit, indexed)

    hit-Extends :
        (b : Builder Value) (i : ℕ) (text : Text) (type : DataType)
        → IsCached context.json b
        → cache_get b.param_cache text type ≡ some i
        → Extends context.json (λ s. s) (λ f. f) b b (placeholder (suc i) ∷ [])
    hit-Extends b i text type h hit =
        let (p, at, key, same) = h.found text type i hit in
        let bound = get_elem?_bound b.parameters i at in
        record {
          cached = h;
          grows = omega arith;
          keeps = λ i p e. e;
          in_range = ((omega arith, omega arith), tt);
          used = λ i l u. absurd (omega arith);
          stack_after = refl;
          flag_after = refl;
        }

    -- The placeholder that `add_parameter` returns is that of a parameter with the literal's text and type.
    pub add_parameter-binds :
        (v : Value) (type : DataType) (b : Builder Value)
        → IsCached context.json b
        → (i : ℕ) × (c : Builder Value) × (add_parameter context v type b
            ≡ done (placeholder (suc i) ∷ []) c)
          × HasKey context.json c.parameters i (context.json.to_string v) type
    add_parameter-binds v type b h =
        let text = context.json.to_string v in
        elim (Option-cases (cache_get b.param_cache text type)) [
          | inl miss ↦ (
            length b.parameters,
            extended b v type,
            add_parameter-miss b v type miss,
            found_after b v type h text type (length b.parameters) (cache_get-extended b v type),
          )
          | inr (i, hit) ↦ (i, b, add_parameter-hit b v type i hit, h.found text type i hit)
        ]

    pub add_parameter-IsSound :
        (v : Value) (type : DataType) → IsSound context.json (add_parameter context v type)
    add_parameter-IsSound v type b c sql h e =
        let text = context.json.to_string v in
        elim (Option-cases (cache_get b.param_cache text type)) [
          | inl miss ↦
              subst_done (λ out c. Extends context.json (λ s. s) (λ f. f) b c out)
                (sym (add_parameter-miss b v type miss) ∙ e) (extended-Extends b v type h miss)
          | inr (i, hit) ↦
              subst_done (λ out c. Extends context.json (λ s. s) (λ f. f) b c out)
                (sym (add_parameter-hit b v type i hit) ∙ e) (hit-Extends b i text type h hit)
        ]
