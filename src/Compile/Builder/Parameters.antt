-- ===== src/Compile/Builder/Parameters.antt =====
-- What a rendering does to the builder: the parameters that it adds, the placeholders that it writes, and
-- the scopes that it leaves. A rendering that fails returns no builder, and is of no concern here.
use vlor_ql.Common.{
  ℕ, suc, ◌≤◌, ◌<◌, Bool, some, List, [], ◌∷◌, ◌++◌, ◌≡◌, refl, sym, ap, ◌∙◌, ◌⊎◌, inl, inr, arith,
  length, get_elem?, All, All-append, Member,
}
use vlor_ql.Common.Lists.{Member-append_left, Member-append_right}
use mathlib.Core.Path.{subst}
use vlor_ql.Common.Text.{Text}
use vlor_ql.Compile.Builder.{Json, cache_get}
use vlor_ql.Compile.Sql.{
  Fragment, code, placeholder, Sql, Parameter, AliasMap, Builder, Rendered, done, failed, Render,
  ◌⊕◌, nothing, push_code, fail, reading,
}
use vlor_ql.Errors.{VlorQlError}
use vlor_ql.Schema.Types.{DataType}

pub subst_done :
    {Value : Type 0} (P : Sql → Builder Value → Type 0) {sql out : Sql} {b c : Builder Value}
    → done sql b ≡ done out c
    → P sql b
    → P out c
subst_done P {sql} {out} {b} {c} e h =
    let s : sql ≡ out = cc in let t : b ≡ c = cc in subst (P out) t (subst (λ x. P x b) s h)

Rendered-cases :
    {Value : Type 0} (r : Rendered Value)
    → ((sql : Sql) × (b : Builder Value) × (r ≡ done sql b)) ⊎ ((e : VlorQlError) × (r ≡ failed e))
Rendered-cases (done sql b) = inl (sql, b, refl)
Rendered-cases (failed e) = inr (e, refl)

-- Two renderings, one after the other, end where both do.
pub ⊕-done :
    {Value : Type 0} (r s : Render Value) (b d : Builder Value) (out : Sql)
    → (r ⊕ s) b ≡ done out d
    → (sql rest : Sql) × (c : Builder Value) × (r b ≡ done sql c)
      × (s c ≡ done rest d)
      × (sql ++ rest ≡ out)
unfolding ◌⊕◌
⊕-done r s b d out e = elim (Rendered-cases (r b)) [
  | inl (sql, c, x) ↦ elim (Rendered-cases (s c)) [
    | inl (rest, d', y) ↦
        let e' : done (sql ++ rest) d' ≡ done out d = rw (x, y) at e in
        let t : d' ≡ d = cc in (sql, rest, c, x, y ∙ ap (λ d. done rest d) t, cc)
    | inr (error, y) ↦ let e' : failed error ≡ done out d = rw (x, y) at e in cc
  ]
  | inr (error, x) ↦ let e' : failed error ≡ done out d = rw x at e in cc
]

lt_or_le : (i n : ℕ) → (i < n) ⊎ (n ≤ i)
lt_or_le i n = ground arith

module _ {Value : Type 0} (json : Json Value) where
  -- The parameter at the index has the text and the type.
  abbrev pub HasKey : List (Parameter Value) → ℕ → Text → DataType → Type 0
  HasKey ps i text type =
      (p : Parameter Value) × (get_elem? ps i ≡ some p)
      × (json.to_string p.value ≡ text)
      × (p.data_type ≡ type)

  -- The cache holds the keys of the parameters, each with its index.
  pub record IsCached (b : Builder Value) : Type 0 where
    pub found :
        (text : Text) (type : DataType) (i : ℕ)
        → cache_get b.param_cache text type ≡ some i
        → HasKey b.parameters i text type
    pub listed :
        (i : ℕ) (p : Parameter Value)
        → get_elem? b.parameters i ≡ some p
        → cache_get b.param_cache (json.to_string p.value) p.data_type ≡ some i

  abbrev pub InRange : ℕ → Fragment → Type 0
  InRange n (code t) = Unit
  InRange n (placeholder i) = (1 ≤ i) × (i ≤ n)

  -- From one builder to another, by a rendering that wrote the text.
  pub record Extends (stack : List AliasMap → List AliasMap) (flag : Bool → Bool)
      (b c : Builder Value) (sql : Sql) : Type 0 where
    pub cached : IsCached c
    pub grows : length b.parameters ≤ length c.parameters
    pub keeps :
        (i : ℕ) (p : Parameter Value)
        → get_elem? b.parameters i ≡ some p
        → get_elem? c.parameters i ≡ some p
    pub in_range : All (InRange (length c.parameters)) sql
    pub used :
        (i : ℕ)
        → length b.parameters ≤ i
        → i < length c.parameters
        → Member (placeholder (suc i)) sql
    pub stack_after : c.alias_stack ≡ stack b.alias_stack
    pub flag_after : c.in_cte ≡ flag b.in_cte

  abbrev pub Runs : (List AliasMap → List AliasMap) → (Bool → Bool) → Render Value → Type 0
  Runs stack flag r =
      (b c : Builder Value) (sql : Sql) → IsCached b → r b ≡ done sql c → Extends stack flag b c sql

  -- A rendering that leaves the scopes as they are.
  abbrev pub IsSound : Render Value → Type 0
  IsSound r = Runs (λ s. s) (λ f. f) r

  pub InRange-mono : {m n : ℕ} → m ≤ n → (sql : Sql) → All (InRange m) sql → All (InRange n) sql
  InRange-mono le [] h = tt
  InRange-mono le (code t ∷ sql) h = (tt, InRange-mono le sql h.1)
  InRange-mono le (placeholder i ∷ sql) h =
      ((h.0.0, let a = h.0.1 in omega arith), InRange-mono le sql h.1)

  -- A rendering that adds no parameter and writes text of its own.
  pub Runs-text :
      (stack : List AliasMap → List AliasMap) (flag : Bool → Bool) (r : Render Value) (sql : Sql)
      → All (InRange 0) sql
      → ((b : Builder Value)
          → r b ≡ done sql (record b { alias_stack = stack b.alias_stack; in_cte = flag b.in_cte }))
      → Runs stack flag r
  Runs-text stack flag r sql range same b c out h e =
      subst_done (λ out c. Extends stack flag b c out) (sym (same b) ∙ e)
        record {
          cached = record { found = h.found; listed = h.listed };
          grows = omega arith;
          keeps = λ i p e. e;
          in_range = InRange-mono (omega arith) sql range;
          used = λ i l u. absurd (omega arith);
          stack_after = refl;
          flag_after = refl;
        }

  Extends-then :
      (stack stack' : List AliasMap → List AliasMap) (flag flag' : Bool → Bool)
      (b c d : Builder Value) (sql rest : Sql)
      → Extends stack flag b c sql
      → Extends stack' flag' c d rest
      → Extends (λ s. stack' (stack s)) (λ f. flag' (flag f)) b d (sql ++ rest)
  Extends-then stack stack' flag flag' b c d sql rest x y = record {
    cached = y.cached;
    grows = let l = x.grows in let r = y.grows in omega arith;
    keeps = λ i p e. y.keeps i p (x.keeps i p e);
    in_range =
        (All-append (InRange (length d.parameters)) sql rest).1
          (InRange-mono y.grows sql x.in_range, y.in_range);
    used = λ i l u. elim (lt_or_le i (length c.parameters)) [
      | inl before ↦ Member-append_left sql rest (x.used i l before)
      | inr after ↦ Member-append_right sql rest (y.used i after u)
    ];
    stack_after = y.stack_after ∙ ap stack' x.stack_after;
    flag_after = y.flag_after ∙ ap flag' x.flag_after;
  }

  pub Runs-then :
      (stack stack' : List AliasMap → List AliasMap) (flag flag' : Bool → Bool) (r s : Render Value)
      → Runs stack flag r
      → Runs stack' flag' s
      → Runs (λ s. stack' (stack s)) (λ f. flag' (flag f)) (r ⊕ s)
  Runs-then stack stack' flag flag' r s x y b d out h e =
      let (sql, rest, c, first, second, text) = ⊕-done r s b d out e in
      let before = x b c sql h first in
      subst (Extends (λ s. stack' (stack s)) (λ f. flag' (flag f)) b d) text (
        Extends-then stack stack' flag flag' b c d sql rest before
          (y c d rest before.cached second))

  pub IsSound-fail : (e : VlorQlError) → IsSound (fail e)
  unfolding fail
  IsSound-fail e b c sql h same = cc

  pub IsSound-push_code : (t : Text) → IsSound (push_code t)
  unfolding push_code
  IsSound-push_code t = Runs-text (λ s. s) (λ f. f) (push_code t) (code t ∷ []) (tt, tt) (λ b. refl)

  pub IsSound-nothing : IsSound nothing
  unfolding nothing
  IsSound-nothing = Runs-text (λ s. s) (λ f. f) nothing [] tt (λ b. refl)

  pub IsSound-reading :
      (r : Builder Value → Render Value)
      → ((b : Builder Value) → IsSound (r b))
      → IsSound (reading r)
  unfolding reading
  IsSound-reading r f b c sql h e = f b b c sql h e
