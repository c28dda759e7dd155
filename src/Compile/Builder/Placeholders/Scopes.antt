-- ===== src/Compile/Builder/Placeholders/Scopes.antt =====
-- Renderings that keep the parameters and the placeholders in step, put together, and the scopes that a
-- query opens and closes: crates/vlorql-core/src/compile/builder/mod.rs and clause.rs.
use vlor_ql.Common.{Bool, true, [], ◌∷◌, refl}
use vlor_ql.Common.Text.{Text}
use vlor_ql.Compile.Builder.{
  Context, push_alias_scope, pop_alias_scope, set_in_cte, pop, alias_scope,
}
use vlor_ql.Compile.Builder.Clauses.{within_cte}
use vlor_ql.Compile.Builder.Parameters.{
  Runs, IsSound, Runs-then, Runs-text, IsSound-fail, IsSound-push_code, IsSound-nothing,
  IsSound-reading,
}
use vlor_ql.Compile.Sql.{
  Render, Builder, ◌⊕◌, nothing, push_code, push_str, fail, push_outcome, reading, Outcome, ok, err,
}
use Prim.Native.String.{String}
use vlor_ql.Errors.{VlorQlError}
use vlor_ql.Schema.Plan.{QueryPlan}

-- The rendering is sound, whatever the builder that it starts from.
pub record Keeps {Value : Type 0} (context : Context Value) (r : Render Value) : Type 0 where
  pub sound : IsSound context.json r

-- The rendering is sound but for the scope on top, which it takes away.
pub record Closes {Value : Type 0} (context : Context Value) (r : Render Value) : Type 0 where
  pub closes : Runs context.json pop (λ f. f) r

module _ {Value : Type 0} {context : Context Value} where
  infixr 20 ◌▷◌
  pub ◌▷◌ : {r s : Render Value} → Keeps context r → Keeps context s → Keeps context (r ⊕ s)
  ◌▷◌ {r} {s} x y = record {
    sound = Runs-then context.json (λ s. s) (λ s. s) (λ f. f) (λ f. f) r s x.sound y.sound;
  }

  pub Keeps-nothing : Keeps context nothing
  Keeps-nothing = record { sound = IsSound-nothing context.json }

  pub Keeps-fail : (e : VlorQlError) → Keeps context (fail e)
  Keeps-fail e = record { sound = IsSound-fail context.json e }

  pub Keeps-push_code : (t : Text) → Keeps context (push_code t)
  Keeps-push_code t = record { sound = IsSound-push_code context.json t }

  pub Keeps-push_str : (s : String) → Keeps context (push_str s)
  unfolding push_str
  Keeps-push_str s = Keeps-push_code _

  pub Keeps-push_outcome : (o : Outcome) → Keeps context (push_outcome o)
  Keeps-push_outcome (ok t) = Keeps-push_code t
  Keeps-push_outcome (err e) = Keeps-fail e

  pub Keeps-reading :
      {r : Builder Value → Render Value}
      → ((b : Builder Value) → Keeps context (r b))
      → Keeps context (reading r)
  Keeps-reading {r} k = record { sound = IsSound-reading context.json r (λ b. (k b).sound) }

module _ {Value : Type 0} (context : Context Value) where
  Runs-set_in_cte : (flag : Bool) → Runs context.json (λ s. s) (λ f. flag) (set_in_cte flag)
  unfolding set_in_cte
  Runs-set_in_cte flag =
      Runs-text context.json (λ s. s) (λ f. flag) (set_in_cte flag) [] tt (λ b. refl)

  pub Runs-push_alias_scope :
      (plan : QueryPlan Value)
      → Runs context.json (λ s. alias_scope plan ∷ s) (λ f. f) (push_alias_scope plan)
  unfolding push_alias_scope
  Runs-push_alias_scope plan =
      Runs-text context.json (λ s. alias_scope plan ∷ s) (λ f. f) (push_alias_scope plan) [] tt
        (λ b. refl)

  pub Closes-pop_alias_scope : Closes context pop_alias_scope
  unfolding pop_alias_scope
  Closes-pop_alias_scope = record {
    closes = Runs-text context.json pop (λ f. f) pop_alias_scope [] tt (λ b. refl);
  }

module _ {Value : Type 0} {context : Context Value} where
  -- With the flag put back, the flag is as it was.
  Runs-within :
      (saved : Bool) {r : Render Value}
      → Keeps context r
      → Runs context.json (λ s. s) (λ f. saved) (set_in_cte true ⊕ r ⊕ set_in_cte saved)
  Runs-within saved {r} k =
      Runs-then context.json (λ s. s) (λ s. s) (λ f. true) (λ f. saved) (set_in_cte true)
        (r ⊕ set_in_cte saved) (Runs-set_in_cte context true)
        (Runs-then context.json (λ s. s) (λ s. s) (λ f. f) (λ f. saved) r (set_in_cte saved) k.sound
          (Runs-set_in_cte context saved))

  pub Keeps-within_cte : {r : Render Value} → Keeps context r → Keeps context (within_cte r)
  unfolding within_cte reading
  Keeps-within_cte k = record {
    sound = λ b c sql h e.
        let x = Runs-within b.in_cte k b c sql h e in
        record {
          cached = x.cached;
          grows = x.grows;
          keeps = x.keeps;
          in_range = x.in_range;
          used = x.used;
          stack_after = x.stack_after;
          flag_after = x.flag_after;
        };
  }

  infixr 20 ◌▶◌
  pub ◌▶◌ : {r s : Render Value} → Keeps context r → Closes context s → Closes context (r ⊕ s)
  ◌▶◌ {r} {s} k x = record {
    closes = Runs-then context.json (λ s. s) pop (λ f. f) (λ f. f) r s k.sound x.closes;
  }

  -- What pushes a scope, and then closes it, keeps the scopes.
  pub Keeps-scope :
      (plan : QueryPlan Value) {r : Render Value}
      → Closes context r
      → Keeps context (push_alias_scope plan ⊕ r)
  Keeps-scope plan {r} k = record {
    sound =
        Runs-then context.json (λ s. alias_scope plan ∷ s) pop (λ f. f) (λ f. f)
          (push_alias_scope plan) r (Runs-push_alias_scope context plan) k.closes;
  }
