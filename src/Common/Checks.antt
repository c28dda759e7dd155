-- ===== src/Common/Checks.antt =====
-- Functions that push errors, and the condition under which they push none. `Checks f P` says that `f`
-- leaves the error list empty exactly if it was empty before and `P` holds. `Fresh` is an invariant of
-- the state that `f` relies on and keeps.
use mathlib.Core.Path.{◌≡◌}
use mathlib.Core.Logic.{◌↔◌}
use mathlib.Core.List.{List, [], ◌∷◌}
use mathlib.Core.Bool.{Bool, true, false}
use vlor_ql.Common.Lists.{All, for_each}
use vlor_ql.Common.Tests.{if◌then◌else◌}

-- What a test skips counts as checked.
abbrev pub Unless : Bool → Type 0 → Type 0
Unless true P = Unit
Unless false P = P

module _ {E S : Type 0} (errs : S → List E) (Fresh : S → Type 0) where
  pub record Checks (f : S → S) (P : Type 0) : Type 0 where
    pub keeps : (s : S) → Fresh s → Fresh (f s)
    pub sound : (s : S) → Fresh s → errs (f s) ≡ [] → (errs s ≡ []) × P
    pub complete : (s : S) → Fresh s → errs s ≡ [] → P → errs (f s) ≡ []

  pub Checks-none : Checks (λ s. s) Unit
  Checks-none = record { keeps = λ s h. h; sound = λ s h e. (e, tt); complete = λ s h e _. e }

  pub Checks-then :
      (f g : S → S) {P Q : Type 0} → Checks f P → Checks g Q → Checks (λ s. g (f s)) (P × Q)
  Checks-then f g cf cg = record {
    keeps = λ s h. cg.keeps (f s) (cf.keeps s h);
    sound = λ s h e.
        let r = cg.sound (f s) (cf.keeps s h) e in let l = cf.sound s h r.0 in (l.0, (l.1, r.1));
    complete = λ s h e p. cg.complete (f s) (cf.keeps s h) (cf.complete s h e p.0) p.1;
  }

  pub Checks-iff : (f : S → S) {P Q : Type 0} → P ↔ Q → Checks f P → Checks f Q
  Checks-iff f e c = record {
    keeps = c.keeps;
    sound = λ s h p. let r = c.sound s h p in (r.0, e.0 r.1);
    complete = λ s h p q. c.complete s h p (e.1 q);
  }

  pub Checks-for_each :
      {A : Type 0} (f : A → S → S) (P : A → Type 0)
      → ((a : A) → Checks (f a) (P a))
      → (xs : List A) → Checks (for_each f xs) (All P xs)
  Checks-for_each f P c [] = Checks-none
  Checks-for_each f P c (x ∷ xs) =
      Checks-then (f x) (for_each f xs) (c x) (Checks-for_each f P c xs)

  pub Checks-unless :
      (b : Bool) (f : S → S) {P : Type 0}
      → Checks f P
      → Checks (λ s. if b then s else f s) (Unless b P)
  Checks-unless true f c = Checks-none
  Checks-unless false f c = c
